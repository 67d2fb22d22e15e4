-- ===== src/Skills/Selection.antt =====
-- The identity of the selected packages: the digest that Load of
-- pkg/adapters/skillpackages/packages.go gives to a run does not depend on the order of the
-- versions in its snapshot.
use Prim.Native.Char.{Char, code}
use Prim.Native.String.{String, compare, ◌++◌ as ◌+++◌, [] as nil, ◌∷◌ as cons}
use Prim.Native.String.compare
use text.Mathlib.Text.{is_lt}
use text.Mathlib.TextEquality.{Char-path}
use openlinker_agent_node.Base.{
  ℕ, ◌≡◌, ◌≢◌, refl, sym, ap, subst, Option, ◌∙◌, Bool, true, false, List, [], ◌∷◌, arith, All,
  if◌then◌else◌, ltb,
}
use mathlib.Core.List.{Permᴰ}
use openlinker_agent_node.Base.Result.{ok}
use openlinker_agent_node.Skills.{Version, Snapshot, Contents}
use openlinker_agent_node.Skills.Decode.{decode}
use openlinker_agent_node.Skills.Decode.Pinned.{AreApart, decode-ArePinned}
use openlinker_agent_node.Skills.Instructions.{session_mode}
use openlinker_agent_node.Skills.Load.{insert_version, sort_versions, selection_digest, Event}

abbrev lt : String → String → Bool
lt s t = is_lt (compare s t)

lt-nil : (s : String) → lt s nil ≡ false
lt-nil nil = ap is_lt compare.nil-nil
lt-nil (cons c s) = ap is_lt (compare.cons-nil c s)

nil-lt : (c : Char) (s : String) → lt nil (cons c s) ≡ true
nil-lt c s = ap is_lt (compare.nil-cons c s)

-- The order of two texts by their first characters, and then by the others.
lt-cons :
    (c d : Char) (s t : String)
    → lt (cons c s) (cons d t)
      ≡ (if ltb (code c) (code d) then true else if ltb (code d) (code c) then false else lt s t)
lt-cons c d s t = ap is_lt (compare.cons-cons c d s t) ∙ ground arith

lt-asym : (s t : String) → lt s t ≡ true → lt t s ≡ false
lt-asym nil t h = lt-nil t
lt-asym (cons c s) nil h = absurd (cc (lt-nil (cons c s)))
lt-asym (cons c s) (cons d t) h = ground (arith, lt-cons c d s t, lt-cons d c t s, lt-asym s t, h)

lt-total : (s t : String) → lt s t ≡ false → lt t s ≡ false → s ≡ t
lt-total nil nil h k = refl
lt-total nil (cons d t) h k = absurd (cc (nil-lt d t))
lt-total (cons c s) nil h k = absurd (cc (nil-lt c s))
lt-total (cons c s) (cons d t) h k =
    let a = lt-cons c d s t in
    let b = lt-cons d c t s in
    let same : code c ≡ code d = ground (arith, h, k, a, b) in
    let rest : s ≡ t = lt-total s t (ground (arith, h, same, a)) (ground (arith, k, same, b)) in
    let first = Char-path c d same in cc

lt_trans : (s t u : String) → lt s t ≡ true → lt t u ≡ true → lt s u ≡ true
lt_trans s nil u h k = absurd (cc (lt-nil s))
lt_trans s (cons d t) nil h k = absurd (cc (lt-nil (cons d t)))
lt_trans nil (cons d t) (cons e u) h k = nil-lt e u
lt_trans (cons c s) (cons d t) (cons e u) h k =
    ground (arith, lt-cons c d s t, lt-cons d e t u, lt-cons c e s u, lt_trans s t u, h, k)

insert_version-swap :
    (v w : Version) (vs : List Version)
    → v.package_id ≢ w.package_id
    → insert_version v (insert_version w vs) ≡ insert_version w (insert_version v vs)
insert_version-swap v w [] d =
    ground (arith, lt-asym v.package_id w.package_id, lt-total v.package_id w.package_id, d)
insert_version-swap v w (x ∷ vs) d = ground (
  arith,
  lt-asym v.package_id w.package_id,
  lt-asym w.package_id v.package_id,
  lt-total v.package_id w.package_id,
  lt_trans x.package_id v.package_id w.package_id,
  lt_trans x.package_id w.package_id v.package_id,
  lt_trans v.package_id w.package_id x.package_id,
  lt_trans w.package_id v.package_id x.package_id,
  insert_version-swap v w vs d,
  d,
)

All-perm : (P : Version → Type 0) {vs ws : List Version} → Permᴰ vs ws → All P vs → All P ws
All-perm P Permᴰ.nil h = h
All-perm P (Permᴰ.cons e p) (k, h) = (subst P e k, All-perm P p h)
All-perm P (Permᴰ.swap e f) (k, (l, h)) = (subst P f l, (subst P e k, h))
All-perm P (Permᴰ.trans p q) h = All-perm P q (All-perm P p h)

swapped-AreApart :
    (a b : Version) (vs : List Version) → AreApart (a ∷ b ∷ vs) → AreApart (b ∷ a ∷ vs)
swapped-AreApart a b vs ((k, l), (m, h)) = (((λ e. k (sym e)), m), (l, h))

AreApart-perm : {vs ws : List Version} → Permᴰ vs ws → AreApart vs → AreApart ws
AreApart-perm Permᴰ.nil h = h
AreApart-perm (Permᴰ.cons {a = a} {l₂ = ws} e p) (k, h) =
    let there = All-perm (λ w. w.package_id ≢ a.package_id) p k in
    subst (λ x. All (λ w. w.package_id ≢ x.package_id) ws × AreApart ws) e
      (there, AreApart-perm p h)
AreApart-perm (Permᴰ.swap {a = a} {b = b} {a' = a'} {b' = b'} {l = vs} e f) h =
    let there : AreApart (b ∷ a ∷ vs) = swapped-AreApart a b vs h in
    let first : AreApart (a' ∷ a ∷ vs) = subst (λ (x : Version). AreApart (x ∷ a ∷ vs)) f there in
    subst (λ (x : Version). AreApart (a' ∷ x ∷ vs)) e first
AreApart-perm (Permᴰ.trans p q) h = AreApart-perm q (AreApart-perm p h)

sort_versions-perm :
    {vs ws : List Version} → Permᴰ vs ws → AreApart vs → sort_versions vs ≡ sort_versions ws
sort_versions-perm Permᴰ.nil h = refl
sort_versions-perm (Permᴰ.cons e p) (k, h) = let rest = sort_versions-perm p h in cc
sort_versions-perm (Permᴰ.swap {a = a} {b = b} {a' = a'} {b' = b'} {l = vs} e f) ((k, l), (m, h)) =
    let exchanged = insert_version-swap a b (sort_versions vs) (λ q. k (sym q)) in cc
sort_versions-perm (Permᴰ.trans p q) h =
    sort_versions-perm p h ∙ sort_versions-perm q (AreApart-perm p h)

module _ (emits : Event → Bool) (sha256 : String → String) (encode_versions : List Version → String)
    (encode_copies : List (String × String) → String) where
  selection_digest-sorted :
      (vs ws : List Version) (copies : List (String × String))
      → sort_versions vs ≡ sort_versions ws
      → selection_digest emits sha256 encode_versions encode_copies vs copies
        ≡ selection_digest emits sha256 encode_versions encode_copies ws copies
  unfolding selection_digest
  selection_digest-sorted vs ws [] same = ap (λ l. sha256 (encode_versions l)) same
  selection_digest-sorted vs ws (c ∷ rest) same =
      ap (λ l. sha256 (encode_versions l +++ encode_copies (c ∷ rest))) same

-- For a snapshot that Decode accepts, the digest of the selected packages, and with it the mode of
-- the client's session, is the same for every order of its versions, with or without recovered
-- copies.
pub selection_unordered :
    (contents : String → Option Contents) (provider : String) (size : Option ℕ)
    (snapshot : Option Snapshot) (s : Snapshot) (bs : List Contents) (emits : Event → Bool)
    (sha256 : String → String) (encode_versions : List Version → String)
    (encode_copies : List (String × String) → String) (copies : List (String × String))
    (ws : List Version)
    → decode sha256 contents provider size snapshot ≡ ok (s, bs)
    → Permᴰ s.bundles ws
    → session_mode (selection_digest emits sha256 encode_versions encode_copies s.bundles copies)
      ≡ session_mode (selection_digest emits sha256 encode_versions encode_copies ws copies)
selection_unordered contents provider size snapshot s bs emits sha256 encode_versions encode_copies
      copies ws h p =
    let pinned = decode-ArePinned sha256 contents provider size snapshot s bs h in
    let same = sort_versions-perm p pinned.3 in
    ap session_mode
      (selection_digest-sorted emits sha256 encode_versions encode_copies s.bundles ws copies same)
