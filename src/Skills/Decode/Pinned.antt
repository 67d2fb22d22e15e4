-- ===== src/Skills/Decode/Pinned.antt =====
-- What a snapshot that pkg/adapters/skillpackages decodes says of its packages.
use Prim.Native.String.{String, len}
use openlinker_agent_node.Base.{
  ℕ, ◌≤◌, ◌≡◌, ◌≢◌, refl, sym, ap, subst, inl, inr, Bool, true, false, List, [], ◌∷◌, Option, none,
  some, Bool-cases, Option-cases, arith, All, All-any, All-map, str_eq, eq_iff, length, trim_space,
  any, not, ◌||◌, ltb, ◌==◌,
}
use openlinker_agent_node.Base.Assoc.{lookup}
use openlinker_agent_node.Base.Result.{ok, refuse, >>=-ok, refuse-ok}
use openlinker_agent_node.Skills.{Version, Snapshot, Contents}
use openlinker_agent_node.Skills.Decode.{
  Refusal, bad_file, text_or_empty, contains, bad_identity, bad_bundle, decode_bundle,
  decode_bundles, decode,
}
use openlinker_agent_node.Skills.Decode.Confined.{IsConfined, bad_file-IsConfined}
use mathlib.Core.List.{Memᴰ}

contains-Mem : (xs : List String) (s : String) → contains xs s ≡ true → Memᴰ s xs
contains-Mem [] s h = absurd cc
contains-Mem (x ∷ xs) s h = elim (Bool-cases (str_eq x s)) [
  | inl same ↦ Memᴰ.head (sym ((eq_iff x s).0 same))
  | inr apart ↦ Memᴰ.tail (contains-Mem xs s (rw apart at h))
]

text-some :
    (o : Option String)
    → str_eq (trim_space (text_or_empty o)) "" ≡ false
    → (text : String) × (o ≡ some text) × (trim_space text ≢ "")
unfolding trim_space
text-some none h = absurd cc
text-some (some text) h = (text, refl, λ e. let p = (eq_iff (trim_space text) "").1 e in absurd cc)

-- No two versions are of one package.
abbrev pub AreApart : List Version → Type 0
AreApart [] = Unit
AreApart (v ∷ vs) = All (λ w. w.package_id ≢ v.package_id) vs × AreApart vs

module _ (sha256 : String → String) (contents : String → Option Contents) (provider : String) where
  -- The contents of a version are those of its payload, which its digest pins.
  pub record IsPinned (v : Version) (b : Contents) : Type 0 where
    pub digest : sha256 v.payload ≡ v.digest
    pub payload : contents v.payload ≡ some b
    pub size : len v.payload ≤ 65536
    pub supported : Memᴰ provider b.providers
    pub some_file : 1 ≤ length b.files
    pub few_files : length b.files ≤ 32
    pub instructions :
        (text : String) × (lookup "SKILL.md" b.files ≡ some text) × (trim_space text ≢ "")
    pub confined : All (λ file. IsConfined file.0) b.files

  abbrev pub ArePinned : List Version → List Contents → Type 0
  ArePinned [] [] = Unit
  ArePinned [] (b ∷ bs) = ◌≡◌ {A = Bool} false true
  ArePinned (v ∷ vs) [] = ◌≡◌ {A = Bool} false true
  ArePinned (v ∷ vs) (b ∷ bs) = IsPinned v b × ArePinned vs bs

  tested-IsPinned :
      (seen : List String) (v : Version) (b : Contents)
      → bad_identity sha256 contents provider seen v ≡ false
      → contents v.payload ≡ some b
      → bad_bundle sha256 contents provider b ≡ false
      → any bad_file b.files ≡ false
      → IsPinned v b
  unfolding bad_identity bad_bundle
  tested-IsPinned seen v b fine there good safe = record {
    digest =
        let e : str_eq (sha256 v.payload) v.digest ≡ true = ground (arith, fine) in
        (eq_iff (sha256 v.payload) v.digest).0 e;
    payload = there;
    size = ground (arith, fine);
    supported = contains-Mem b.providers provider (ground (arith, good));
    some_file = ground (arith, good);
    few_files = ground (arith, good);
    instructions = text-some (lookup "SKILL.md" b.files) (ground (arith, good));
    confined =
        All-map (λ file t. bad_file-IsConfined file.0 file.1 t) b.files
          (All-any bad_file b.files safe);
  }

  decode_bundle-IsPinned :
      (seen : List String) (v : Version) (b : Contents)
      → bad_identity sha256 contents provider seen v ≡ false
      → decode_bundle sha256 contents provider v ≡ ok b
      → IsPinned v b
  unfolding decode_bundle bad_identity bad_bundle
  decode_bundle-IsPinned seen v b fine h = elim (Option-cases (contents v.payload)) [
    | inl missing ↦ absurd (cc (rw (missing, decode_bundle) at h))
    | inr (c, there) ↦
        let (u, first, rest) =
          >>=-ok (refuse (bad_bundle sha256 contents provider c) Refusal.incompatible_package) _
            (rw (there, decode_bundle) at h) in
        let (u', second, last) =
          >>=-ok (refuse (any bad_file c.files) Refusal.unsafe_file) _ rest in
        let good =
          refuse-ok (bad_bundle sha256 contents provider c) Refusal.incompatible_package u first in
        let safe = refuse-ok (any bad_file c.files) Refusal.unsafe_file u' second in
        let same : c ≡ b = cc in
        subst (IsPinned v) same (tested-IsPinned seen v c fine there good safe)
  ]

  not-seen :
      (seen : List String) (v : Version)
      → bad_identity sha256 contents provider seen v ≡ false
      → All (λ s. v.package_id ≢ s) seen
  unfolding bad_identity
  not-seen seen v fine =
      let new : contains seen v.package_id ≡ false = ground (arith, fine) in
      All-map
        (λ s apart. (λ e. let t = eq_iff s v.package_id in absurd (ground (arith, apart, t, e))))
        seen (All-any (λ s. str_eq s v.package_id) seen new)

  decode_bundles-ArePinned :
      (seen : List String) (vs : List Version) (bs : List Contents)
      → decode_bundles sha256 contents provider seen vs ≡ ok bs
      → ArePinned vs bs × All (λ v. All (λ s. v.package_id ≢ s) seen) vs × AreApart vs
  unfolding decode_bundles
  decode_bundles-ArePinned seen [] [] h = (tt, tt, tt)
  decode_bundles-ArePinned seen [] (b ∷ bs) h = absurd cc
  decode_bundles-ArePinned seen (v ∷ vs) bs h =
      let bad = bad_identity sha256 contents provider seen v in
      let (u, first, rest) = >>=-ok (refuse bad Refusal.identity_mismatch) _ h in
      let fine = refuse-ok bad Refusal.identity_mismatch u first in
      let (b, here, later) = >>=-ok (decode_bundle sha256 contents provider v) _ rest in
      let (cs, there, last) =
        >>=-ok (decode_bundles sha256 contents provider (v.package_id ∷ seen) vs) _ later in
      let (pinned, others, apart) = decode_bundles-ArePinned (v.package_id ∷ seen) vs cs there in
      let same : (b ∷ cs) ≡ bs = cc in
      subst
        (λ (l : List Contents).
          ArePinned (v ∷ vs) l
          × All (λ w. All (λ s. w.package_id ≢ s) seen) (v ∷ vs)
          × AreApart (v ∷ vs))
        same
        (
          (decode_bundle-IsPinned seen v b fine here, pinned),
          (not-seen seen v fine, All-map (λ w k. k.1) vs others),
          (All-map (λ w k. k.0) vs others, apart),
        )

  -- A snapshot that Decode accepts has schema 1 and at most five versions of different packages.
  -- The contents that it returns are, in order, those of the versions' payloads, whose SHA-256 is
  -- the version's digest; each names the provider, has one to 32 files with a SKILL.md that is not
  -- blank, and no path of a file has a segment that leaves its directory or is hidden.
  pub decode-ArePinned :
      (size : Option ℕ) (snapshot : Option Snapshot) (s : Snapshot) (bs : List Contents)
      → decode sha256 contents provider size snapshot ≡ ok (s, bs)
      → (snapshot ≡ some s)
        × (s.schema ≡ 1)
        × (length s.bundles ≤ 5)
        × AreApart s.bundles
        × ArePinned s.bundles bs
  unfolding decode
  decode-ArePinned none snapshot s bs h = absurd cc
  decode-ArePinned (some size) none s bs h = absurd cc
  decode-ArePinned (some size) (some t) s bs h =
      let bad = not (t.schema == 1) || ltb 5 (length t.bundles) in
      let (u, first, rest) = >>=-ok (refuse (ltb 786432 size) Refusal.invalid_snapshot) _ h in
      let (u', second, later) = >>=-ok (refuse bad Refusal.invalid_snapshot) _ rest in
      let good : bad ≡ false = refuse-ok bad Refusal.invalid_snapshot u' second in
      let (cs, third, last) =
        >>=-ok (decode_bundles sha256 contents provider [] t.bundles) _ later in
      let both : ◌≡◌ {A = Snapshot × List Contents} (t, cs) (s, bs) = cc in
      let snapshots : t ≡ s = ap (λ x. x.0) both in
      let (pinned, others, apart) = decode_bundles-ArePinned [] t.bundles cs third in
      subst
        (λ (x : Snapshot × List Contents).
          (some t ≡ some x.0)
          × (x.0.schema ≡ 1)
          × (length x.0.bundles ≤ 5)
          × AreApart x.0.bundles
          × ArePinned x.0.bundles x.1)
        both (refl, ground (arith, good), ground (arith, good), apart, pinned)
