-- ===== src/Skills/Decode/Confined.antt =====
-- The paths of files that pkg/adapters/skillpackages accepts stay below the package.
use Prim.Native.Char.{Char, code}
use Prim.Native.String.{String, [] as nil, ◌∷◌ as cons}
use openlinker_agent_node.Base.{
  ◌≡◌, ◌≢◌, refl, ap, inl, inr, true, false, List, [], ◌∷◌, ◌==◌, Bool-cases, arith, All, All-map,
  has_prefix, codes,
}
use openlinker_agent_node.Skills.Paths.{split, with_first}
use openlinker_agent_node.Skills.Decode.{hidden_segment, bad_file}

abbrev IsPlain : String → Type 0
IsPlain s = has_prefix s "." ≡ false

abbrev IsPlainTail : List String → Type 0
IsPlainTail [] = Unit
IsPlainTail (s ∷ rest) = All IsPlain rest

with_first-tail : (c : Char) (ss : List String) → IsPlainTail ss → IsPlainTail (with_first c ss)
with_first-tail c [] h = tt
with_first-tail c (s ∷ rest) h = h

with_first-untail : (c : Char) (ss : List String) → IsPlainTail (with_first c ss) → IsPlainTail ss
with_first-untail c [] h = tt
with_first-untail c (s ∷ rest) h = h

with_first-all :
    (c : Char) (ss : List String)
    → (code c == b'.') ≡ false
    → IsPlainTail ss
    → All IsPlain (with_first c ss)
with_first-all c [] d h = (ground (arith, d), tt)
with_first-all c (s ∷ rest) d h = (ground (arith, d), h)

split-All : (s : String) → has_prefix s "." ≡ false → IsPlainTail (split s) → All IsPlain (split s)
split-All nil d h = (refl, tt)
split-All (cons c s) d h = elim (Bool-cases (code c == b'/')) [
  | inl slash ↦ rw slash (refl, rw slash at h)
  | inr plain ↦
      let first : (code c == b'.') ≡ false = ground (arith, d) in
      rw plain (with_first-all c (split s) first (with_first-untail c (split s) (rw plain at h)))
]

shown-after :
    (c : Char) (s : String)
    → hidden_segment (codes (cons c s)) ≡ false
    → hidden_segment (codes s) ≡ false
shown-after c nil h = refl
shown-after c (cons d s) h = ground (arith, h)

plain-after :
    (c : Char) (s : String)
    → (code c == b'/') ≡ true
    → hidden_segment (codes (cons c s)) ≡ false
    → has_prefix s "." ≡ false
plain-after c nil slash h = refl
plain-after c (cons d s) slash h = ground (arith, slash, h)

split-tail : (s : String) → hidden_segment (codes s) ≡ false → IsPlainTail (split s)
split-tail nil h = tt
split-tail (cons c s) h =
    let rest = split-tail s (shown-after c s h) in
    elim (Bool-cases (code c == b'/')) [
      | inl slash ↦ rw slash (split-All s (plain-after c s slash h) rest)
      | inr plain ↦ rw plain (with_first-tail c (split s) rest)
    ]

-- A path whose segments are no way out of the directory, nor hidden files.
abbrev pub IsConfined : String → Type 0
IsConfined p = All (λ s. (s ≢ ".") × (s ≢ "..") × (has_prefix s "." ≡ false)) (split p)

pub bad_file-IsConfined :
    (name content : String) → bad_file (name, content) ≡ false → IsConfined name
unfolding bad_file
bad_file-IsConfined name content h =
    let first : has_prefix name "." ≡ false = ground (arith, h) in
    let shown : hidden_segment (codes name) ≡ false = ground (arith, h) in
    All-map
      (λ s plain. (
        (λ e. let p = ap (λ t. has_prefix t ".") e in absurd cc),
        (λ e. let p = ap (λ t. has_prefix t ".") e in absurd cc),
        plain,
      ))
      (split name) (split-All name first (split-tail name shown))
