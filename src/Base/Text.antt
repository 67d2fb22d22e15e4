-- ===== src/Base/Text.antt =====
-- What the program uses of Go's `strings` and `unicode` packages, over code points.
use Prim.Native.Nat.{ℕ, ◌+◌, ◌-◌}
use Prim.Native.Char.{code}
use Prim.Native.String.{String, [], ◌∷◌}
use mathlib.Core.Bool.{Bool, true, false, ◌&&◌, ◌||◌}
use mathlib.Core.List
use mathlib.Core.List.{List}
use text.Mathlib.Text.{◌==◌ as str_eq}
use openlinker_agent_node.Base.Tests.{leb, ◌==◌, if◌then◌else◌}
use openlinker_agent_node.Base.Lists.{length, drop}

-- The code points of a text: its bytes, if it is ASCII.
abbrev pub codes : String → List ℕ
codes [] = List.[]
codes (c ∷ s) = List.◌∷◌ (code c) (codes s)

-- `unicode.IsSpace`, the property White_Space.
pub is_space : ℕ → Bool
is_space c =
    (leb 9 c && leb c 13)
    || c == 32
    || c == 0x85
    || c == 0xa0
    || c == 0x1680
    || (leb 0x2000 c && leb c 0x200a)
    || c == 0x2028
    || c == 0x2029
    || c == 0x202f
    || c == 0x205f
    || c == 0x3000

trim_left : (ℕ → Bool) → String → String
trim_left p [] = ""
trim_left p (c ∷ s) = let rest = trim_left p s in if p (code c) then rest else c ∷ s

trim_right : (ℕ → Bool) → String → String
trim_right p [] = ""
trim_right p (c ∷ s) =
    let rest = trim_right p s in if p (code c) && str_eq rest "" then "" else c ∷ rest

-- `strings.TrimSpace`
unfoldable pub trim_space : String → String
unfolding trim_left trim_right is_space
trim_space s = trim_left is_space (trim_right is_space s)

-- `strings.Trim(s, "[]")`
unfoldable pub trim_brackets : String → String
unfolding trim_left trim_right
trim_brackets s =
    let bracket = λ (c : ℕ). c == b'[' || c == b']' in trim_left bracket (trim_right bracket s)

-- `unicode.ToLower`, exact wherever its result is ASCII: U+0130 and U+212A are the only other
-- code points that it takes to an ASCII letter.
unfoldable pub to_lower_code : ℕ → ℕ
to_lower_code c =
    if leb b'A' c && leb c b'Z'
    then c + 32
    else if c == 0x130
    then b'i'
    else if c == 0x212a
    then b'k'
    else c

abbrev pub codes_eq : List ℕ → List ℕ → Bool
codes_eq List.[] List.[] = true
codes_eq (List.◌∷◌ a s) (List.◌∷◌ b t) = a == b && codes_eq s t
codes_eq _ _ = false

-- `strings.ToLower(s) == word`, for an ASCII word
unfoldable pub lower_is : String → String → Bool
unfolding to_lower_code
lower_is s word = codes_eq (List.map to_lower_code (codes s)) (codes word)

-- The representative under `strings.EqualFold` of what folds to an ASCII letter: U+017F is a
-- long s, U+212A the Kelvin sign.
abbrev pub fold_code : ℕ → ℕ
fold_code c =
    if leb b'A' c && leb c b'Z'
    then c + 32
    else if c == 0x17f
    then b's'
    else if c == 0x212a
    then b'k'
    else c

-- `strings.EqualFold(s, word)`, for an ASCII word in lower case
unfoldable pub equal_fold : String → String → Bool
equal_fold s word = codes_eq (List.map fold_code (codes s)) (codes word)

-- `strings.HasPrefix` on code points, which agrees with Go's on bytes for valid UTF-8
abbrev pub codes_prefix : List ℕ → List ℕ → Bool
codes_prefix List.[] t = true
codes_prefix (List.◌∷◌ a s) List.[] = false
codes_prefix (List.◌∷◌ a s) (List.◌∷◌ b t) = a == b && codes_prefix s t

abbrev pub has_prefix : String → String → Bool
has_prefix s prefix = codes_prefix (codes prefix) (codes s)

-- `strings.HasSuffix`, likewise
abbrev pub ends_with : List ℕ → List ℕ → Bool
ends_with suffix xs =
    leb (length suffix) (length xs) && codes_eq (drop (length xs - length suffix) xs) suffix

abbrev pub has_suffix : String → String → Bool
has_suffix s suffix = ends_with (codes suffix) (codes s)
