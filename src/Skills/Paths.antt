-- ===== src/Skills/Paths.antt =====
-- What pkg/adapters/skillpackages uses of Go's `path` and `filepath` packages, on slash-separated
-- relative paths.
use Prim.Native.Char.{Char, code}
use Prim.Native.String.{String, [], ◌∷◌, ◌++◌}
use mathlib.Core.Bool.{◌||◌}
use mathlib.Core.List.{List}
use openlinker_agent_node.Base.{◌==◌, if◌then◌else◌, str_eq}

abbrev pub with_first : Char → List String → List String
with_first c List.[] = List.◌∷◌ (c ∷ []) List.[]
with_first c (List.◌∷◌ s rest) = List.◌∷◌ (c ∷ s) rest

-- strings.Split(p, "/")
abbrev pub split : String → List String
split [] = List.◌∷◌ "" List.[]
split (c ∷ s) = let rest = split s in if code c == b'/' then List.◌∷◌ "" rest else with_first c rest

-- strings.Join(segments, "/")
abbrev pub join_all : List String → String
join_all List.[] = ""
join_all (List.◌∷◌ s List.[]) = s
join_all (List.◌∷◌ s (List.◌∷◌ t rest)) = s ++ ("/" ++ join_all (List.◌∷◌ t rest))

-- filepath.Join(a, b), of clean paths
unfoldable pub join : String → String → String
join a b = if str_eq a "" then b else if str_eq b "" then a else a ++ ("/" ++ b)

abbrev without_last : List String → List String
without_last List.[] = List.[]
without_last (List.◌∷◌ s List.[]) = List.[]
without_last (List.◌∷◌ s (List.◌∷◌ t rest)) = List.◌∷◌ s (without_last (List.◌∷◌ t rest))

-- filepath.Dir(p), of a clean path; "" where that is "."
unfoldable pub parent : String → String
parent p = join_all (without_last (split p))

abbrev pop_segment : List String → List String
pop_segment List.[] = List.◌∷◌ ".." List.[]
pop_segment (List.◌∷◌ s out) = if str_eq s ".." then List.◌∷◌ ".." (List.◌∷◌ s out) else out

-- The segments that are left, the last one first.
abbrev clean_segments : List String → List String → List String
clean_segments out List.[] = out
clean_segments out (List.◌∷◌ s rest) =
    clean_segments
      (if str_eq s "" || str_eq s "."
        then out
        else if str_eq s ".."
        then pop_segment out
        else List.◌∷◌ s out)
      rest

abbrev reverse_onto : List String → List String → List String
reverse_onto out List.[] = out
reverse_onto out (List.◌∷◌ s rest) = reverse_onto (List.◌∷◌ s out) rest

-- path.Clean, of a path that is not absolute
unfoldable pub clean : String → String
clean p =
    let text = join_all (reverse_onto List.[] (clean_segments List.[] (split p))) in
    if str_eq text "" then "." else text
