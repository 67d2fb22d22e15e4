-- ===== src/Provider/Environment.antt =====
-- The environment of an isolated session: Environment of pkg/adapters/sessionsandbox/session.go.
use Prim.Native.Char.{code}
use Prim.Native.String.{String, [] as nil, ◌∷◌ as cons, ◌++◌ as ◌+++◌}
use openlinker_agent_node.Base.{
  ◌≡◌, refl, Bool, true, false, not, ◌||◌, List, [], ◌∷◌, ◌++◌, Option, none, some, if◌then◌else◌,
  Bool-cases, inl, inr, ◌==◌, str_eq, has_prefix, All, All-append, All-map, ◌⊎◌,
}
use mathlib.Core.List.{Memᴰ}

-- strings.Cut(entry, "=") by the name, if there is an "="
abbrev pub cut_name : String → Option String
cut_name nil = none
cut_name (cons c s) =
    let rest = cut_name s in
    if code c == b'=' then some "" else elim rest [ none ↦ none | some n ↦ some (cons c n) ]

abbrev pub passed_on : Option String → Bool
passed_on none = false
passed_on (some name) =
    str_eq name "PATH"
    || str_eq name "CODEX_API_KEY"
    || str_eq name "ANTHROPIC_API_KEY"
    || str_eq name "ANTHROPIC_BASE_URL"

abbrev pub keep_entries : (String → Bool) → List String → List String
keep_entries p [] = []
keep_entries p (e ∷ rest) = let others = keep_entries p rest in if p e then e ∷ others else others

-- Environment, where `fixed` is the map of the session's own variables in the order of a `range`
abbrev pub set_variables : List (String × String) → List String → List String
set_variables [] entries = entries
set_variables ((key, value) ∷ rest) entries = set_variables rest (
    keep_entries (λ e. not (has_prefix e (key +++ "="))) entries
    ++ ((key +++ ("=" +++ value)) ∷ []))

unfoldable pub environment : List (String × String) → List String → List String
environment fixed values = set_variables fixed (keep_entries (λ e. passed_on (cut_name e)) values)

-- An entry of the host that may reach the client, or a variable of the session.
abbrev pub IsGiven : List (String × String) → String → Type 0
IsGiven fixed e =
    (passed_on (cut_name e) ≡ true)
    ⊎ ((kv : String × String) × Memᴰ kv fixed × (e ≡ kv.0 +++ ("=" +++ kv.1)))

keep_entries-All :
    (P : String → Type 0) (p : String → Bool) (es : List String)
    → All P es
    → All P (keep_entries p es)
keep_entries-All P p [] h = tt
keep_entries-All P p (e ∷ rest) (first, h) =
    let others = keep_entries-All P p rest h in
    elim (Bool-cases (p e)) [ inl stays ↦ rw stays (first, others) | inr goes ↦ rw goes others ]

kept_entries : (p : String → Bool) (es : List String) → All (λ e. p e ≡ true) (keep_entries p es)
kept_entries p [] = tt
kept_entries p (e ∷ rest) =
    let others = kept_entries p rest in
    elim (Bool-cases (p e)) [ inl stays ↦ rw stays (stays, others) | inr goes ↦ rw goes others ]

set_variables-All :
    (P : String → Type 0) (fixed : List (String × String)) (es : List String)
    → ((kv : String × String) → Memᴰ kv fixed → P (kv.0 +++ ("=" +++ kv.1)))
    → All P es
    → All P (set_variables fixed es)
set_variables-All P [] es f h = h
set_variables-All P ((key, value) ∷ rest) es f h =
    let p = λ (e : String). not (has_prefix e (key +++ "=")) in
    set_variables-All P rest (keep_entries p es ++ ((key +++ ("=" +++ value)) ∷ []))
      (λ kv there. f kv (Memᴰ.tail there))
      (All-append P (keep_entries p es) ((key +++ ("=" +++ value)) ∷ []) (keep_entries-All P p es h)
        (f (key, value) (Memᴰ.head refl), tt))

-- The environment of a session has nothing of the host's but the path, the API keys and the API
-- address, and else only the session's own variables.
pub environment-IsGiven :
    (fixed : List (String × String)) (values : List String)
    → All (IsGiven fixed) (environment fixed values)
unfolding environment
environment-IsGiven fixed values =
    set_variables-All (IsGiven fixed) fixed (keep_entries (λ e. passed_on (cut_name e)) values)
      (λ kv there. inr (kv, there, refl))
      (All-map (λ e k. inl k) (keep_entries (λ e. passed_on (cut_name e)) values)
        (kept_entries (λ e. passed_on (cut_name e)) values))
