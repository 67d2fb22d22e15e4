-- ===== src/Streams/ClaudeTools/Counts.antt =====
-- Counting what Claude's observer reports and keeps open.
use openlinker_agent_node.Base.{
  ℕ, suc, ◌+◌, String, ◌≡◌, refl, sym, ap, ◌∙◌, inl, inr, Bool, true, false, List, [], ◌∷◌, ◌++◌,
  Option, none, some, arith, if◌then◌else◌, str_eq, eq_iff, Bool-cases, some_inj,
}
use openlinker_agent_node.Base.Assoc.{lookup, put, delete, lookup-put, lookup-delete}
use openlinker_agent_node.Streams.ClaudeTools.{
  Kind, suppressed, ClaudePayload, tool_started, tool_completed, tool_failed, processing, retrying,
  Active,
}

abbrev pub weight : Kind → ℕ
weight suppressed = 0
weight _ = 1

abbrev pub starts : List ClaudePayload → ℕ
starts [] = 0
starts (tool_started k ∷ ps) = suc (starts ps)
starts (_ ∷ ps) = starts ps

abbrev pub ends : List ClaudePayload → ℕ
ends [] = 0
ends (tool_completed k ∷ ps) = suc (ends ps)
ends (tool_failed k ∷ ps) = suc (ends ps)
ends (_ ∷ ps) = ends ps

-- the tools that are open and not suppressed
abbrev pub visible : Active → ℕ
visible [] = 0
visible ((id, k) ∷ rest) = weight k + visible rest

abbrev pub IsDistinct : Active → Type 0
IsDistinct [] = Unit
IsDistinct ((id, k) ∷ rest) = (lookup id rest ≡ none) × IsDistinct rest

pub starts-append : (ps qs : List ClaudePayload) → starts (ps ++ qs) ≡ starts ps + starts qs
starts-append [] qs = omega arith
starts-append (tool_started k ∷ ps) qs = omega (arith, starts-append ps qs)
starts-append (tool_completed k ∷ ps) qs = starts-append ps qs
starts-append (tool_failed k ∷ ps) qs = starts-append ps qs
starts-append (processing ∷ ps) qs = starts-append ps qs
starts-append (retrying ∷ ps) qs = starts-append ps qs

pub ends-append : (ps qs : List ClaudePayload) → ends (ps ++ qs) ≡ ends ps + ends qs
ends-append [] qs = omega arith
ends-append (tool_started k ∷ ps) qs = ends-append ps qs
ends-append (tool_completed k ∷ ps) qs = omega (arith, ends-append ps qs)
ends-append (tool_failed k ∷ ps) qs = omega (arith, ends-append ps qs)
ends-append (processing ∷ ps) qs = ends-append ps qs
ends-append (retrying ∷ ps) qs = ends-append ps qs

pub visible-put :
    (id : String) (k : Kind) (m : Active)
    → lookup id m ≡ none
    → visible (put id k m) ≡ weight k + visible m
unfolding lookup put
visible-put id k [] h = omega arith
visible-put id k ((i, x) ∷ m) h = ground (arith, visible-put id k m)

pub visible-delete_absent :
    (id : String) (m : Active) → lookup id m ≡ none → visible (delete id m) ≡ visible m
unfolding lookup delete
visible-delete_absent id [] h = refl
visible-delete_absent id ((i, x) ∷ m) h = ground (arith, visible-delete_absent id m)

pub visible-delete :
    (id : String) (k : Kind) (m : Active)
    → IsDistinct m
    → lookup id m ≡ some k
    → weight k + visible (delete id m) ≡ visible m
unfolding lookup delete
visible-delete id k [] d h = absurd cc
visible-delete id k ((i, x) ∷ m) (fresh, d) h = elim (Bool-cases (str_eq i id)) [
  | inl same ↦
      let e : i ≡ id = (eq_iff i id).0 same in
      let absent : lookup id m ≡ none = cc in
      let kept = visible-delete_absent id m absent in
      let kind : x ≡ k =
        some_inj (ap (λ (b : Bool). if b then some x else lookup id m) (sym same) ∙ h) in
      rw same (omega (arith, kept, ap weight kind))
  | inr differ ↦
      let there : lookup id m ≡ some k =
        ap (λ (b : Bool). if b then some x else lookup id m) (sym differ) ∙ h in
      rw differ (omega (arith, visible-delete id k m d there))
]

pub none-either : (b : Bool) (o : Option Kind) → o ≡ none → (if b then none else o) ≡ none
none-either true o h = refl
none-either false o h = h

pub put-IsDistinct :
    (id : String) (k : Kind) (m : Active)
    → lookup id m ≡ none
    → IsDistinct m
    → IsDistinct (put id k m)
unfolding lookup put
put-IsDistinct id k [] h d = (refl, tt)
put-IsDistinct id k ((i, x) ∷ m) h (fresh, d) = elim (Bool-cases (str_eq i id)) [
  | inl same ↦ rw same (fresh, d)
  | inr differ ↦
      let absent : lookup id m ≡ none =
        ap (λ (b : Bool). if b then some x else lookup id m) (sym differ) ∙ h in
      let other : str_eq id i ≡ false = ground (arith, eq_iff i id, eq_iff id i) in
      rw differ (
        lookup-put id i k m ∙ ap (λ (b : Bool). if b then some k else lookup i m) other ∙ fresh,
        put-IsDistinct id k m absent d,
      )
]

pub delete-IsDistinct : (id : String) (m : Active) → IsDistinct m → IsDistinct (delete id m)
unfolding lookup delete
delete-IsDistinct id [] d = tt
delete-IsDistinct id ((i, x) ∷ m) (fresh, d) = elim (Bool-cases (str_eq i id)) [
  | inl same ↦ rw same (delete-IsDistinct id m d)
  | inr differ ↦ rw differ (
    lookup-delete id i m ∙ none-either (str_eq id i) (lookup i m) fresh,
    delete-IsDistinct id m d,
  )
]
