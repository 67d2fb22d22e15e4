-- ===== src/Streams/ClaudeResult/Pending.antt =====
-- The pending line of the result stream.
use mathlib.Core.List.{append-nil, append_assoc}
use openlinker_agent_node.Base.{
  ℕ, ◌+◌, ◌≤◌, ◌≡◌, refl, sym, ap, ◌∙◌, inl, inr, Bool, true, false, List, [], ◌∷◌, ◌++◌, Option,
  Bool-cases, ltb, length, length-append, is_some, arith, ◌==◌,
}
use openlinker_agent_node.Streams.Output.{max_bytes}
use openlinker_agent_node.Streams.Lines.{Cut, onto, cut}
use openlinker_agent_node.Streams.Lines.Chunks.{without_newline}
use openlinker_agent_node.Streams.ClaudeResult.{ResultStream, append_chunk, keep_rest}

-- The bytes before a text that has no newline go to its first line.
abbrev pub prepend_lines : List ℕ → List (List ℕ) → List ℕ → Cut
prepend_lines r [] rest = record { lines = []; rest = r ++ rest }
prepend_lines r (l ∷ ls) rest = record { lines = (r ++ l) ∷ ls; rest = rest }

abbrev pub prepend : List ℕ → Cut → Cut
prepend r c = prepend_lines r c.lines c.rest

pub prepend_lines-nil :
    (ls : List (List ℕ)) (rest : List ℕ)
    → prepend_lines [] ls rest ≡ record { lines = ls; rest = rest }
prepend_lines-nil [] rest = refl
prepend_lines-nil (l ∷ ls) rest = refl

pub onto-prepend_lines :
    (x : ℕ) (r : List ℕ) (ls : List (List ℕ)) (rest : List ℕ)
    → let c = prepend_lines r ls rest in onto x c.lines c.rest ≡ prepend_lines (x ∷ r) ls rest
onto-prepend_lines x r [] rest = refl
onto-prepend_lines x r (l ∷ ls) rest = refl

pub cut-prepend : (r b : List ℕ) → without_newline r ≡ true → cut (r ++ b) ≡ prepend r (cut b)
unfolding cut
cut-prepend [] b h = sym (prepend_lines-nil (cut b).lines (cut b).rest)
cut-prepend (x ∷ r) b h =
    let inner : (x == 10) ≡ false = ground (arith, h) in
    let rest : without_newline r ≡ true = ground (arith, h) in
    rw inner (
      ap (λ (c : Cut). onto x c.lines c.rest) (cut-prepend r b rest)
      ∙ onto-prepend_lines x r (cut b).lines (cut b).rest)

module _ {Event : Type 0} where
  pub append_chunk-append :
      (r b : List ℕ) (s : ResultStream Event)
      → append_chunk (r ++ b) s ≡ append_chunk b (append_chunk r s)
  unfolding append_chunk
  append_chunk-append r b s = elim (Bool-cases (is_some s.error)) [
    | inl failed ↦ rw failed (rw failed refl)
    | inr fine ↦ elim (Bool-cases (ltb max_bytes (length s.pending + length r))) [
      | inl long ↦
          let longer : ltb max_bytes (length s.pending + length (r ++ b)) ≡ true =
            ground (arith, long, length-append r b) in
          rw fine (rw long (rw longer refl))
      | inr fits ↦
          let both : length (s.pending ++ r) + length b ≡ length s.pending + length (r ++ b) =
            omega (arith, length-append s.pending r, length-append r b) in
          elim (Bool-cases (ltb max_bytes (length s.pending + length (r ++ b)))) [
            | inl long ↦
                let longer : ltb max_bytes (length (s.pending ++ r) + length b) ≡ true =
                  ap (ltb max_bytes) both ∙ long in
                rw fine (rw fits (rw fine (rw long (rw longer refl))))
            | inr short ↦
                let shorter : ltb max_bytes (length (s.pending ++ r) + length b) ≡ false =
                  ap (ltb max_bytes) both ∙ short in
                rw fine (
                  rw fits (
                    rw fine (
                      rw short (
                        rw shorter (
                          ap (λ (q : List ℕ). record s { pending = q })
                            (sym (append_assoc s.pending r b)))))))
          ]
    ]
  ]

  unfoldable pub IsWithin : ResultStream Event → Type 0
  IsWithin s = length s.pending ≤ max_bytes

  pub append_chunk-IsWithin :
      (r : List ℕ) (s : ResultStream Event) → IsWithin s → IsWithin (append_chunk r s)
  unfolding append_chunk IsWithin
  append_chunk-IsWithin r s h = elim (Bool-cases (is_some s.error)) [
    | inl failed ↦ rw failed h
    | inr fine ↦ rw fine (elim (Bool-cases (ltb max_bytes (length s.pending + length r))) [
      | inl long ↦ rw long (omega arith)
      | inr fits ↦ let l = length-append s.pending r in rw fits (ground (arith, fits, l))
    ])
  ]

  pub append_chunk-nil : (s : ResultStream Event) → IsWithin s → append_chunk [] s ≡ s
  unfolding append_chunk IsWithin
  append_chunk-nil s h =
      let fits : ltb max_bytes (length s.pending + 0) ≡ false = ground (arith, h) in
      elim (Bool-cases (is_some s.error)) [
        | inl failed ↦ rw failed refl
        | inr fine ↦
            rw fine (rw fits (ap (λ (q : List ℕ). record s { pending = q }) (append-nil s.pending)))
      ]

  pub keep_rest-lem :
      (trim : List ℕ → List ℕ) (decode : List ℕ → Option Event) (is_result : Event → Bool)
      → (r : List ℕ) → (s : ResultStream Event) → IsWithin s
      → keep_rest trim decode is_result r s ≡ append_chunk r s
  keep_rest-lem trim decode is_result [] s h = sym (append_chunk-nil s h)
  keep_rest-lem trim decode is_result (c ∷ cs) s h = refl
