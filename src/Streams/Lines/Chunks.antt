-- ===== src/Streams/Lines/Chunks.antt =====
-- The observer of JSON lines does not depend on how its input is cut into writes.
use mathlib.Core.List.{append-nil, append_assoc}
use openlinker_agent_node.Base.{
  ℕ, ◌≡◌, refl, sym, ap, ◌∙◌, inl, inr, Bool, true, false, not, arith, all, List, [], ◌∷◌, ◌++◌,
  Option, ◌==◌, Bool-cases,
}
use openlinker_agent_node.Streams.Lines.{
  Cut, onto, cut, observe_line, observe_lines, Observer, drain, write_bytes, write_all,
}
use openlinker_agent_node.Streams.Output.Laws.{joined}

abbrev pub before : List (List ℕ) → Cut → Cut
before ls r = record r { lines = ls ++ r.lines }

onto-before :
    (c : ℕ) (ls : List (List ℕ)) (rest ys : List ℕ)
    → (c == 10) ≡ false
    → onto c (before ls (cut (rest ++ ys))).lines (before ls (cut (rest ++ ys))).rest
      ≡ before (onto c ls rest).lines (cut ((onto c ls rest).rest ++ ys))
unfolding cut
onto-before c [] rest ys h = rw h refl
onto-before c (l ∷ ls) rest ys h = refl

pub cut-append :
    (xs ys : List ℕ) → cut (xs ++ ys) ≡ before (cut xs).lines (cut ((cut xs).rest ++ ys))
unfolding cut
cut-append [] ys = refl
cut-append (c ∷ cs) ys =
    let ih = cut-append cs ys in
    elim (Bool-cases (c == 10)) [
      | inl end ↦ rw end (rw ih refl)
      | inr inner ↦ rw inner (rw ih (onto-before c (cut cs).lines (cut cs).rest ys inner))
    ]

module _ {Event Payload : Type 0} (trim : List ℕ → List ℕ) (decode : List ℕ → Option Event)
    (progress : Event → List Payload) where
  observe_lines-append :
      (ls ms : List (List ℕ))
      → observe_lines trim decode progress (ls ++ ms)
        ≡ observe_lines trim decode progress ls ++ observe_lines trim decode progress ms
  unfolding observe_lines
  observe_lines-append [] ms = refl
  observe_lines-append (l ∷ ls) ms =
      ap (λ (ps : List Payload). observe_line trim decode progress l ++ ps)
        (observe_lines-append ls ms)
      ∙ sym (
          append_assoc (observe_line trim decode progress l) (observe_lines trim decode progress ls)
            (observe_lines trim decode progress ms))

  -- Draining early, before more bytes come, changes nothing.
  drain-drain :
      (pending more : List ℕ) (emitted : List Payload)
      → drain trim decode progress (record {
        pending = (cut pending).rest ++ more;
        emitted = emitted ++ observe_lines trim decode progress (cut pending).lines;
      })
        ≡ drain trim decode progress (record { pending = pending ++ more; emitted = emitted })
  unfolding drain
  drain-drain pending more emitted =
      let e = cut-append pending more in
      rw e (
        ap
          (λ (ps : List Payload). record {
            pending = (cut ((cut pending).rest ++ more)).rest;
            emitted = ps;
          })
          (append_assoc emitted (observe_lines trim decode progress (cut pending).lines)
              (observe_lines trim decode progress (cut ((cut pending).rest ++ more)).lines)
            ∙ ap (λ (ps : List Payload). emitted ++ ps)
                (sym (
                  observe_lines-append (cut pending).lines
                    (cut ((cut pending).rest ++ more)).lines))))

  write_bytes-write_bytes :
      (v w : List ℕ) (o : Observer trim decode progress)
      → write_bytes trim decode progress w (write_bytes trim decode progress v o)
        ≡ write_bytes trim decode progress (v ++ w) o
  unfolding write_bytes drain
  write_bytes-write_bytes [] w o = refl
  write_bytes-write_bytes (c ∷ cs) [] o =
      ap (λ (xs : List ℕ). drain trim decode progress (record o { pending = o.pending ++ c ∷ xs }))
        (sym (append-nil cs))
  write_bytes-write_bytes (c ∷ cs) (d ∷ ds) o =
      drain-drain (o.pending ++ c ∷ cs) (d ∷ ds) o.emitted
      ∙ ap
          (λ (xs : List ℕ).
            drain trim decode progress (record { pending = xs; emitted = o.emitted }))
          (append_assoc o.pending (c ∷ cs) (d ∷ ds))

  -- A run of writes leaves the observer as one write of all the bytes does: the same events are
  -- emitted in the same order, and the same unfinished line is pending.
  pub writes_join :
      (vs : List (List ℕ)) (o : Observer trim decode progress)
      → write_all trim decode progress vs o ≡ write_bytes trim decode progress (joined vs) o
  unfolding write_all write_bytes
  writes_join [] o = refl
  writes_join (v ∷ vs) o =
      writes_join vs (write_bytes trim decode progress v o)
      ∙ write_bytes-write_bytes v (joined vs) o

abbrev unlines : List (List ℕ) → List ℕ
unlines [] = []
unlines (l ∷ ls) = l ++ 10 ∷ unlines ls

abbrev pub without_newline : List ℕ → Bool
without_newline l = all (λ (c : ℕ). not (c == 10)) l

-- The lines and the rest make up the bytes, and no newline is inside them.
pub record IsDecomposition (bytes : List ℕ) (r : Cut) : Type 0 where
  pub whole : unlines r.lines ++ r.rest ≡ bytes
  pub inside : all without_newline r.lines ≡ true
  pub after : without_newline r.rest ≡ true

onto-IsDecomposition :
    (c : ℕ) (cs : List ℕ) (ls : List (List ℕ)) (rest : List ℕ)
    → (c == 10) ≡ false
    → IsDecomposition cs (record { lines = ls; rest = rest })
    → IsDecomposition (c ∷ cs) (onto c ls rest)
onto-IsDecomposition c cs [] rest h d = record {
  whole = ap (λ (xs : List ℕ). c ∷ xs) d.whole;
  inside = refl;
  after = rw h d.after;
}
onto-IsDecomposition c cs (l ∷ ls) rest h d = record {
  whole = ap (λ (xs : List ℕ). c ∷ xs) d.whole;
  inside = rw h d.inside;
  after = d.after;
}

-- Whatever bytes were written, the observed lines with a newline after each and the pending bytes
-- are those bytes in order, with no newline inside a line or pending.
pub cut-IsDecomposition : (bytes : List ℕ) → IsDecomposition bytes (cut bytes)
unfolding cut
cut-IsDecomposition [] = record { whole = refl; inside = refl; after = refl }
cut-IsDecomposition (c ∷ cs) =
    let ih = cut-IsDecomposition cs in
    elim (Bool-cases (c == 10)) [
      | inl end ↦
          let e : c ≡ 10 = ground (arith, end) in
          rw end (record {
            whole = ap (λ (xs : List ℕ). 10 ∷ xs) ih.whole ∙ ap (λ (k : ℕ). k ∷ cs) (sym e);
            inside = ih.inside;
            after = ih.after;
          })
      | inr inner ↦ rw inner (onto-IsDecomposition c cs (cut cs).lines (cut cs).rest inner ih)
    ]
