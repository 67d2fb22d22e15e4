-- ===== src/Streams/Output/Laws.antt =====
-- What the bounded buffers keep of a run of writes.
use Prim.Native.Nat.{min}
use mathlib.Core.List.{append-nil, append_assoc}
use openlinker_agent_node.Base.{
  ℕ, zero, suc, ◌+◌, ◌-◌, ◌≤◌, ◌≡◌, refl, sym, inl, inr, Bool, true, false, ◌||◌, List, [], ◌∷◌,
  ◌++◌, arith, leb, ltb, length, take, drop, length-append, length-drop, length-take, Bool-cases,
  ◌∙◌, ap, if◌then◌else◌, subst,
}
use openlinker_agent_node.Streams.Output.{
  tail_write, tail_all, LimitedBuffer, limited_write, limited_all, empty_buffer,
}

abbrev pub joined : List (List ℕ) → List ℕ
joined [] = []
joined (v ∷ vs) = v ++ joined vs

-- the last `n` of a list
abbrev pub last : ℕ → List ℕ → List ℕ
last n xs = drop (length xs - n) xs

drop-append-le : (n : ℕ) (xs ys : List ℕ) → n ≤ length xs → drop n (xs ++ ys) ≡ drop n xs ++ ys
drop-append-le zero xs ys h = refl
drop-append-le (suc n) [] ys h = absurd (omega arith)
drop-append-le (suc n) (x ∷ xs) ys h = drop-append-le n xs ys (omega arith)

drop-append-ge :
    (n : ℕ) (xs ys : List ℕ) → length xs ≤ n → drop n (xs ++ ys) ≡ drop (n - length xs) ys
drop-append-ge n [] ys h = ap (λ (k : ℕ). drop k ys) (omega arith)
drop-append-ge zero (x ∷ xs) ys h = absurd (omega arith)
drop-append-ge (suc n) (x ∷ xs) ys h =
    drop-append-ge n xs ys (omega arith) ∙ ap (λ (k : ℕ). drop k ys) (omega arith)

zero-of_not-pos : (n : ℕ) → ltb 0 n ≡ false → zero ≡ n
zero-of_not-pos n h = ground arith

drop-nil : (n : ℕ) → drop {A = ℕ} n [] ≡ []
drop-nil zero = refl
drop-nil (suc n) = refl

drop-drop : (m n : ℕ) (xs : List ℕ) → drop m (drop n xs) ≡ drop (m + n) xs
drop-drop m zero xs = let e : m ≡ m + 0 = omega arith in ap (λ (k : ℕ). drop k xs) e
drop-drop zero (suc n) xs = let e : suc n ≡ 0 + suc n = omega arith in ap (λ (k : ℕ). drop k xs) e
drop-drop (suc m) (suc n) [] = sym (drop-nil (suc m + suc n))
drop-drop (suc m) (suc n) (x ∷ xs) =
    let e : suc (suc m + n) ≡ suc m + suc n = omega arith in
    drop-drop (suc m) n xs ∙ ap (λ (k : ℕ). drop k (x ∷ xs)) e

-- The last `n` of a concatenation, by what the second part holds.
last-append-long :
    (n : ℕ) (xs ys : List ℕ) → n ≤ length ys → last n (xs ++ ys) ≡ drop (length ys - n) ys
last-append-long n xs ys h =
    drop-append-ge (length (xs ++ ys) - n) xs ys (omega (arith, length-append xs ys))
    ∙ ap (λ (k : ℕ). drop k ys) (omega (arith, length-append xs ys))

last-append-short :
    (n : ℕ) (xs ys : List ℕ)
    → length ys ≤ n
    → last n (xs ++ ys) ≡ drop (length xs + length ys - n) xs ++ ys
last-append-short n xs ys h =
    ap (λ (k : ℕ). drop k (xs ++ ys)) (omega (arith, length-append xs ys))
    ∙ drop-append-le (length xs + length ys - n) xs ys (omega arith)

-- Dropping from the front twice is dropping once.
last-append-last : (n : ℕ) (xs ys : List ℕ) → last n (last n xs ++ ys) ≡ last n (xs ++ ys)
last-append-last n xs ys = elim (Bool-cases (leb n (length ys))) [
  | inl long ↦
      last-append-long n (last n xs) ys (ground (arith, long))
      ∙ sym (last-append-long n xs ys (ground (arith, long)))
  | inr short ↦
      let small : length ys ≤ n = ground (arith, short) in
      last-append-short n (last n xs) ys small
      ∙ ap (λ (zs : List ℕ). zs ++ ys)
          (drop-drop (length (last n xs) + length ys - n) (length xs - n) xs
            ∙ ap (λ (k : ℕ). drop k xs) (omega (arith, length-drop (length xs - n) xs)))
      ∙ sym (last-append-short n xs ys small)
]

length-last-le : (n : ℕ) (xs : List ℕ) → length (last n xs) ≤ n
length-last-le n xs = omega (arith, length-drop (length xs - n) xs)

trimmed :
    (limit : ℕ) (kept value : List ℕ)
    → (if ltb 0 (length kept + length value - limit)
        then drop (length kept + length value - limit) kept ++ value
        else kept ++ value)
      ≡ drop (length kept + length value - limit) kept ++ value
trimmed limit kept value = elim (Bool-cases (ltb 0 (length kept + length value - limit))) [
  | inl some ↦ rw some
  | inr nothing ↦ rw nothing (
      ap (λ (k : ℕ). drop k kept ++ value)
        (zero-of_not-pos (length kept + length value - limit) nothing))
]

tail_write-last :
    (limit : ℕ) (kept value : List ℕ)
    → length kept ≤ limit
    → tail_write limit kept value ≡ last limit (kept ++ value)
unfolding tail_write
tail_write-last limit kept value h = elim (Bool-cases (leb limit (length value))) [
  | inl long ↦ rw long (sym (last-append-long limit kept value (ground (arith, long))))
  | inr short ↦
      rw short (
        trimmed limit kept value ∙ sym (last-append-short limit kept value (ground (arith, short))))
]

tail_all-last :
    (limit : ℕ) (kept : List ℕ) (vs : List (List ℕ))
    → length kept ≤ limit
    → tail_all limit kept vs ≡ last limit (kept ++ joined vs)
unfolding tail_all
tail_all-last limit kept [] h =
    let e : length kept - limit ≡ 0 = omega arith in
    sym (ap (last limit) (append-nil kept) ∙ ap (λ (k : ℕ). drop k kept) e)
tail_all-last limit kept (v ∷ vs) h =
    let e = tail_write-last limit kept v h in
    rw e (
      tail_all-last limit (last limit (kept ++ v)) vs (length-last-le limit (kept ++ v))
      ∙ last-append-last limit (kept ++ v) (joined vs)
      ∙ ap (last limit) (append_assoc kept v (joined vs)))

-- Whatever a process writes to its diagnostics, and in whatever pieces, the tail holds exactly
-- the last bytes of all of it, as many as the limit allows.
pub tail_keeps_last :
    (limit : ℕ) (vs : List (List ℕ)) → tail_all limit [] vs ≡ last limit (joined vs)
tail_keeps_last limit vs = tail_all-last limit [] vs (omega arith)

take-append : (n : ℕ) (xs ys : List ℕ) → take n (xs ++ ys) ≡ take n xs ++ take (n - length xs) ys
take-append zero [] ys = refl
take-append zero (x ∷ xs) ys =
    let e : 0 ≡ 0 - length (x ∷ xs) = omega arith in ap (λ (k : ℕ). take k ys) e
take-append (suc n) [] ys = let e : suc n ≡ suc n - 0 = omega arith in ap (λ (k : ℕ). take k ys) e
take-append (suc n) (x ∷ xs) ys =
    let e : n - length xs ≡ suc n - suc (length xs) = omega arith in
    ap (λ (zs : List ℕ). x ∷ zs) (take-append n xs ys ∙ ap (λ (k : ℕ). take n xs ++ take k ys) e)

take-all : (n : ℕ) (xs : List ℕ) → length xs ≤ n → take n xs ≡ xs
take-all zero [] h = refl
take-all zero (x ∷ xs) h = absurd (omega arith)
take-all (suc n) [] h = refl
take-all (suc n) (x ∷ xs) h = ap (λ (zs : List ℕ). x ∷ zs) (take-all n xs (omega arith))

take-nil : (n : ℕ) → take {A = ℕ} n [] ≡ []
take-nil zero = refl
take-nil (suc n) = refl

-- `acc` was written: the buffer holds its beginning, and knows whether it is all.
record IsPrefixOf (limit : ℕ) (acc : List ℕ) (b : LimitedBuffer) : Type 0 where
  kept : b.buf ≡ take limit acc
  flag : b.exceeded ≡ ltb limit (length acc)
  stop : b.canceled ≡ b.exceeded

-- What a write keeps of its bytes.
fitted :
    (room : ℕ) (kept v : List ℕ)
    → (if ltb 0 room
        then (if leb (length v) room then kept ++ v else kept ++ take room v)
        else kept)
      ≡ kept ++ take room v
fitted zero kept v = sym (append-nil kept)
fitted (suc room) kept v =
    let some : ltb 0 (suc room) ≡ true = ground arith in
    elim (Bool-cases (leb (length v) (suc room))) [
      | inl fits ↦
          let e = take-all (suc room) v (ground (arith, fits)) in
          rw some (rw fits (ap (λ (zs : List ℕ). kept ++ zs) (sym e)))
      | inr over ↦ rw some (rw over refl)
    ]

limited_write-buf :
    (limit : ℕ) (v : List ℕ) (b : LimitedBuffer)
    → (limited_write limit v b).0.buf ≡ b.buf ++ take (limit - length b.buf) v
unfolding limited_write
limited_write-buf limit v b = elim (Bool-cases (ltb (limit - length b.buf) (length v))) [
  | inl over ↦ rw over (fitted (limit - length b.buf) b.buf v)
  | inr fits ↦ rw fits (fitted (limit - length b.buf) b.buf v)
]

limited_write-exceeded :
    (limit : ℕ) (v : List ℕ) (b : LimitedBuffer)
    → (limited_write limit v b).0.exceeded ≡ (ltb (limit - length b.buf) (length v) || b.exceeded)
unfolding limited_write
limited_write-exceeded limit v b = elim (Bool-cases (ltb (limit - length b.buf) (length v))) [
  | inl over ↦ rw over refl
  | inr fits ↦ rw fits refl
]

limited_write-canceled :
    (limit : ℕ) (v : List ℕ) (b : LimitedBuffer)
    → b.canceled ≡ b.exceeded
    → (limited_write limit v b).0.canceled ≡ (limited_write limit v b).0.exceeded
unfolding limited_write
limited_write-canceled limit v b h = elim (Bool-cases (ltb (limit - length b.buf) (length v))) [
  | inl over ↦ rw over refl
  | inr fits ↦ rw fits h
]

too-long :
    (limit a v k t : ℕ)
    → k ≡ min limit a
    → t ≡ a + v
    → (ltb (limit - k) v || ltb limit a) ≡ ltb limit t
too-long limit a v k t hk ht = ground arith

limited_write-IsPrefixOf :
    (limit : ℕ) (acc v : List ℕ) (b : LimitedBuffer)
    → IsPrefixOf limit acc b
    → IsPrefixOf limit (acc ++ v) (limited_write limit v b).0
limited_write-IsPrefixOf limit acc v b h =
    let e : b.buf ≡ take limit acc = h.kept in
    let l : length b.buf ≡ min limit (length acc) = ap length e ∙ length-take limit acc in
    let room : limit - length b.buf ≡ limit - length acc = omega (arith, l) in
    let flag = h.flag in
    record {
      kept = limited_write-buf limit v b ∙ cc (e, room) ∙ sym (take-append limit acc v);
      flag =
          limited_write-exceeded limit v b
          ∙ ap (λ (x : Bool). ltb (limit - length b.buf) (length v) || x) flag
          ∙ too-long limit (length acc) (length v) (length b.buf) (length (acc ++ v)) l
              (length-append acc v);
      stop = limited_write-canceled limit v b h.stop;
    }

limited_all-IsPrefixOf :
    (limit : ℕ) (acc : List ℕ) (vs : List (List ℕ)) (b : LimitedBuffer)
    → IsPrefixOf limit acc b
    → IsPrefixOf limit (acc ++ joined vs) (limited_all limit b vs)
unfolding limited_all
limited_all-IsPrefixOf limit acc [] b h =
    subst (λ (xs : List ℕ). IsPrefixOf limit xs b) (sym (append-nil acc)) h
limited_all-IsPrefixOf limit acc (v ∷ vs) b h =
    subst (λ (xs : List ℕ). IsPrefixOf limit xs (limited_all limit (limited_write limit v b).0 vs))
      (append_assoc acc v (joined vs))
      (limited_all-IsPrefixOf limit (acc ++ v) vs (limited_write limit v b).0
        (limited_write-IsPrefixOf limit acc v b h))

-- A result stream written in whatever pieces is kept as its first bytes, as many as the limit
-- allows; the buffer is marked exceeded, and its process canceled, exactly where more was written.
pub limited_keeps_first :
    (limit : ℕ) (vs : List (List ℕ))
    → let b = limited_all limit empty_buffer vs in
      (b.buf ≡ take limit (joined vs))
      × (b.exceeded ≡ ltb limit (length (joined vs)))
      × (b.canceled ≡ ltb limit (length (joined vs)))
limited_keeps_first limit vs =
    let none : false ≡ ltb limit 0 = ground arith in
    let start : IsPrefixOf limit [] empty_buffer = record {
      kept = sym (take-nil limit);
      flag = none;
      stop = refl;
    } in
    let r = limited_all-IsPrefixOf limit [] vs empty_buffer start in
    (r.kept, r.flag, r.stop ∙ r.flag)
