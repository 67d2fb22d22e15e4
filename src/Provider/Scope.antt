-- ===== src/Provider/Scope.antt =====
-- The name of a session's private storage: Scope of pkg/adapters/sessionsandbox/session.go. A text
-- is the list of its code points, which UTF-8 turns into bytes; SHA-256 is outside.
use openlinker_agent_node.Base.{
  ◌≢◌, ◌⊎◌, ◌==◌, ℕ, zero, suc, ◌+◌, ◌-◌, ◌*◌, ◌/◌, ◌%◌, ◌≤◌, ◌<◌, ◌≡◌, refl, sym, ap, ◌∙◌, List,
  [], ◌∷◌, ◌++◌, ltb, if◌then◌else◌, Bool-cases, inl, inr, arith, All, All-append, codes,
}

-- %d, on enough fuel
abbrev pub digits : ℕ → ℕ → List ℕ
digits zero n = []
digits (suc fuel) n =
    let before = digits fuel (n / 10) in
    if ltb n 10 then (48 + n) ∷ [] else before ++ ((48 + n % 10) ∷ [])

unfoldable pub decimal : ℕ → List ℕ
decimal n = digits (suc n) n

-- the bytes of a code point in UTF-8
abbrev width : ℕ → ℕ
width c = if ltb c 128 then 1 else if ltb c 2048 then 2 else if ltb c 65536 then 3 else 4

-- the len of a text in Go
unfoldable pub byte_size : List ℕ → ℕ
byte_size [] = 0
byte_size (c ∷ cs) = width c + byte_size cs

-- fmt.Fprintf(h, "/%d:%s", len(p), p), for each part
unfoldable pub framed : List (List ℕ) → List ℕ
unfolding byte_size
framed [] = []
framed (p ∷ ps) = b'/' ∷ (decimal (byte_size p) ++ (b':' ∷ (p ++ framed ps)))

-- what Scope hashes
unfoldable pub scope_text : List (List ℕ) → List ℕ
unfolding framed
scope_text parts = codes "openlinker/native-session/v1" ++ framed parts

-- Scope, where `hash` is SHA-256 in hexadecimal digits
unfoldable pub scope_name : (hash : List ℕ → List ℕ) → List (List ℕ) → List ℕ
unfolding scope_text
scope_name hash parts = hash (scope_text parts)

-- the number that digits show, after one that was read
abbrev shown : ℕ → List ℕ → ℕ
shown n [] = n
shown n (c ∷ cs) = shown (10 * n + (c - 48)) cs

shown-append : (n : ℕ) (xs ys : List ℕ) → shown n (xs ++ ys) ≡ shown (shown n xs) ys
shown-append n [] ys = refl
shown-append n (c ∷ cs) ys = shown-append (10 * n + (c - 48)) cs ys

shown-digits : (fuel n : ℕ) → n < fuel → shown 0 (digits fuel n) ≡ n
shown-digits zero n h = absurd (omega (arith, h))
shown-digits (suc fuel) n h = elim (Bool-cases (ltb n 10)) [
  | inl small ↦ rw small (omega arith)
  | inr large ↦
      let smaller : n / 10 < fuel = ground (arith, large, h) in
      let before = shown-digits fuel (n / 10) smaller in
      let joined = shown-append 0 (digits fuel (n / 10)) ((48 + n % 10) ∷ []) in
      rw large (joined ∙ omega (arith, before))
]

-- A digit is below the colon.
All-digits : (fuel n : ℕ) → All (λ c. c < 58) (digits fuel n)
All-digits zero n = tt
All-digits (suc fuel) n = elim (Bool-cases (ltb n 10)) [
  | inl small ↦ rw small (ground (arith, small), tt)
  | inr large ↦ rw large (
      All-append (λ c. c < 58) (digits fuel (n / 10)) ((48 + n % 10) ∷ [])
        (All-digits fuel (n / 10)) (omega arith, tt))
]

decimal_inj : (m n : ℕ) → decimal m ≡ decimal n → m ≡ n
unfolding decimal
decimal_inj m n h =
    sym (shown-digits (suc m) m (omega arith))
    ∙ ap (shown 0) h
    ∙ shown-digits (suc n) n (omega arith)

split_colon :
    (xs ys a b : List ℕ)
    → All (λ c. c < 58) xs
    → All (λ c. c < 58) ys
    → xs ++ (58 ∷ a) ≡ ys ++ (58 ∷ b)
    → (xs ≡ ys) × (a ≡ b)
split_colon [] [] a b h k e = (refl, cc)
split_colon [] (y ∷ ys) a b h (small, k) e =
    let same : 58 ≡ y = cc in absurd (omega (arith, same, small))
split_colon (x ∷ xs) [] a b (small, h) k e =
    let same : x ≡ 58 = cc in absurd (omega (arith, same, small))
split_colon (x ∷ xs) (y ∷ ys) a b (small, h) (tiny, k) e =
    let rest : xs ++ (58 ∷ a) ≡ ys ++ (58 ∷ b) = cc in
    let (heads, tails) = split_colon xs ys a b h k rest in (cc, tails)

width_positive : (c : ℕ) → 1 ≤ width c
width_positive c = ground arith

-- A text is determined by a longer one that it starts and the number of its bytes.
append_inj : (p q r s : List ℕ) → p ++ r ≡ q ++ s → byte_size p ≡ byte_size q → (p ≡ q) × (r ≡ s)
unfolding byte_size
append_inj [] [] r s e l = (refl, e)
append_inj [] (y ∷ q) r s e l =
    let some_byte = width_positive y in absurd (omega (arith, l, some_byte))
append_inj (x ∷ p) [] r s e l =
    let some_byte = width_positive x in absurd (omega (arith, l, some_byte))
append_inj (x ∷ p) (y ∷ q) r s e l =
    let heads : x ≡ y = cc in
    let widths = ap (λ c. width c) heads in
    let rest : p ++ r ≡ q ++ s = cc in
    let (firsts, tails) = append_inj p q r s rest (omega (arith, l, widths)) in (cc, tails)

framed_inj : (ps qs : List (List ℕ)) → framed ps ≡ framed qs → ps ≡ qs
unfolding framed decimal
framed_inj [] [] h = refl
framed_inj [] (q ∷ qs) h = absurd cc
framed_inj (p ∷ ps) [] h = absurd cc
framed_inj (p ∷ ps) (q ∷ qs) h =
    let numbers : decimal (byte_size p) ++ (58 ∷ (p ++ framed ps))
        ≡ decimal (byte_size q) ++ (58 ∷ (q ++ framed qs)) =
      cc in
    let (sizes, texts) =
      split_colon (decimal (byte_size p)) (decimal (byte_size q)) (p ++ framed ps) (q ++ framed qs)
        (All-digits (suc (byte_size p)) (byte_size p))
        (All-digits (suc (byte_size q)) (byte_size q)) numbers in
    let same = decimal_inj (byte_size p) (byte_size q) sizes in
    let (firsts, others) = append_inj p q (framed ps) (framed qs) texts same in
    let later = framed_inj ps qs others in cc

-- Two different lists of parts, of any lengths and contents, never give SHA-256 the same text: two
-- sessions share a storage only where SHA-256 collides or all their parts agree.
pub scope_text_inj : (ps qs : List (List ℕ)) → scope_text ps ≡ scope_text qs → ps ≡ qs
unfolding scope_text
scope_text_inj ps qs h =
    let start = codes "openlinker/native-session/v1" in
    framed_inj ps qs (append_inj start start (framed ps) (framed qs) h refl).1

-- SHA-256 does not tell the different texts of these parts apart.
abbrev pub Collides : (List ℕ → List ℕ) → List (List ℕ) → List (List ℕ) → Type 0
Collides hash ps qs =
    (scope_text ps ≢ scope_text qs) × (hash (scope_text ps) ≡ hash (scope_text qs))

same_or : (x y : List ℕ) → (x ≡ y) ⊎ (x ≢ y)
same_or [] [] = inl refl
same_or [] (b ∷ y) = inr (λ e. cc)
same_or (a ∷ x) [] = inr (λ e. cc)
same_or (a ∷ x) (b ∷ y) = elim (Bool-cases (a == b)) [
  | inr apart ↦ inr (λ e. let heads : a ≡ b = cc in ground (arith, apart, heads))
  | inl same ↦
      let heads : a ≡ b = ground (arith, same) in
      elim (same_or x y) [
        | inl tails ↦ inl (cc)
        | inr apart ↦ inr (λ e. let tails : x ≡ y = cc in apart tails)
      ]
]

-- The same name for two lists of parts means the same parts, or a collision of their texts.
pub scope_name_inj :
    (hash : List ℕ → List ℕ) (ps qs : List (List ℕ))
    → scope_name hash ps ≡ scope_name hash qs
    → (ps ≡ qs) ⊎ Collides hash ps qs
unfolding scope_name
scope_name_inj hash ps qs h = elim (same_or (scope_text ps) (scope_text qs)) [
  | inl same ↦ inl (scope_text_inj ps qs same)
  | inr apart ↦ inr (apart, h)
]
