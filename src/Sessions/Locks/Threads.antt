-- ===== src/Sessions/Locks/Threads.antt =====
-- Numbers summed over the threads of a system, for the locks of
-- pkg/adapters/providersession/store.go.
use openlinker_agent_node.Base.{
  ℕ, zero, suc, ◌+◌, ◌≤◌, ◌<◌, ◌≡◌, refl, ◌≢◌, ◌⊎◌, inl, inr, if◌then◌else◌, Bool-cases, arith,
  ◌==◌,
}

module _ {A : Type 0} where
  -- f with `v` at `i`
  abbrev pub assign : (ℕ → A) → ℕ → A → ℕ → A
  assign f i v j = if i == j then v else f j

  unfoldable pub total : (A → ℕ) → (ℕ → A) → ℕ → ℕ
  total w f zero = 0
  total w f (suc n) = w (f n) + total w f n

  total-assign_out :
      (w : A → ℕ) (f : ℕ → A) (i : ℕ) (v : A) (n : ℕ)
      → n ≤ i
      → total w (assign f i v) n ≡ total w f n
  unfolding total
  total-assign_out w f i v zero h = refl
  total-assign_out w f i v (suc n) h = ground (arith, total-assign_out w f i v n (omega (arith, h)))

  pub total-assign :
      (w : A → ℕ) (f : ℕ → A) (i : ℕ) (v : A) (n : ℕ)
      → i < n
      → total w (assign f i v) n + w (f i) ≡ total w f n + w v
  unfolding total
  total-assign w f i v zero h = absurd (omega (arith, h))
  total-assign w f i v (suc n) h = elim (Bool-cases (i == n)) [
    | inl here ↦ ground (arith, here, total-assign_out w f i v n)
    | inr there ↦ ground (arith, there, total-assign w f i v n)
  ]

  pub le-total : (w : A → ℕ) (f : ℕ → A) (i n : ℕ) → i < n → w (f i) ≤ total w f n
  unfolding total
  le-total w f i zero h = absurd (omega (arith, h))
  le-total w f i (suc n) h = ground (arith, le-total w f i n)

  pub le-total_two :
      (w : A → ℕ) (f : ℕ → A) (i j n : ℕ) → i < n → j < n → i ≢ j → w (f i) + w (f j) ≤ total w f n
  unfolding total
  le-total_two w f i j zero h k d = absurd (omega (arith, h))
  le-total_two w f i j (suc n) h k d =
      ground (arith, le-total_two w f i j n, le-total w f i n, le-total w f j n)

  pub total-find :
      (w : A → ℕ) (f : ℕ → A) (n : ℕ) → (total w f n ≡ 0) ⊎ ((j : ℕ) × (j < n) × (0 < w (f j)))
  unfolding total
  total-find w f zero = inl refl
  total-find w f (suc n) = elim (Bool-cases (w (f n) == 0)) [
    | inl none ↦ elim (total-find w f n) [
      | inl rest ↦ inl (ground (arith, none, rest))
      | inr (j, k, u) ↦ inr (j, omega (arith, k), u)
    ]
    | inr here ↦ inr (n, omega arith, ground (arith, here))
  ]
