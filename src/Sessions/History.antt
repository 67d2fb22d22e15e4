-- ===== src/Sessions/History.antt =====
-- pkg/adapters/providersession/history.go: the cursor of what a session has seen.
use openlinker_agent_node.Base.{
  ℕ, suc, ◌-◌, ◌≤◌, String, ◌≡◌, refl, sym, ap, ◌∙◌, Bool, true, false, ◌||◌, List, [], ◌∷◌, ◌++◌,
  map, inl, inr, Bool-cases, if◌then◌else◌, ltb, length, drop, str_eq, arith, length-drop, eq_iff,
}

abbrev pub contains : List String → String → Bool
contains [] key = false
contains (k ∷ ks) key = str_eq k key || contains ks key

abbrev pub add_key : List String → String → List String
add_key keys key = if contains keys key then keys else keys ++ key ∷ []

abbrev pub bounded : ℕ → List String → List String
bounded limit keys = if ltb limit (length keys) then drop (length keys - limit) keys else keys

module _ {Message : Type 0} (history_key : Message → String) where
  -- RememberHistory
  unfoldable pub remember_history : (limit : ℕ) → List String → List Message → List String
  remember_history limit keys [] = keys
  remember_history limit keys (m ∷ ms) =
      remember_history limit (bounded limit (add_key keys (history_key m))) ms

  -- UnseenHistory
  unfoldable pub unseen_history : List Message → List String → List Message
  unseen_history [] seen = []
  unseen_history (m ∷ ms) seen =
      let rest = unseen_history ms seen in if contains seen (history_key m) then rest else m ∷ rest

contains-drop :
    (n : ℕ) (keys : List String) (k : String)
    → contains (drop n keys) k ≡ true
    → contains keys k ≡ true
contains-drop ℕ.zero keys k h = h
contains-drop (suc n) [] k h = h
contains-drop (suc n) (x ∷ keys) k h = ground (arith, contains-drop n keys k h)

contains-append :
    (xs ys : List String) (k : String) → contains (xs ++ ys) k ≡ (contains xs k || contains ys k)
contains-append [] ys k = refl
contains-append (x ∷ xs) ys k = ground (arith, contains-append xs ys k)

contains-bounded :
    (limit : ℕ) (keys : List String) (k : String)
    → contains (bounded limit keys) k ≡ true
    → contains keys k ≡ true
contains-bounded limit keys k h = elim (Bool-cases (ltb limit (length keys))) [
  | inl over ↦ contains-drop (length keys - limit) keys k (
      ap (λ (b : Bool). contains (if b then drop (length keys - limit) keys else keys) k) (sym over)
      ∙ h)
  | inr fits ↦
      ap (λ (b : Bool). contains (if b then drop (length keys - limit) keys else keys) k) (sym fits)
      ∙ h
]

length-bounded-le : (limit : ℕ) (keys : List String) → length (bounded limit keys) ≤ limit
length-bounded-le limit keys = elim (Bool-cases (ltb limit (length keys))) [
  | inl over ↦ rw over (omega (arith, length-drop (length keys - limit) keys))
  | inr fits ↦ rw fits (ground (arith, fits))
]

contains-add_key :
    (keys : List String) (key k : String)
    → contains (add_key keys key) k ≡ true
    → (contains keys k || str_eq key k) ≡ true
contains-add_key keys key k h = ground (arith, contains-append keys (key ∷ []) k)

clash : true ≡ false → ⊥
clash h = cc

differs :
    (seen : List String) (x k : String)
    → contains seen x ≡ true
    → contains seen k ≡ false
    → str_eq x k ≡ false
differs seen x k h new = elim (Bool-cases (str_eq x k)) [
  | inl same ↦ absurd (clash (sym h ∙ ap (contains seen) ((eq_iff x k).0 same) ∙ new))
  | inr other ↦ other
]

module _ {Message : Type 0} (history_key : Message → String) where
  remembered :
      (limit : ℕ) (keys : List String) (ms : List Message) (k : String)
      → contains (remember_history history_key limit keys ms) k ≡ true
      → (contains keys k || contains (map history_key ms) k) ≡ true
  unfolding remember_history
  remembered limit keys [] k h = ground (arith, h)
  remembered limit keys (m ∷ ms) k h =
      let next = bounded limit (add_key keys (history_key m)) in
      let ih = remembered limit next ms k h in
      elim (Bool-cases (contains next k)) [
        | inl here ↦
            let there =
              contains-add_key keys (history_key m) k
                (contains-bounded limit (add_key keys (history_key m)) k here) in
            ground (arith, there)
        | inr gone ↦
            let later : contains (map history_key ms) k ≡ true = ground (arith, ih, gone) in
            ground (arith, later)
      ]

  length-remember_history-le :
      (limit : ℕ) (keys : List String) (ms : List Message)
      → length keys ≤ limit
      → length (remember_history history_key limit keys ms) ≤ limit
  unfolding remember_history
  length-remember_history-le limit keys [] h = h
  length-remember_history-le limit keys (m ∷ ms) h =
      length-remember_history-le limit (bounded limit (add_key keys (history_key m))) ms
        (length-bounded-le limit (add_key keys (history_key m)))

  unseen :
      (ms : List Message) (seen : List String) (k : String)
      → contains (map history_key ms) k ≡ true
      → contains seen k ≡ false
      → contains (map history_key (unseen_history history_key ms seen)) k ≡ true
  unfolding unseen_history
  unseen [] seen k h new = h
  unseen (m ∷ ms) seen k h new = elim (Bool-cases (contains seen (history_key m))) [
    | inl known ↦
        let other : str_eq (history_key m) k ≡ false = differs seen (history_key m) k known new in
        rw known (unseen ms seen k (ground (arith, h, other)) new)
    | inr fresh ↦ rw fresh (elim (Bool-cases (str_eq (history_key m) k)) [
      | inl same ↦ rw same refl
      | inr other ↦ rw other (unseen ms seen k (ground (arith, h, other)) new)
    ])
  ]

  -- A cursor of at most `limit` keys stays within the limit, and what it leaves out of a later
  -- history is no message whose content is neither in the old cursor nor in the history that was
  -- remembered: every such message is still sent.
  pub history_not_lost :
      (limit : ℕ) (keys : List String) (ms later : List Message) (k : String)
      → length keys ≤ limit
      → contains (map history_key later) k ≡ true
      → (contains keys k || contains (map history_key ms) k) ≡ false
      → let seen = remember_history history_key limit keys ms in
        (length seen ≤ limit)
        × (contains (map history_key (unseen_history history_key later seen)) k ≡ true)
  history_not_lost limit keys ms later k h there new = (
    length-remember_history-le limit keys ms h,
    unseen later (remember_history history_key limit keys ms) k there
        (elim (Bool-cases (contains (remember_history history_key limit keys ms) k)) [
          | inl old ↦ absurd (clash (sym (remembered limit keys ms k old) ∙ new))
          | inr fresh ↦ fresh
        ]),
  )
