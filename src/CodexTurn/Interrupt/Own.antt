-- ===== src/CodexTurn/Interrupt/Own.antt =====
-- Which turn an interruption asks to stop.
use openlinker_agent_node.Base.{
  String, ◌≡◌, ◌≢◌, refl, ◌⊎◌, inl, inr, Bool, true, false, ◌&&◌, ◌||◌, List, [], ◌∷◌, Option, none,
  some, Bool-cases, str_eq, eq_iff, eq_refl, subst, arith,
}
use openlinker_agent_node.CodexTurn.Interrupt.{
  turn_started, turn_ended, other_notice, Wakeup, timed_out, client_closed, notice, learn_turn,
  interrupt,
}

-- whether a notification said that this turn of this thread started
abbrev pub announced : (thread turn : String) → List Wakeup → Bool
announced thread turn [] = false
announced thread turn (notice (turn_started (some (t, u))) ∷ rest) =
    (str_eq t thread && str_eq u turn) || announced thread turn rest
announced thread turn (_ ∷ rest) = announced thread turn rest

not_empty : (s : String) → str_eq s "" ≡ false → s ≢ ""
not_empty s h e = let there : str_eq s "" ≡ true = (eq_iff s "").1 e in absurd cc

module _ (thread_id : String) (accepted : Bool) where
  -- Nothing is asked for, or a named turn of the thread that was announced.
  IsOwn : List Wakeup → Option (String × String) → Type 0
  IsOwn wakeups none = Unit
  IsOwn wakeups (some (thread, turn)) =
      (thread ≡ thread_id) × (str_eq turn "" ≡ false) × (announced thread_id turn wakeups ≡ true)

  later-IsOwn :
      (w : Wakeup) (rest : List Wakeup) (o : Option (String × String))
      → ((turn : String)
          → announced thread_id turn rest ≡ true
          → announced thread_id turn (w ∷ rest) ≡ true)
      → IsOwn rest o
      → IsOwn (w ∷ rest) o
  unfolding IsOwn
  later-IsOwn w rest none more h = tt
  later-IsOwn w rest (some (thread, turn)) more (same, named, known) =
      (same, named, more turn known)

  learn_turn-IsOwn :
      (wakeups : List Wakeup) → IsOwn wakeups (learn_turn thread_id accepted wakeups).asked
  unfolding IsOwn learn_turn
  learn_turn-IsOwn [] = tt
  learn_turn-IsOwn (timed_out ∷ rest) = tt
  learn_turn-IsOwn (client_closed ∷ rest) = tt
  learn_turn-IsOwn (notice (turn_started none) ∷ rest) = learn_turn-IsOwn rest
  learn_turn-IsOwn (notice (turn_ended x) ∷ rest) = learn_turn-IsOwn rest
  learn_turn-IsOwn (notice other_notice ∷ rest) = learn_turn-IsOwn rest
  learn_turn-IsOwn (notice (turn_started (some (thread, turn))) ∷ rest) =
      let later =
        later-IsOwn (notice (turn_started (some (thread, turn)))) rest
          (learn_turn thread_id accepted rest).asked (λ u k. ground (arith, k))
          (learn_turn-IsOwn rest) in
      elim (Bool-cases (str_eq thread thread_id)) [
        | inl mine ↦ rw mine (elim (Bool-cases (str_eq turn "")) [
          | inl blank ↦ rw blank later
          | inr named ↦ rw named (refl, named, ground (arith, mine, eq_refl turn))
        ])
        | inr foreign ↦ rw foreign later
      ]

  IsTarget : (turn_id : String) → List Wakeup → Option (String × String) → Type 0
  IsTarget turn_id wakeups none = Unit
  IsTarget turn_id wakeups (some (thread, turn)) =
      (thread ≡ thread_id)
      × (turn ≢ "")
      × ((turn ≡ turn_id) ⊎ ((turn_id ≡ "") × (announced thread_id turn wakeups ≡ true)))

  learned-IsTarget :
      (turn_id : String) (wakeups : List Wakeup) (o : Option (String × String))
      → turn_id ≡ ""
      → IsOwn wakeups o
      → IsTarget turn_id wakeups o
  unfolding IsOwn IsTarget
  learned-IsTarget turn_id wakeups none blank h = tt
  learned-IsTarget turn_id wakeups (some (thread, turn)) blank (same, named, known) =
      (same, not_empty turn named, inr (blank, known))

  interrupt-IsTarget :
      (turn_id : String) (wakeups : List Wakeup)
      → IsTarget turn_id wakeups (interrupt thread_id accepted turn_id wakeups).asked
  unfolding interrupt IsTarget
  interrupt-IsTarget turn_id wakeups = elim (Bool-cases (str_eq thread_id "")) [
    | inl nowhere ↦ rw nowhere tt
    | inr there ↦ rw there (elim (Bool-cases (str_eq turn_id "")) [
      | inl blank ↦ rw blank (
          learned-IsTarget turn_id wakeups (learn_turn thread_id accepted wakeups).asked
            ((eq_iff turn_id "").0 blank) (learn_turn-IsOwn wakeups))
      | inr named ↦ rw named (refl, not_empty turn_id named, inl refl)
    ])
  ]

  -- An interruption asks for nothing, or for one turn of the given thread: the given turn, or,
  -- where that is not known, one that a notification of this thread announced.
  pub interrupts_own_turn :
      (turn_id : String) (wakeups : List Wakeup) (thread turn : String)
      → (interrupt thread_id accepted turn_id wakeups).asked ≡ some (thread, turn)
      → (thread ≡ thread_id)
        × (turn ≢ "")
        × ((turn ≡ turn_id) ⊎ ((turn_id ≡ "") × (announced thread_id turn wakeups ≡ true)))
  unfolding IsTarget
  interrupts_own_turn turn_id wakeups thread turn h =
      subst (IsTarget turn_id wakeups) h (interrupt-IsTarget turn_id wakeups)
