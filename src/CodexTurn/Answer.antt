-- ===== src/CodexTurn/Answer.antt =====
-- Where the answer of a Codex turn comes from.
use openlinker_agent_node.Base.{
  String, ◌≡◌, ◌≢◌, refl, sym, ap, ◌∙◌, inl, inr, Bool, true, false, ◌&&◌, ◌||◌, List, [], ◌∷◌,
  ◌++◌, map, any, Option, none, some, subst, if◌then◌else◌, Bool-cases, str_eq, eq_iff, eq_refl,
  arith,
}
use openlinker_agent_node.CodexTurn.{
  Report, ThreadItem, Event, item_started, item_completed, error_event, turn_completed, other_event,
}
use openlinker_agent_node.CodexTurn.Events.{
  rpc_final, keep_text, last_final, hit_limit, Next, continue, answered, ended, in_scope,
  with_answer, handle_event, Signal, event, context_done, client_done, Ending, after, turn_loop,
}

abbrev pub among : List String → String → Bool
among texts final = any (λ (t : String). str_eq t final) texts

clash : false ≡ true → ⊥
clash h = cc

kept :
    (final text : String)
    → (str_eq final (keep_text final text) || str_eq text (keep_text final text)) ≡ true
kept final text = elim (Bool-cases (str_eq text "")) [
  | inl empty ↦ rw empty (ground (arith, eq_refl final))
  | inr given ↦ rw given (ground (arith, eq_refl text))
]

last_final-among :
    (final : String) (items : List ThreadItem)
    → (str_eq final (last_final final items)
        || among (map rpc_final items) (last_final final items))
      ≡ true
unfolding last_final
last_final-among final [] = ground (arith, eq_refl final)
last_final-among final (i ∷ is) =
    let next = keep_text final (rpc_final i) in
    let ih = last_final-among next is in
    elim (Bool-cases (str_eq next (last_final next is))) [
      | inl same ↦
          let e : next ≡ last_final next is = (eq_iff next (last_final next is)).0 same in
          let k = kept final (rpc_final i) in
          let k' : (str_eq final (last_final next is) || str_eq (rpc_final i) (last_final next is))
              ≡ true =
            ap (λ (x : String). str_eq final x || str_eq (rpc_final i) x) (sym e) ∙ k in
          ground (arith, k')
      | inr other ↦
          let found : among (map rpc_final is) (last_final next is) ≡ true =
            ground (arith, ih, other) in
          ground (arith, found)
    ]

not_empty : (s : String) → str_eq s "" ≡ false → s ≢ ""
not_empty s h e = clash (sym h ∙ (eq_iff s "").1 e)

module _ (thread_id turn_id : String) where
  -- the texts that an event gives as answers of this turn
  abbrev pub offers : Event → List String
  offers (item_completed (some n)) =
      if in_scope thread_id turn_id n.thread_id n.turn_id then rpc_final n.item ∷ [] else []
  offers (turn_completed (some n)) =
      if in_scope thread_id turn_id n.thread_id n.turn_id then map rpc_final n.items else []
  offers _ = []

  -- whether an event says that this turn completed
  abbrev pub completes : Event → Bool
  completes (turn_completed (some n)) =
      in_scope thread_id turn_id n.thread_id n.turn_id && str_eq n.status "completed"
  completes _ = false

  abbrev pub offered : List Signal → List String
  offered [] = []
  offered (event e ∷ rest) = offers e ++ offered rest
  offered (client_done (some e) ∷ rest) = offers e ++ offered rest
  offered (_ ∷ rest) = offered rest

  abbrev pub completed : List Signal → Bool
  completed [] = false
  completed (event e ∷ rest) = completes e || completed rest
  completed (client_done (some e) ∷ rest) = completes e || completed rest
  completed (_ ∷ rest) = completed rest

  IsFrom : Next → (texts : List String) → (done : Bool) → (before final : String) → Type 0
  IsFrom continue texts done before final = (str_eq before final || among texts final) ≡ true
  IsFrom answered texts done before final =
      ((str_eq before final || among texts final) ≡ true) × (final ≢ "") × (done ≡ true)
  IsFrom (ended e) texts done before final = Unit

  self :
      (texts : List String) (before : String) → (str_eq before before || among texts before) ≡ true
  self texts before = ground (arith, eq_refl before)

  with_answer-IsFrom :
      (texts : List String) (before final : String)
      → (str_eq before final || among texts final) ≡ true
      → let h = with_answer thread_id turn_id final in IsFrom h.next texts true before h.final
  unfolding IsFrom
  with_answer-IsFrom texts before final h = elim (Bool-cases (str_eq final "")) [
    | inl empty ↦ rw empty tt
    | inr given ↦ rw given (h, not_empty final given, refl)
  ]

  handle_event-IsFrom :
      (e : Event) (before : String)
      → let h = handle_event thread_id turn_id e before in
        IsFrom h.next (offers e) (completes e) before h.final
  unfolding IsFrom handle_event
  handle_event-IsFrom (item_started none) before = tt
  handle_event-IsFrom (item_started (some n)) before =
      elim (Bool-cases (in_scope thread_id turn_id n.thread_id n.turn_id)) [
        | inl here ↦ rw here (self [] before)
        | inr foreign ↦ rw foreign (self [] before)
      ]
  handle_event-IsFrom (item_completed none) before = tt
  handle_event-IsFrom (item_completed (some n)) before =
      elim (Bool-cases (in_scope thread_id turn_id n.thread_id n.turn_id)) [
        | inl here ↦ let k = kept before (rpc_final n.item) in rw here (ground (arith, k))
        | inr foreign ↦ rw foreign (self [] before)
      ]
  handle_event-IsFrom (error_event none) before = tt
  handle_event-IsFrom (error_event (some n)) before =
      elim (Bool-cases (in_scope thread_id turn_id n.thread_id n.turn_id)) [
        | inl here ↦ rw here (elim (Bool-cases (hit_limit n)) [
          | inl limit ↦ rw limit tt
          | inr fine ↦ rw fine (self [] before)
        ])
        | inr foreign ↦ rw foreign (self [] before)
      ]
  handle_event-IsFrom (turn_completed none) before = tt
  handle_event-IsFrom (turn_completed (some n)) before =
      elim (Bool-cases (in_scope thread_id turn_id n.thread_id n.turn_id)) [
        | inl here ↦ rw here (elim (Bool-cases (str_eq n.status "completed")) [
          | inl done ↦ rw done (
              with_answer-IsFrom (map rpc_final n.items) before (last_final before n.items)
                (last_final-among before n.items))
          | inr failed ↦ rw failed (elim (Bool-cases (str_eq n.status "interrupted")) [
            | inl i ↦ rw i tt
            | inr i ↦
                rw i (elim (Bool-cases (str_eq n.status "failed")) [
                  | inl f ↦ rw f tt
                  | inr f ↦ rw f tt
                ])
          ])
        ])
        | inr foreign ↦ rw foreign (self [] before)
      ]
  handle_event-IsFrom other_event before = ground (arith, eq_refl before)

  among-append :
      (xs ys : List String) (t : String) → among (xs ++ ys) t ≡ (among xs t || among ys t)
  among-append [] ys t = refl
  among-append (x ∷ xs) ys t = ground (arith, among-append xs ys t)

  -- What the loop gives after an event, if it ends without an error.
  IsAnswer : (sigs : List Signal) → (before : String) → Option Ending → Type 0
  IsAnswer sigs before none = Unit
  IsAnswer sigs before (some e) =
      e.error ≡ none
      → ((str_eq before e.final || among (offered sigs) e.final) ≡ true)
        × (e.final ≢ "")
        × (completed sigs ≡ true)

  chained :
      (e : Event) (rest : List Signal) (before final last : String)
      → (str_eq before final || among (offers e) final) ≡ true
      → (str_eq final last || among (offered rest) last) ≡ true
      → (str_eq before last || among (offers e ++ offered rest) last) ≡ true
  chained e rest before final last h k = elim (Bool-cases (str_eq final last)) [
    | inl same ↦
        let there : (str_eq before last || among (offers e) last) ≡ true =
          ap (λ (x : String). str_eq before x || among (offers e) x)
            (sym ((eq_iff final last).0 same))
          ∙ h in
        ground (arith, there, among-append (offers e) (offered rest) last)
    | inr other ↦ ground (arith, k, other, among-append (offers e) (offered rest) last)
  ]

  step-IsAnswer :
      (e : Event) (rest : List Signal) (before : String) (next : Next) (final : String)
      → (reports : List Report) → (o : Option Ending)
      → IsFrom next (offers e) (completes e) before final
      → IsAnswer rest final o
      → IsAnswer (event e ∷ rest) before (after thread_id turn_id next final reports o)
  unfolding IsAnswer IsFrom
  step-IsAnswer e rest before continue final reports none from answer = tt
  step-IsAnswer e rest before continue final reports (some x) from answer = λ good.
      let (found, given, done) = answer good in
      (chained e rest before final x.final from found, given, ground (arith, done))
  step-IsAnswer e rest before answered final reports o (from, given, done) answer = λ good. (
    ground (arith, from, among-append (offers e) (offered rest) final),
    given,
    ground (arith, done),
  )
  step-IsAnswer e rest before (ended x) final reports o from answer = λ good. absurd cc

  turn_loop-IsAnswer :
      (sigs : List Signal) (before : String)
      → IsAnswer sigs before (turn_loop thread_id turn_id sigs before)
  unfolding turn_loop IsAnswer
  turn_loop-IsAnswer [] before = tt
  turn_loop-IsAnswer (context_done ∷ rest) before = λ none. absurd cc
  turn_loop-IsAnswer (client_done none ∷ rest) before = λ none. absurd cc
  turn_loop-IsAnswer (client_done (some e) ∷ rest) before =
      let h = handle_event thread_id turn_id e before in
      step-IsAnswer e rest before h.next h.final h.reports
        (turn_loop thread_id turn_id rest h.final) (handle_event-IsFrom e before)
        (turn_loop-IsAnswer rest h.final)
  turn_loop-IsAnswer (event e ∷ rest) before =
      let h = handle_event thread_id turn_id e before in
      step-IsAnswer e rest before h.next h.final h.reports
        (turn_loop thread_id turn_id rest h.final) (handle_event-IsFrom e before)
        (turn_loop-IsAnswer rest h.final)

  -- A turn that ends without an error answers with a text that is not empty, which an event of
  -- this thread and turn gave as a final message, and an event of this thread and turn said that it
  -- completed: no event of another thread or turn supplies the answer or ends the turn.
  pub final_answer :
      (sigs : List Signal) (e : Ending)
      → turn_loop thread_id turn_id sigs "" ≡ some e
      → e.error ≡ none
      → (among (offered sigs) e.final ≡ true) × (e.final ≢ "") × (completed sigs ≡ true)
  unfolding IsAnswer
  final_answer sigs e h good =
      let (from, given, done) = subst (IsAnswer sigs "") h (turn_loop-IsAnswer sigs "") good in
      let empty : str_eq "" e.final ≡ false = ground (arith, given, eq_iff "" e.final) in
      (ground (arith, from, empty), given, done)
