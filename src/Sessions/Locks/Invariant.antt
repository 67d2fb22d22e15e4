-- ===== src/Sessions/Locks/Invariant.antt =====
-- What the locks of pkg/adapters/providersession/store.go keep over every step of their callers.
use openlinker_agent_node.Base.{
  ℕ, ◌-◌, ◌≤◌, ◌<◌, String, ◌≡◌, ◌≢◌, sym, ap, ◌∙◌, inl, inr, Bool, true, false, none, some,
  if◌then◌else◌, ◌==◌, Bool-cases, Option-cases, arith, str_eq, eq_iff, some_inj,
}
use openlinker_agent_node.Base.Assoc.{lookup, delete, lookup-put, lookup-delete}
use openlinker_agent_node.Sessions.Locks.{
  Stage, Caller, Locks, register_new, register_old, register, acquire, unlock, release, LockStep,
}
use openlinker_agent_node.Sessions.Locks.Threads.{total, total-assign, le-total_two, total-find}

-- whether a caller counts for the entry, and whether it has its lock
abbrev pub uses : ℕ → Caller → ℕ
uses e Caller.outside = 0
uses e (Caller.inside st key f) = if f == e then 1 else 0

abbrev pub holds : ℕ → Caller → ℕ
holds e Caller.outside = 0
holds e (Caller.inside Stage.waiting key f) = 0
holds e (Caller.inside Stage.holding key f) = if f == e then 1 else 0
holds e (Caller.inside Stage.leaving key f) = 0

pub record IsSafe (n : ℕ) (l : Locks) : Type 0 where
  pub mapped :
      (i : ℕ) (st : Stage) (key : String) (e : ℕ)
      → i < n
      → l.callers i ≡ Caller.inside st key e
      → lookup key l.entries ≡ some e
  pub counted : (e : ℕ) → l.refs e ≡ total (uses e) l.callers n
  pub locked : (e : ℕ) → total (holds e) l.callers n ≡ (if l.held e then 1 else 0)
  pub fresh : (key : String) (e : ℕ) → lookup key l.entries ≡ some e → e < l.made
  pub used : (key : String) (e : ℕ) → lookup key l.entries ≡ some e → 0 < l.refs e
  pub own :
      (key other : String) (e : ℕ)
      → lookup key l.entries ≡ some e
      → lookup other l.entries ≡ some e
      → key ≡ other

pub uses-inside :
    (e : ℕ) (c : Caller)
    → 0 < uses e c
    → (st : Stage) × (key : String) × (c ≡ Caller.inside st key e)
uses-inside e Caller.outside h = absurd (omega (arith, h))
uses-inside e (Caller.inside st key f) h =
    let same : f ≡ e = ground (arith, h) in (st, key, ap (Caller.inside st key) same)

pub holds-inside :
    (e : ℕ) (c : Caller) → 0 < holds e c → (key : String) × (c ≡ Caller.inside Stage.holding key e)
holds-inside e Caller.outside h = absurd (omega (arith, h))
holds-inside e (Caller.inside Stage.waiting key f) h = absurd (omega (arith, h))
holds-inside e (Caller.inside Stage.leaving key f) h = absurd (omega (arith, h))
holds-inside e (Caller.inside Stage.holding key f) h =
    let same : f ≡ e = ground (arith, h) in (key, ap (Caller.inside Stage.holding key) same)

-- No caller has an entry that is not made yet.
module _ (n : ℕ) (l : Locks) (h : IsSafe n l) where
  total-made : total (uses l.made) l.callers n ≡ 0
  total-made = elim (total-find (uses l.made) l.callers n) [
    | inl z ↦ z
    | inr (j, k, u) ↦
        let (st, key, e) = uses-inside l.made (l.callers j) u in
        let low = h.fresh key l.made (h.mapped j st key l.made k e) in absurd (omega (arith, low))
  ]

  holds-made : total (holds l.made) l.callers n ≡ 0
  holds-made = elim (total-find (holds l.made) l.callers n) [
    | inl z ↦ z
    | inr (j, k, u) ↦
        let (key, e) = holds-inside l.made (l.callers j) u in
        let low = h.fresh key l.made (h.mapped j Stage.holding key l.made k e) in
        absurd (omega (arith, low))
  ]

  register_new-IsSafe :
      (i : ℕ) (key : String)
      → i < n
      → l.callers i ≡ Caller.outside
      → lookup key l.entries ≡ none
      → IsSafe n (register_new i key l)
  unfolding register_new
  register_new-IsSafe i key k p missing = record {
    mapped = λ j st other e b q. ground (
      arith,
      lookup-put key other l.made l.entries,
      eq_iff key other,
      h.mapped j st other e b,
      q,
      missing,
    );
    counted = λ e.
        let t = total-assign (uses e) l.callers i (Caller.inside Stage.waiting key l.made) n k in
        let o = ap (uses e) p in ground (arith, t, o, h.counted e, total-made);
    locked = λ e.
        let t = total-assign (holds e) l.callers i (Caller.inside Stage.waiting key l.made) n k in
        let o = ap (holds e) p in ground (arith, t, o, h.locked e, holds-made);
    fresh = λ other e q.
        ground (arith, lookup-put key other l.made l.entries, eq_iff key other, h.fresh other e, q);
    used = λ other e q. ground (
      arith,
      lookup-put key other l.made l.entries,
      eq_iff key other,
      h.used other e,
      h.fresh other e,
      q,
    );
    own = λ a b e q r. ground (
      arith,
      lookup-put key a l.made l.entries,
      lookup-put key b l.made l.entries,
      eq_iff key a,
      eq_iff key b,
      eq_iff a b,
      h.own a b e,
      h.fresh a e,
      h.fresh b e,
      q,
      r,
    );
  }

  register_old-IsSafe :
      (i : ℕ) (key : String) (e : ℕ)
      → i < n
      → l.callers i ≡ Caller.outside
      → lookup key l.entries ≡ some e
      → IsSafe n (register_old i key e l)
  unfolding register_old
  register_old-IsSafe i key e k p there = record {
    mapped =
        λ j st other f b q. ground (arith, h.mapped j st other f b, eq_iff key other, q, there);
    counted = λ f.
        let t = total-assign (uses f) l.callers i (Caller.inside Stage.waiting key e) n k in
        let o = ap (uses f) p in ground (arith, t, o, h.counted f, h.counted e);
    locked = λ f.
        let t = total-assign (holds f) l.callers i (Caller.inside Stage.waiting key e) n k in
        let o = ap (holds f) p in ground (arith, t, o, h.locked f);
    fresh = h.fresh;
    used = λ other f q. ground (arith, h.used other f q);
    own = h.own;
  }

  acquire-IsSafe :
      (i : ℕ) (key : String) (e : ℕ)
      → i < n
      → l.callers i ≡ Caller.inside Stage.waiting key e
      → l.held e ≡ false
      → IsSafe n (acquire i key e l)
  unfolding acquire
  acquire-IsSafe i key e k p free = record {
    mapped = λ j st other f b q.
        ground (arith, h.mapped j st other f b, h.mapped i Stage.waiting key e k p, q);
    counted = λ f.
        let t = total-assign (uses f) l.callers i (Caller.inside Stage.holding key e) n k in
        let o = ap (uses f) p in ground (arith, t, o, h.counted f);
    locked = λ f.
        let t = total-assign (holds f) l.callers i (Caller.inside Stage.holding key e) n k in
        let o = ap (holds f) p in ground (arith, t, o, h.locked f, h.locked e, free);
    fresh = h.fresh;
    used = h.used;
    own = h.own;
  }

  unlock-IsSafe :
      (i : ℕ) (key : String) (e : ℕ)
      → i < n
      → l.callers i ≡ Caller.inside Stage.holding key e
      → IsSafe n (unlock i key e l)
  unfolding unlock
  unlock-IsSafe i key e k p = record {
    mapped = λ j st other f b q.
        ground (arith, h.mapped j st other f b, h.mapped i Stage.holding key e k p, q);
    counted = λ f.
        let t = total-assign (uses f) l.callers i (Caller.inside Stage.leaving key e) n k in
        let o = ap (uses f) p in ground (arith, t, o, h.counted f);
    locked = λ f.
        let t = total-assign (holds f) l.callers i (Caller.inside Stage.leaving key e) n k in
        let o = ap (holds f) p in ground (arith, t, o, h.locked f, h.locked e);
    fresh = h.fresh;
    used = h.used;
    own = h.own;
  }

  -- The last user of an entry is alone with its key.
  alone :
      (i j : ℕ) (st sj : Stage) (key : String) (e : ℕ)
      → i < n
      → j < n
      → l.callers i ≡ Caller.inside st key e
      → l.callers j ≡ Caller.inside sj key e
      → i ≢ j
      → 2 ≤ l.refs e
  alone i j st sj key e k b p q d =
      let two = le-total_two (uses e) l.callers i j n k b d in
      let u = ap (uses e) p in let v = ap (uses e) q in ground (arith, two, u, v, h.counted e)

  kept :
      (i j : ℕ) (st : Stage) (key other : String) (e f : ℕ)
      → i < n
      → j < n
      → l.callers i ≡ Caller.inside Stage.leaving key e
      → l.callers j ≡ Caller.inside st other f
      → i ≢ j
      → lookup other (if l.refs e - 1 == 0 then delete key l.entries else l.entries) ≡ some f
  kept i j st key other e f k b p q d =
      let mine = h.mapped i Stage.leaving key e k p in
      let theirs = h.mapped j st other f b q in
      elim (Bool-cases (str_eq key other)) [
        | inl same ↦
            let keys = (eq_iff key other).0 same in
            let entries : e ≡ f =
              some_inj (sym mine ∙ ap (λ s. lookup s l.entries) keys ∙ theirs) in
            let both : l.callers j ≡ Caller.inside st key e = cc in
            let two = alone i j Stage.leaving st key e k b p both d in ground (arith, two, theirs)
        | inr apart ↦ ground (arith, lookup-delete key other l.entries, apart, theirs)
      ]

  gone :
      (key other : String) (f : ℕ) (b : Bool)
      → lookup other (if b then delete key l.entries else l.entries) ≡ some f
      → lookup other l.entries ≡ some f
  gone key other f true q = ground (arith, lookup-delete key other l.entries, q)
  gone key other f false q = q

  release-IsSafe :
      (i : ℕ) (key : String) (e : ℕ)
      → i < n
      → l.callers i ≡ Caller.inside Stage.leaving key e
      → IsSafe n (release i key e l)
  unfolding release
  release-IsSafe i key e k p =
      let last = l.refs e - 1 == 0 in
      record {
        mapped = λ j st other f b q. elim (Bool-cases (i == j)) [
          | inl same ↦ ground (arith, same, q)
          | inr apart ↦
              let there : l.callers j ≡ Caller.inside st other f = ground (arith, apart, q) in
              let d : i ≢ j = ground (arith, apart) in kept i j st key other e f k b p there d
        ];
        counted = λ f.
            let t = total-assign (uses f) l.callers i Caller.outside n k in
            let o = ap (uses f) p in ground (arith, t, o, h.counted f, h.counted e);
        locked = λ f.
            let t = total-assign (holds f) l.callers i Caller.outside n k in
            let o = ap (holds f) p in ground (arith, t, o, h.locked f);
        fresh = λ other f q. h.fresh other f (gone key other f last q);
        used = λ other f q.
            let there = gone key other f last q in
            let mine = h.mapped i Stage.leaving key e k p in
            ground (
              arith,
              lookup-delete key other l.entries,
              eq_iff key other,
              h.used other f,
              h.own key other f,
              there,
              mine,
              q,
            );
        own = λ a b f q r. h.own a b f (gone key a f last q) (gone key b f last r);
      }

pub LockStep-IsSafe : (n : ℕ) (l m : Locks) → IsSafe n l → LockStep n l m → IsSafe n m
unfolding register
LockStep-IsSafe n l _ h (LockStep.enters i key k p) = elim (Option-cases (lookup key l.entries)) [
  | inl missing ↦ rw (missing, register) (register_new-IsSafe n l h i key k p missing)
  | inr (e, there) ↦ rw (there, register) (register_old-IsSafe n l h i key e k p there)
]
LockStep-IsSafe n l _ h (LockStep.acquires i key e k p free) = acquire-IsSafe n l h i key e k p free
LockStep-IsSafe n l _ h (LockStep.unlocks i key e k p) = unlock-IsSafe n l h i key e k p
LockStep-IsSafe n l _ h (LockStep.releases i key e k p) = release-IsSafe n l h i key e k p
