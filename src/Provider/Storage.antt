-- ===== src/Provider/Storage.antt =====
-- The private storage of an isolated session: pkg/adapters/sessionsandbox/session.go. What the
-- operating system answers to the calls of an Open is a record.
use Prim.Native.String.{String}
use openlinker_agent_node.Base.{
  ℕ, ◌==◌, length, ◌⊎◌, ◌≡◌, refl, Bool, true, false, not, ◌&&◌, ◌||◌, List, [], ◌∷◌, ◌++◌, Option,
  none, some, if◌then◌else◌, Bool-cases, Option-cases, inl, inr, ltb, codes, any, all, arith,
}
use openlinker_agent_node.Config.Sandbox.{safe_path}
use openlinker_agent_node.Provider.Scope.{byte_size, scope_name}

-- os.Lstat of a path, without an error
pub record Info : Type 0 where
  pub directory : Bool
  pub symlink : Bool
  pub shared : Bool  -- some permission of group or others
  pub writable : Bool  -- group or others may write
  pub sticky : Bool
  pub owned : Bool

-- a directory that is made, or was there, and its Lstat
pub record Made : Type 0 where
  pub there : Bool
  pub info : Option Info

abbrev private_info : Option Info → Bool
private_info none = false
private_info (some i) = i.directory && not i.symlink && not i.shared && i.owned

-- privateDirectory
unfoldable pub private_directory : Made → Bool
private_directory m = m.there && private_info m.info

abbrev good_ancestor : Option Info → Bool
good_ancestor none = false
good_ancestor (some i) = i.directory && not (i.writable && not i.sticky)

-- What privateRoot meets: the ancestors from the resolved path's parent to the root, and whether
-- there is a .git beside the resolved path and in each of them.
pub record Root : Type 0 where
  pub parents_made : Bool
  pub itself : Made
  pub resolved : Option String
  pub ancestors : List (Option Info)
  pub git_here : Bool
  pub git_above : List Bool

-- gitWorktree
unfoldable pub git_worktree : Root → Bool
git_worktree r = r.git_here || any (λ b. b) r.git_above

abbrev safe_resolved : Option String → Option String
safe_resolved none = none
safe_resolved (some p) = if safe_path p then some p else none

-- privateRoot
unfoldable pub private_root : Root → Option String
unfolding private_directory git_worktree
private_root r =
    if not r.parents_made
    then none
    else if not (private_directory r.itself)
    then none
    else elim (safe_resolved r.resolved) [
      | none ↦ none
      | some p ↦ if not (all good_ancestor r.ancestors) || git_worktree r then none else some p
    ]

-- The calls of openSession, by what they return.
pub record OpenCalls : Type 0 where
  pub live : Bool  -- the context is not done
  pub valid : Bool  -- Validate, and Enabled
  pub runtime : Bool  -- resolveRuntime
  pub root : Root
  pub temp_root : Option Root
  pub control : List ℕ → Made  -- the directory of that name below the root
  pub locked : Bool
  pub data_directory : Made
  pub parts : List Made  -- workspace, home, codex, claude, tmp
  pub policy : Bool
  pub runner : Bool
  pub temp : Bool
  pub temp_resolved : Bool

pub data StorageStep : Type 0 where
  takes_lock : StorageStep
  releases_lock : StorageStep
  makes_policy : StorageStep
  removes_policy : StorageStep
  makes_temp : StorageStep
  removes_temp : StorageStep

-- whether a session is returned, and the steps
abbrev pub Opening : Type 0
Opening = Bool × List StorageStep

-- the temporary root is /tmp, or one whose path leaves room for sockets
unfoldable pub good_temp_root : Option Root → Bool
unfolding private_root byte_size
good_temp_root none = true
good_temp_root (some r) = elim (private_root r) [
  | none ↦ false
  | some p ↦ not (ltb 40 (byte_size (codes p)))
]

-- openSession after its policy file is made
unfoldable pub open_temp : Bool → OpenCalls → Opening
open_temp outer c =
    if outer && not c.runner
    then (false, makes_policy ∷ removes_policy ∷ [])
    else if not c.temp
    then (false, makes_policy ∷ removes_policy ∷ [])
    else if not c.temp_resolved
    then (false, makes_policy ∷ makes_temp ∷ removes_policy ∷ removes_temp ∷ [])
    else (true, makes_policy ∷ makes_temp ∷ [])

-- openSession with the lock
unfoldable pub open_locked : Bool → OpenCalls → Opening
unfolding open_temp private_directory
open_locked outer c =
    if not (private_directory c.data_directory) || not (all private_directory c.parts)
    then (false, [])
    else if not c.policy
    then (false, [])
    else open_temp outer c

-- the lock is released by the deferred function, unless a session is returned
unfoldable pub with_lock : Opening → Opening
with_lock (opened, steps) =
    (opened, takes_lock ∷ (if opened then steps else steps ++ (releases_lock ∷ [])))

-- Where the files of a session are: the control directory of that name below the root.
pub record Place : Type 0 where
  pub root : String
  pub control : List ℕ

abbrev pub Opened : Type 0
Opened = Option Place × List StorageStep

-- the session that is returned, if it is
unfoldable pub placed : Place → Opening → Opened
placed at (opened, steps) = (if opened then some at else none, steps)

module _ (hash : List ℕ → List ℕ) where
  -- openSession, of a namespace and a scope
  unfoldable pub open_session : Bool → String → List ℕ → OpenCalls → Opened
  unfolding open_locked with_lock private_root good_temp_root private_directory placed scope_name
  open_session outer namespace scope c =
      if not c.live || not c.valid || length scope == 0 || (outer && not c.runtime)
      then (none, [])
      else elim (private_root c.root) [
        | none ↦ (none, [])
        | some root ↦
            let name = scope_name hash (codes namespace ∷ scope ∷ []) in
            if not (good_temp_root c.temp_root)
              || not (private_directory (c.control name))
              || not c.locked
            then (none, [])
            else placed (record { root = root; control = name }) (with_lock (open_locked outer c))
      ]

  -- OpenClient
  unfoldable pub open_client : String → List ℕ → OpenCalls → Opened
  unfolding open_session scope_name
  open_client namespace scope c =
      open_session false namespace (scope_name hash (codes "host-client-v1" ∷ scope ∷ [])) c

  -- the name of the control directory of an OpenClient
  abbrev pub control_name : String → List ℕ → List ℕ
  control_name namespace scope =
      scope_name hash (codes namespace ∷ scope_name hash (codes "host-client-v1" ∷ scope ∷ []) ∷ [])

-- Session.Close of a session that is open
abbrev pub close_storage : List StorageStep
close_storage = removes_policy ∷ removes_temp ∷ releases_lock ∷ []

-- What the steps leave behind.
pub record Held : Type 0 where
  pub lock : Bool
  pub policy : Bool
  pub temp : Bool

abbrev pub hold_step : StorageStep → Held → Held
hold_step takes_lock h = record h { lock = true }
hold_step releases_lock h = record h { lock = false }
hold_step makes_policy h = record h { policy = true }
hold_step removes_policy h = record h { policy = false }
hold_step makes_temp h = record h { temp = true }
hold_step removes_temp h = record h { temp = false }

abbrev pub hold_steps : List StorageStep → Held → Held
hold_steps [] h = h
hold_steps (s ∷ rest) h = hold_steps rest (hold_step s h)

abbrev pub nothing_held : Held
nothing_held = record { lock = false; policy = false; temp = false }

abbrev pub all_held : Held
all_held = record { lock = true; policy = true; temp = true }

abbrev held_if : Bool → Held
held_if opened = if opened then all_held else nothing_held

with_lock-held :
    (outer : Bool) (c : OpenCalls)
    → let o = with_lock (open_locked outer c) in hold_steps o.1 nothing_held ≡ held_if o.0
unfolding with_lock open_locked open_temp
with_lock-held outer c = ground arith

-- What an Open leaves behind: nothing with an error, and with a session, which is at that name, all
-- that Close gives back.
abbrev pub IsHeld : List ℕ → Opened → Type 0
IsHeld name o =
    ((o.0 ≡ none) × (hold_steps o.1 nothing_held ≡ nothing_held))
    ⊎ ((root : String) × (o.0 ≡ some (record { root = root; control = name }))
        × (hold_steps o.1 nothing_held ≡ all_held))

placed-IsHeld :
    (outer : Bool) (c : OpenCalls) (root : String) (name : List ℕ)
    → IsHeld name
        (placed (record { root = root; control = name }) (with_lock (open_locked outer c)))
unfolding placed
placed-IsHeld outer c root name =
    let o = with_lock (open_locked outer c) in
    let held = with_lock-held outer c in
    elim (Bool-cases o.0) [
      | inl opened ↦ inr (root, rw opened refl, rw opened at held)
      | inr failed ↦ inl (rw failed refl, rw failed at held)
    ]

open_session-IsHeld :
    (hash : List ℕ → List ℕ) (outer : Bool) (namespace : String) (scope : List ℕ) (c : OpenCalls)
    → IsHeld
        (scope_name hash (codes namespace ∷ scope ∷ []))
        (open_session hash outer namespace scope c)
unfolding open_session
open_session-IsHeld hash outer namespace scope c =
    let name = scope_name hash (codes namespace ∷ scope ∷ []) in
    let early = not c.live || not c.valid || length scope == 0 || (outer && not c.runtime) in
    let late =
      not (good_temp_root c.temp_root)
      || not (private_directory (c.control name))
      || not c.locked in
    elim (Bool-cases early) [
      | inl refused ↦ rw refused (inl (refl, refl))
      | inr goes ↦ elim (Option-cases (private_root c.root)) [
        | inl unsafe ↦ rw (goes, open_session, unsafe) (inl (refl, refl))
        | inr (root, e) ↦ elim (Bool-cases late) [
          | inl stops ↦ rw (goes, open_session, e, stops) (inl (refl, refl))
          | inr on ↦ rw (goes, open_session, e, on) (placed-IsHeld outer c root name)
        ]
      ]
    ]

-- An OpenClient that returns an error, wherever it stops, leaves no lock, policy file or temporary
-- directory behind; one that returns a session holds all three, in the directory of its name.
pub open_client-IsHeld :
    (hash : List ℕ → List ℕ) (namespace : String) (scope : List ℕ) (c : OpenCalls)
    → IsHeld (control_name hash namespace scope) (open_client hash namespace scope c)
unfolding open_client
open_client-IsHeld hash namespace scope c =
    open_session-IsHeld hash false namespace (scope_name hash (codes "host-client-v1" ∷ scope ∷ []))
      c
