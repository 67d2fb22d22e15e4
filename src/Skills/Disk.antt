-- ===== src/Skills/Disk.antt =====
-- The tree of files below an os.Root, as pkg/adapters/skillpackages uses it. Paths are relative
-- and clean. An operation can fail at any time: `fault n` says whether the n-th one of the tree
-- does. Other processes do not change the tree between two operations. Each file has one name: the
-- permissions that a Chmod gives to a file show under no other hard link, while its content is
-- written under a new name only, before it is linked.

use openlinker_agent_node.Base.{
  ℕ, ◌+◌, String, Bool, true, false, List, Option, none, some, if◌then◌else◌, str_eq,
}
use openlinker_agent_node.Base.Assoc.{lookup, put, delete}
use openlinker_agent_node.Skills.Paths.{parent}

pub data Node : Type 0 where
  directory : ℕ → Node
  regular : ℕ → String → Node  -- its permissions and content
  -- anything else: whether it is a symbolic link, and what a ReadFile of it gives
  other : Bool → Option String → Node

pub record Disk : Type 0 where
  pub tree : List (String × Node)
  pub clock : ℕ

-- os.ErrExist, os.ErrNotExist, any other error
pub data Failure : Type 0 where
  exists : Failure
  missing : Failure
  broken : Failure

abbrev pub tick : Disk → Disk
tick d = record d { clock = d.clock + 1 }

abbrev pub write_node : String → Node → Disk → Disk
write_node p n d = record { tree = put p n d.tree; clock = d.clock + 1 }

-- An error, or nil, and the tree after it.
abbrev pub Outcome : Type 0
Outcome = Option Failure × Disk

-- the rest of a function, unless the call returned an error
infixl 5 ◌then_on◌
unfoldable pub ◌then_on◌ : Outcome → (Disk → Outcome) → Outcome
(e, d) then_on next = elim e [ none ↦ next d | some f ↦ (some f, d) ]

abbrev pub is_directory : Option Node → Bool
is_directory none = false
is_directory (some (directory mode)) = true
is_directory (some (regular mode content)) = false
is_directory (some (other symlink target)) = false

abbrev pub in_directory : String → Disk → Bool
in_directory p d = if str_eq (parent p) "" then true else is_directory (lookup (parent p) d.tree)

-- A new node at a path that has none.
unfoldable pub add_node : Bool → String → Node → Disk → Outcome
add_node fails p n d = if fails then (some Failure.broken, tick d) else elim (lookup p d.tree) [
  | some old ↦ (some Failure.exists, tick d)
  | none ↦ if in_directory p d then (none, write_node p n d) else (some Failure.missing, tick d)
]

abbrev pub chmod_node : ℕ → Node → Node
chmod_node mode (Node.directory old) = Node.directory mode
chmod_node mode (Node.regular old content) = Node.regular mode content
chmod_node mode (Node.other symlink target) = Node.other symlink target

module _ (fault : ℕ → Bool) where
  -- root.Mkdir, where the umask is undone by the Chmod after it
  unfoldable pub mkdir : String → ℕ → Disk → Outcome
  unfolding add_node
  mkdir p mode d = add_node (fault d.clock) p (Node.directory mode) d

  -- root.OpenFile with O_WRONLY|O_CREATE|O_EXCL, likewise
  unfoldable pub open_new : String → ℕ → Disk → Outcome
  unfolding add_node
  open_new p mode d = add_node (fault d.clock) p (Node.regular mode "") d

  -- root.Lstat
  unfoldable pub lstat : String → Disk → Option Node × Option Failure × Disk
  lstat p d =
      if fault d.clock then (none, some Failure.broken, tick d) else elim (lookup p d.tree) [
        | none ↦ (none, some Failure.missing, tick d)
        | some n ↦ (some n, none, tick d)
      ]

  -- root.Chmod and file.Chmod
  unfoldable pub chmod : String → ℕ → Disk → Outcome
  chmod p mode d = if fault d.clock then (some Failure.broken, tick d) else elim (lookup p d.tree) [
    | none ↦ (some Failure.missing, tick d)
    | some n ↦ (none, write_node p (chmod_node mode n) d)
  ]

  -- file.WriteString and the Close after it, where `torn` is what a failed write leaves
  unfoldable pub write_string : (torn : String) → String → String → Disk → Outcome
  write_string torn p s d = elim (lookup p d.tree) [
    | none ↦ (some Failure.missing, tick d)
    | some (Node.directory mode) ↦ (some Failure.broken, tick d)
    | some (Node.regular mode old) ↦
        if fault d.clock
        then (some Failure.broken, write_node p (Node.regular mode torn) d)
        else (none, write_node p (Node.regular mode s) d)
    | some (Node.other symlink target) ↦ (some Failure.broken, tick d)
  ]

  -- root.Link(from, to)
  unfoldable pub link : String → String → Disk → Outcome
  unfolding add_node
  link from to d = elim (lookup from d.tree) [
    | none ↦ (some Failure.missing, tick d)
    | some n ↦ add_node (fault d.clock) to n d
  ]

  -- root.Remove, of a path that is no directory
  unfoldable pub remove : String → Disk → Outcome
  remove p d = if fault d.clock then (some Failure.broken, tick d) else elim (lookup p d.tree) [
    | none ↦ (some Failure.missing, tick d)
    | some n ↦ (none, record { tree = delete p d.tree; clock = d.clock + 1 })
  ]

  -- root.ReadFile, which follows a symbolic link
  unfoldable pub read_file : String → Disk → Option String × Disk
  read_file p d = if fault d.clock then (none, tick d) else elim (lookup p d.tree) [
    | some (Node.regular mode content) ↦ (some content, tick d)
    | some (Node.directory mode) ↦ (none, tick d)
    | some (Node.other symlink target) ↦ (target, tick d)
    | none ↦ (none, tick d)
  ]
