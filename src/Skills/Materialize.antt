-- ===== src/Skills/Materialize.antt =====
-- How pkg/adapters/skillpackages puts the files of a package into the cache: materialize and
-- packageDirectories of packages.go, recovery.go.
pub mod Kept
pub mod Installed
use Prim.Native.String.{compare, len, ◌++◌}
use openlinker_agent_node.Base.{
  ℕ, ◌+◌, ◌%◌, String, Bool, true, false, not, ◌&&◌, ◌||◌, List, [], ◌∷◌, Option, none, some,
  if◌then◌else◌, str_eq, ◌==◌, take, has_prefix, map,
}
use openlinker_agent_node.Base.Assoc.{lookup}
use openlinker_agent_node.Skills.Paths.{split, join, parent}
use openlinker_agent_node.Skills.Disk.{
  Node, Disk, Failure, Outcome, ◌then_on◌, is_directory, mkdir, open_new, lstat, chmod,
  write_string, link, remove, read_file, tick,
}
use text.Mathlib.Text.{is_lt}

-- slices.Sort on the names of the files, each with its content
abbrev pub insert_file : String × String → List (String × String) → List (String × String)
insert_file (name, content) [] = (name, content) ∷ []
insert_file (name, content) ((other, old) ∷ rest) =
    let later = insert_file (name, content) rest in
    if is_lt (compare other name)
    then (other, old) ∷ later
    else (name, content) ∷ (other, old) ∷ rest

abbrev pub sort_files : List (String × String) → List (String × String)
sort_files [] = []
sort_files (file ∷ rest) = insert_file file (sort_files rest)

-- os.ModeSetgid|0750 and 0700
abbrev pub dir_mode : Bool → ℕ
dir_mode shared = if shared then 0x400000 + 488 else 448

-- 0440 and 0400
abbrev pub file_mode : Bool → ℕ
file_mode shared = if shared then 288 else 256

abbrev pub regular_with : Bool → Option Node → Bool
regular_with shared (some (Node.regular mode content)) =
    not (shared && not (mode % 512 == file_mode shared))
regular_with shared _ = false

abbrev pub has_content : String → Option String → Bool
has_content content none = false
has_content content (some read) = str_eq read content

-- Errors of Mkdir that stop packageDirectories.
abbrev pub made_or_exists : Option Failure → Bool
made_or_exists none = true
made_or_exists (some Failure.exists) = true
made_or_exists (some Failure.missing) = false
made_or_exists (some Failure.broken) = false

-- `fault` is that of Skills.Disk, `torn` what a failed write leaves, and `suffix` the
-- randomPackageSuffix that is drawn before the n-th operation.
module _ (fault : ℕ → Bool) (torn : String) (suffix : ℕ → String) where
  -- Chmod of a directory that Lstat has just shown, and the error where it showed no directory
  unfoldable pub own_directory : String → ℕ → Disk → Outcome
  own_directory p mode d =
      let (n, e, d') = lstat fault p d in
      if is_directory n then chmod fault p mode d' else (some Failure.broken, d')

  unfoldable pub directory_step : String → ℕ → Disk → Outcome
  unfolding own_directory
  directory_step p mode d =
      let (e, d') = mkdir fault p (mode % 512) d in
      if made_or_exists e then own_directory p mode d' else (e, d')

  unfoldable pub directories : String → List String → ℕ → Disk → Outcome
  unfolding directory_step
  directories current [] mode d = (none, d)
  directories current (part ∷ rest) mode d =
      let p = join current part in
      directory_step p mode d then_on (λ d'. directories p rest mode d')

  -- packageDirectories
  unfoldable pub package_directories : String → ℕ → Disk → Outcome
  unfolding directories
  package_directories p mode d = directories "" (split p) mode d

  -- existingMatches
  unfoldable pub existing_matches : Bool → String → String → Disk → Outcome
  existing_matches shared target content d =
      let (n, e, d') = lstat fault target d in
      if regular_with shared n
      then (let (read, d'') = read_file fault target d' in
          if has_content content read then (none, d'') else (some Failure.broken, d''))
      else (some Failure.broken, d')

  -- The temporary file from Chmod to Close.
  unfoldable pub fill : ℕ → String → String → Disk → Outcome
  fill mode temporary content d =
      chmod fault temporary mode d then_on (λ d'. write_string fault torn temporary content d')

  -- What became of the link: existingMatches where another file is there.
  unfoldable pub settle_link : Option Failure → Bool → String → String → Disk → Outcome
  unfolding existing_matches
  settle_link (some Failure.exists) shared target content d =
      existing_matches shared target content d
  settle_link (some Failure.missing) shared target content d = (some Failure.missing, d)
  settle_link (some Failure.broken) shared target content d = (some Failure.broken, d)
  settle_link none shared target content d = (none, d)

  unfoldable pub fill_and_link : ℕ → String → String → String → Disk → Outcome
  unfolding fill
  fill_and_link mode target temporary content d =
      fill mode temporary content d then_on (λ d'. link fault temporary target d')

  -- from Chmod of the temporary file on
  unfoldable pub finish_new : Bool → String → String → String → Disk → Outcome
  unfolding fill_and_link settle_link
  finish_new shared target temporary content d =
      let (e, linked) = fill_and_link (file_mode shared) target temporary content d in
      let (ignored, left) = remove fault temporary linked in
      settle_link e shared target content left

  -- a file that is not there yet: a temporary one, and its link
  unfoldable pub write_new : Bool → String → String → String → Disk → Outcome
  unfolding finish_new
  write_new shared target temporary content d =
      open_new fault temporary (file_mode shared) d
      then_on (λ d'. finish_new shared target temporary content d')

  -- One file of materialize, after its directories.
  unfoldable pub place : Bool → String → String → Disk → Outcome
  unfolding existing_matches write_new
  place shared target content d =
      let (n, e, d') = lstat fault target d in
      elim e [
        | none ↦ existing_matches shared target content d'
        | some Failure.missing ↦
            write_new shared target (target ++ (".pending-" ++ suffix d'.clock)) content d'
        | some Failure.exists ↦ (some Failure.exists, d')
        | some Failure.broken ↦ (some Failure.broken, d')
      ]

  unfoldable pub place_all : Bool → String → List (String × String) → Disk → Outcome
  unfolding package_directories place
  place_all shared root [] d = (none, d)
  place_all shared root ((name, content) ∷ rest) d =
      let target = join root name in
      (package_directories (parent target) (dir_mode shared) d
        then_on (λ d'. place shared target content d'))
      then_on (λ d'. place_all shared root rest d')

  -- materialize
  unfoldable pub materialize : Bool → String → List (String × String) → Disk → Outcome
  unfolding package_directories place_all
  materialize shared root files d =
      package_directories root (dir_mode shared) d
      then_on (λ d'. place_all shared root (sort_files files) d')
