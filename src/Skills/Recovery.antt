-- ===== src/Skills/Recovery.antt =====
-- pkg/adapters/skillpackages/recovery.go: a fresh copy beside a damaged package, and the file that
-- hides the cache from Git.
pub mod Marker
pub mod Copies
use Prim.Native.String.{len, ◌++◌}
use openlinker_agent_node.Base.{
  ℕ, ◌+◌, String, Bool, true, false, ◌&&◌, List, [], ◌∷◌, Option, none, some, if◌then◌else◌, str_eq,
  ◌==◌, take, has_prefix,
}
use openlinker_agent_node.Base.Result.{Result, ok, err}
use openlinker_agent_node.Skills.Paths.{parent}
use openlinker_agent_node.Skills.Disk.{
  Node, Disk, Failure, Outcome, ◌then_on◌, is_directory, mkdir, open_new, lstat, chmod,
  write_string, link, remove, read_file, tick,
}
use openlinker_agent_node.Skills.Materialize.{has_content, materialize}

-- the entries of the root, in the order of its directory
abbrev pub entries : List (String × Node) → List (String × Node)
entries [] = []
entries ((p, n) ∷ rest) =
    let others = entries rest in if str_eq (parent p) "" then (p, n) ∷ others else others

-- Those that recoverPrivatePackage tries.
abbrev pub candidates : String → List (String × Node) → List String
candidates prefix [] = []
candidates prefix ((name, n) ∷ rest) =
    let others = candidates prefix rest in
    if is_directory (some n) && has_prefix name prefix && len name == len prefix + 32
    then name ∷ others
    else others

abbrev pub Recovered : Type 0
Recovered = Result Failure String × Disk

abbrev pub named : String → Outcome → Recovered
named name (none, d) = (ok name, d)
named name (some f, d) = (err f, d)

abbrev pub marker : String
marker = ".gitignore"

abbrev pub marker_contents : String
marker_contents = "# OpenLinker generated cache; never add package contents\n*\n"

abbrev pub tolerate : Outcome → Outcome
tolerate (some Failure.missing, d) = (none, d)
tolerate (some Failure.exists, d) = (some Failure.exists, d)
tolerate (some Failure.broken, d) = (some Failure.broken, d)
tolerate (none, d) = (none, d)

-- the parameters of Skills.Materialize
module _ (fault : ℕ → Bool) (torn : String) (suffix : ℕ → String) where
  -- A new copy, where no candidate could be completed.
  unfoldable pub new_copy : String → List (String × String) → Disk → Recovered
  new_copy prefix files d =
      let name = prefix ++ suffix d.clock in
      named name
        (mkdir fault name 448 d then_on (λ d'. materialize fault torn suffix false name files d'))

  unfoldable pub recover_from : List String → String → List (String × String) → Disk → Recovered
  unfolding new_copy
  recover_from [] prefix files d = new_copy prefix files d
  recover_from (name ∷ rest) prefix files d =
      let (e, d') = materialize fault torn suffix false name files d in
      elim e [ none ↦ (ok name, d') | some f ↦ recover_from rest prefix files d' ]

  -- recoverPrivatePackage; it opens the root and then reads it
  unfoldable pub recover_private_package :
      String → String → List (String × String) → Disk → Recovered
  unfolding recover_from
  recover_private_package agent_id digest files d =
      let prefix = agent_id ++ ("-" ++ (digest ++ "-recovered-")) in
      if fault d.clock
      then (err Failure.broken, tick d)
      else if fault (d.clock + 1)
      then (err Failure.broken, tick (tick d))
      else recover_from (candidates prefix (take 1024 (entries d.tree))) prefix files
          (tick (tick d))

  unfoldable pub remove_marker : Disk → Outcome
  remove_marker d = tolerate (remove fault marker d)

  unfoldable pub clear_node : Option Node → Disk → Outcome
  unfolding remove_marker
  clear_node (some (Node.regular mode content)) d =
      tolerate (chmod fault marker 384 d) then_on (λ d'. remove_marker d')
  clear_node (some (Node.other true target)) d = remove_marker d
  clear_node (some (Node.other false target)) d = (some Failure.broken, d)
  clear_node (some (Node.directory mode)) d = (some Failure.broken, d)
  clear_node none d = (none, d)

  -- The old marker goes, where there is one.
  unfoldable pub clear_marker : Disk → Outcome
  unfolding clear_node
  clear_marker d =
      let (n, e, d') = lstat fault marker d in
      elim e [
        | none ↦ clear_node n d'
        | some Failure.missing ↦ (none, d')
        | some Failure.exists ↦ (some Failure.exists, d')
        | some Failure.broken ↦ (some Failure.broken, d')
      ]

  -- The link, or the marker of another loader.
  unfoldable pub link_marker : String → Disk → Outcome
  link_marker temporary d =
      let (e, d') = link fault temporary marker d in
      elim e [
        | none ↦ (none, d')
        | some f ↦
            let (read, d'') = read_file fault marker d' in
            if has_content marker_contents read then (none, d'') else (some f, d'')
      ]

  unfoldable pub install_marker : String → Disk → Outcome
  unfolding clear_marker link_marker
  install_marker temporary d =
      (write_string fault torn temporary marker_contents d then_on (λ d'. clear_marker d'))
      then_on (λ d'. link_marker temporary d')

  unfoldable pub write_marker : String → Disk → Outcome
  unfolding install_marker
  write_marker temporary d = open_new fault temporary 384 d then_on (λ d'.
      let (e, done) = install_marker temporary d' in (e, (remove fault temporary done).1))

  -- writeCacheIgnore
  unfoldable pub write_cache_ignore : Disk → Outcome
  unfolding write_marker
  write_cache_ignore d =
      let (read, d') = read_file fault marker d in
      if has_content marker_contents read
      then (none, d')
      else write_marker (".gitignore-" ++ suffix d'.clock) d'
