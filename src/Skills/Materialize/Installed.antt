-- ===== src/Skills/Materialize/Installed.antt =====
-- What pkg/adapters/skillpackages has put into the cache when materialize returns no error.
use Prim.Native.String.{◌++◌, compare}
use text.Mathlib.Text.{is_lt}
use openlinker_agent_node.Base.{
  ℕ, String, ◌≡◌, refl, sym, ap, subst, ◌∙◌, inl, inr, Bool, true, false, List, [], ◌∷◌, Option,
  none, some, str_eq, eq_iff, Bool-cases, Option-cases, arith, All,
}
use openlinker_agent_node.Base.Assoc.{lookup, lookup-put}
use openlinker_agent_node.Skills.Paths.{join, parent}
use openlinker_agent_node.Skills.Disk.{
  Node, Disk, Failure, Outcome, ◌then_on◌, lstat, chmod, open_new, write_string, link, remove,
  read_file,
}
use openlinker_agent_node.Skills.Materialize.{
  insert_file, sort_files, dir_mode, file_mode, regular_with, has_content, package_directories,
  existing_matches, fill, settle_link, fill_and_link, finish_new, write_new, place, place_all,
  materialize,
}
use openlinker_agent_node.Skills.Materialize.Kept.{
  Holds, moved, then_on-none, add_node_cases, remove-Holds, lstat-tree, lstat-node,
  existing_matches-tree, place_all-Holds,
}

-- The path holds a regular file with that content.
abbrev pub HasFile : String → String → Disk → Type 0
HasFile p content d = (mode : ℕ) × Holds p (Node.regular mode content) d

-- Where a sequence of calls has no error, neither has the first of them.
pub then_on-split :
    (o : Outcome) (next : Disk → Outcome)
    → (o then_on next).0 ≡ none
    → (d : Disk) × (o ≡ (none, d)) × ((next d).0 ≡ none)
unfolding ◌then_on◌
then_on-split (none, d) next h = (d, refl, h)
then_on-split (some f, d) next h = absurd cc

regular_with-cases :
    (shared : Bool) (n : Option Node)
    → regular_with shared n ≡ true
    → (mode : ℕ) × (content : String) × (n ≡ some (Node.regular mode content))
regular_with-cases shared (some (Node.regular mode content)) h = (mode, content, refl)
regular_with-cases shared (some (Node.directory mode)) h = absurd cc
regular_with-cases shared (some (Node.other symlink target)) h = absurd cc
regular_with-cases shared none h = absurd cc

read_file-regular :
    (fault : ℕ → Bool) (q content read : String) (mode : ℕ) (d : Disk)
    → lookup q d.tree ≡ some (Node.regular mode read)
    → has_content content (read_file fault q d).0 ≡ true
    → read ≡ content
unfolding read_file
read_file-regular fault q content read mode d there h = elim (Bool-cases (fault d.clock)) [
  | inl fails ↦ absurd (cc (rw fails at h))
  | inr works ↦ (eq_iff read content).0 (rw (works, there) at h)
]

module _ (fault : ℕ → Bool) (torn : String) (suffix : ℕ → String) where
  existing_matches-HasFile :
      (shared : Bool) (q content : String) (d : Disk)
      → (existing_matches fault torn suffix shared q content d).0 ≡ none
      → HasFile q content d
  unfolding existing_matches
  existing_matches-HasFile shared q content d h =
      let l = lstat fault q d in
      elim (Bool-cases (regular_with shared l.0)) [
        | inr refused ↦ absurd (cc (rw refused at h))
        | inl fits ↦
            let (mode, read, node) = regular_with-cases shared l.0 fits in
            let there = lstat-node fault q d (Node.regular mode read) node in
            let later : lookup q l.2.tree ≡ some (Node.regular mode read) =
              ap (λ t. lookup q t) (lstat-tree fault q d) ∙ there in
            elim (Bool-cases (has_content content (read_file fault q l.2).0)) [
              | inr different ↦ absurd (cc (rw (fits, different) at h))
              | inl same ↦
                  let e = read_file-regular fault q content read mode l.2 later same in
                  (mode, there ∙ ap (λ s. some (Node.regular mode s)) e)
            ]
      ]

  pub write_string-HasFile :
      (q content : String) (d : Disk)
      → (write_string fault torn q content d).0 ≡ none
      → HasFile q content (write_string fault torn q content d).1
  unfolding write_string
  write_string-HasFile q content d h = elim (Option-cases (lookup q d.tree)) [
    | inl missing ↦ absurd (cc (rw (missing, write_string) at h))
    | inr (Node.directory mode, there) ↦ absurd (cc (rw (there, write_string) at h))
    | inr (Node.other symlink target, there) ↦ absurd (cc (rw (there, write_string) at h))
    | inr (Node.regular mode old, there) ↦ elim (Bool-cases (fault d.clock)) [
      | inl fails ↦ absurd (cc (rw (there, fails, write_string) at h))
      | inr works ↦
          let a = lookup-put q q (Node.regular mode content) d.tree in
          rw (there, works, write_string) (mode, ground (arith, a, eq_iff q q))
    ]
  ]

  -- A link that worked shows the temporary file at a path that had none.
  pub link-HasFile :
      (from to content : String) (d : Disk)
      → HasFile from content d
      → (link fault from to d).0 ≡ none
      → HasFile to content (link fault from to d).1 × (str_eq from to ≡ false)
  unfolding link
  link-HasFile from to content d (mode, there) h =
      let m = Node.regular mode content in
      elim (add_node_cases (fault d.clock) to m d) [
        | inl (f, e) ↦ absurd (cc (rw (there, e, link) at h))
        | inr (missing, e) ↦
            let a = lookup-put to to m d.tree in
            let apart : str_eq from to ≡ false = ground (arith, eq_iff from to, there, missing) in
            (rw (there, e, link) (mode, ground (arith, a, eq_iff to to)), apart)
      ]

  fill-HasFile :
      (mode : ℕ) (q content : String) (d : Disk)
      → (fill fault torn suffix mode q content d).0 ≡ none
      → HasFile q content (fill fault torn suffix mode q content d).1
  unfolding fill
  fill-HasFile mode q content d h =
      let next = λ (d' : Disk). write_string fault torn q content d' in
      let (d', e, k) = then_on-split (chmod fault q mode d) next h in
      rw (then_on-none next e) (write_string-HasFile q content d' k)

  fill_and_link-HasFile :
      (mode : ℕ) (target temporary content : String) (d : Disk)
      → (fill_and_link fault torn suffix mode target temporary content d).0 ≡ none
      → HasFile target content (fill_and_link fault torn suffix mode target temporary content d).1
        × (str_eq temporary target ≡ false)
  unfolding fill_and_link
  fill_and_link-HasFile mode target temporary content d h =
      let next = λ (d' : Disk). link fault temporary target d' in
      let o = fill fault torn suffix mode temporary content d in
      let (d', e, k) = then_on-split o next h in
      let filled = fill-HasFile mode temporary content d (ap (λ (x : Outcome). x.0) e) in
      let there : HasFile temporary content d' = rw e at filled in
      rw (then_on-none next e) (link-HasFile temporary target content d' there k)

  existing_matches-after :
      (shared : Bool) (q content : String) (d : Disk)
      → (existing_matches fault torn suffix shared q content d).0 ≡ none
      → HasFile q content (existing_matches fault torn suffix shared q content d).1
  existing_matches-after shared q content d h =
      let (mode, there) = existing_matches-HasFile shared q content d h in
      let o = existing_matches fault torn suffix shared q content d in
      let same = existing_matches-tree fault torn suffix shared q content d in
      (mode, moved q (Node.regular mode content) d o.1 same there)

  finish_new-HasFile :
      (shared : Bool) (target temporary content : String) (d : Disk)
      → (finish_new fault torn suffix shared target temporary content d).0 ≡ none
      → HasFile target content (finish_new fault torn suffix shared target temporary content d).1
  unfolding finish_new settle_link
  finish_new-HasFile shared target temporary content d h =
      let o = fill_and_link fault torn suffix (file_mode shared) target temporary content d in
      let left = (remove fault temporary o.1).1 in
      elim (Option-cases o.0) [
        | inl linked ↦
            let ((mode, there), apart) =
              fill_and_link-HasFile (file_mode shared) target temporary content d linked in
            let m = Node.regular mode content in
            rw (linked, settle_link) (mode, remove-Holds fault target m temporary o.1 apart there)
        | inr (Failure.exists, e) ↦
            let k : (existing_matches fault torn suffix shared target content left).0 ≡ none =
              rw (e, settle_link) at h in
            rw (e, settle_link) (existing_matches-after shared target content left k)
        | inr (Failure.missing, e) ↦ absurd (cc (rw (e, settle_link) at h))
        | inr (Failure.broken, e) ↦ absurd (cc (rw (e, settle_link) at h))
      ]

  write_new-HasFile :
      (shared : Bool) (target temporary content : String) (d : Disk)
      → (write_new fault torn suffix shared target temporary content d).0 ≡ none
      → HasFile target content (write_new fault torn suffix shared target temporary content d).1
  unfolding write_new
  write_new-HasFile shared target temporary content d h =
      let next = λ (d' : Disk). finish_new fault torn suffix shared target temporary content d' in
      let (d', e, k) = then_on-split (open_new fault temporary (file_mode shared) d) next h in
      rw (then_on-none next e) (finish_new-HasFile shared target temporary content d' k)

  place-HasFile :
      (shared : Bool) (target content : String) (d : Disk)
      → (place fault torn suffix shared target content d).0 ≡ none
      → HasFile target content (place fault torn suffix shared target content d).1
  unfolding place
  place-HasFile shared target content d h =
      let l = lstat fault target d in
      let temporary = target ++ (".pending-" ++ suffix l.2.clock) in
      elim (Option-cases l.1) [
        | inl found ↦
            let k : (existing_matches fault torn suffix shared target content l.2).0 ≡ none =
              rw (found, place) at h in
            rw (found, place) (existing_matches-after shared target content l.2 k)
        | inr (Failure.missing, e) ↦
            let k : (write_new fault torn suffix shared target temporary content l.2).0 ≡ none =
              rw (e, place) at h in
            rw (e, place) (write_new-HasFile shared target temporary content l.2 k)
        | inr (Failure.exists, e) ↦ absurd (cc (rw (e, place) at h))
        | inr (Failure.broken, e) ↦ absurd (cc (rw (e, place) at h))
      ]

  -- The file of the package, a name and its content, is under the package's directory.
  abbrev pub IsInstalled : String → Disk → String × String → Type 0
  IsInstalled root d file = HasFile (join root file.0) file.1 d

  place_all-IsInstalled :
      (shared : Bool) (root : String) (files : List (String × String)) (d : Disk)
      → (place_all fault torn suffix shared root files d).0 ≡ none
      → All (IsInstalled root (place_all fault torn suffix shared root files d).1) files
  unfolding place_all
  place_all-IsInstalled shared root [] d h = tt
  place_all-IsInstalled shared root ((name, content) ∷ rest) d h =
      let target = join root name in
      let made = package_directories fault torn suffix (parent target) (dir_mode shared) d in
      let here = λ (d' : Disk). place fault torn suffix shared target content d' in
      let later = λ (d' : Disk). place_all fault torn suffix shared root rest d' in
      let (d', e, k) = then_on-split (made then_on here) later h in
      let (d0, e0, k0) = then_on-split made here (ap (λ (x : Outcome). x.0) e) in
      let placed = place-HasFile shared target content d0 k0 in
      let end : here d0 ≡ (none, d') = sym (then_on-none here e0) ∙ e in
      let (mode, there) : HasFile target content d' = rw end at placed in
      let m = Node.regular mode content in
      let kept = place_all-Holds fault torn suffix target m refl shared root rest d' there in
      subst (λ (o : Outcome). All (IsInstalled root o.1) ((name, content) ∷ rest))
        (sym (then_on-none later e)) ((mode, kept), place_all-IsInstalled shared root rest d' k)

module _ (P : String × String → Type 0) where
  insert_file-All :
      (file : String × String) (files : List (String × String))
      → All P (insert_file file files)
      → P file × All P files
  insert_file-All (name, content) [] h = h
  insert_file-All (name, content) ((other, old) ∷ rest) h =
      elim (Bool-cases (is_lt (compare other name))) [
        | inl before ↦
            let (first, k) : P (other, old) × All P (insert_file (name, content) rest) =
              rw before at h in
            let (mine, others) = insert_file-All (name, content) rest k in (mine, (first, others))
        | inr after ↦ rw after at h
      ]

  sort_files-All : (files : List (String × String)) → All P (sort_files files) → All P files
  sort_files-All [] h = h
  sort_files-All (file ∷ rest) h =
      let (mine, others) = insert_file-All file (sort_files rest) h in
      (mine, sort_files-All rest others)

-- Where materialize returns no error, every file of the package is a regular file under the
-- package's directory, with exactly its content.
pub materialize-IsInstalled :
    (fault : ℕ → Bool) (torn : String) (suffix : ℕ → String) (shared : Bool) (root : String)
    (files : List (String × String)) (d : Disk)
    → (materialize fault torn suffix shared root files d).0 ≡ none
    → All
        (IsInstalled fault torn suffix root (materialize fault torn suffix shared root files d).1)
        files
unfolding materialize
materialize-IsInstalled fault torn suffix shared root files d h =
    let next = λ (d' : Disk). place_all fault torn suffix shared root (sort_files files) d' in
    let made = package_directories fault torn suffix root (dir_mode shared) d in
    let (d', e, k) = then_on-split made next h in
    let o = next d' in
    rw (then_on-none next e) (
      sort_files-All (IsInstalled fault torn suffix root o.1) files
        (place_all-IsInstalled fault torn suffix shared root (sort_files files) d' k))
