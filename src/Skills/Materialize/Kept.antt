-- ===== src/Skills/Materialize/Kept.antt =====
-- What pkg/adapters/skillpackages leaves alone in the cache.
use Prim.Native.String.{◌++◌}
use openlinker_agent_node.Base.{
  ℕ, ◌%◌, String, ◌≡◌, refl, sym, ap, ◌∙◌, ◌⊎◌, inl, inr, Bool, true, false, List, [], ◌∷◌, Option,
  none, some, str_eq, eq_iff, Bool-cases, Option-cases, arith,
}
use openlinker_agent_node.Base.Assoc.{lookup, lookup-put, lookup-delete}
use openlinker_agent_node.Skills.Paths.{split, join, parent}
use openlinker_agent_node.Skills.Disk.{
  Node, Disk, Failure, Outcome, ◌then_on◌, is_directory, in_directory, add_node, mkdir, open_new,
  lstat, chmod_node, chmod, write_string, link, remove, read_file, tick, write_node,
}
use openlinker_agent_node.Skills.Materialize.{
  sort_files, dir_mode, file_mode, regular_with, has_content, made_or_exists, own_directory,
  directory_step, directories, package_directories, existing_matches, fill, settle_link,
  fill_and_link, finish_new, write_new, place, place_all, materialize,
}

-- The path holds the node `n`.
abbrev pub Holds : String → Node → Disk → Type 0
Holds p n d = lookup p d.tree ≡ some n

pub then_on-Holds :
    (p : String) (n : Node) (o : Outcome) (next : Disk → Outcome)
    → Holds p n o.1
    → ((d : Disk) → Holds p n d → Holds p n (next d).1)
    → Holds p n (o then_on next).1
unfolding ◌then_on◌
then_on-Holds p n (none, d) next h k = k d h
then_on-Holds p n (some f, d) next h k = h

pub then_on-none :
    {o : Outcome} {d : Disk} (next : Disk → Outcome) → o ≡ (none, d) → (o then_on next) ≡ next d
unfolding ◌then_on◌
then_on-none {o} {d} next e = ap (λ x. x then_on next) e

pub then_on-some :
    {o : Outcome} {d : Disk} {f : Failure} (next : Disk → Outcome)
    → o ≡ (some f, d)
    → (o then_on next) ≡ (some f, d)
unfolding ◌then_on◌
then_on-some {o} {d} {f} next e = ap (λ x. x then_on next) e

pub add_node_cases :
    (fails : Bool) (q : String) (m : Node) (d : Disk)
    → ((f : Failure) × (add_node fails q m d ≡ (some f, tick d)))
      ⊎ ((lookup q d.tree ≡ none) × (add_node fails q m d ≡ (none, write_node q m d)))
unfolding add_node
add_node_cases true q m d = inl (Failure.broken, refl)
add_node_cases false q m d = elim (Option-cases (lookup q d.tree)) [
  | inr (old, there) ↦ inl (Failure.exists, rw there refl)
  | inl missing ↦ elim (Bool-cases (in_directory q d)) [
    | inl inside ↦ inr (missing, rw (missing, inside) refl)
    | inr outside ↦ inl (Failure.missing, rw (missing, outside) refl)
  ]
]

pub write_node-Holds :
    (p q : String) (n m : Node) (d : Disk)
    → Holds p n d
    → lookup q d.tree ≡ none
    → Holds p n (write_node q m d)
write_node-Holds p q n m d h missing =
    ground (arith, lookup-put q p m d.tree, eq_iff q p, h, missing)

pub add_node-Holds :
    (fails : Bool) (p q : String) (n m : Node) (d : Disk)
    → Holds p n d
    → Holds p n (add_node fails q m d).1
add_node-Holds fails p q n m d h = elim (add_node_cases fails q m d) [
  | inl (f, e) ↦ rw e h
  | inr (missing, e) ↦ rw e (write_node-Holds p q n m d h missing)
]

module _ (fault : ℕ → Bool) (p : String) (n : Node) where
  pub chmod-Holds :
      (q : String) (mode : ℕ) (d : Disk)
      → str_eq q p ≡ false
      → Holds p n d
      → Holds p n (chmod fault q mode d).1
  unfolding chmod
  chmod-Holds q mode d apart h = elim (Bool-cases (fault d.clock)) [
    | inl fails ↦ rw fails h
    | inr works ↦ elim (Option-cases (lookup q d.tree)) [
      | inl missing ↦ rw (works, missing) h
      | inr (m, there) ↦
          let put_there = lookup-put q p (chmod_node mode m) d.tree in
          rw (works, there) (ground (arith, put_there, apart, h))
    ]
  ]

  pub write_string-Holds :
      (torn q s : String) (d : Disk)
      → str_eq q p ≡ false
      → Holds p n d
      → Holds p n (write_string fault torn q s d).1
  unfolding write_string
  write_string-Holds torn q s d apart h = elim (Option-cases (lookup q d.tree)) [
    | inl missing ↦ rw (missing, write_string) h
    | inr (Node.directory mode, there) ↦ rw (there, write_string) h
    | inr (Node.other symlink target, there) ↦ rw (there, write_string) h
    | inr (Node.regular mode old, there) ↦
        let a = lookup-put q p (Node.regular mode torn) d.tree in
        let b = lookup-put q p (Node.regular mode s) d.tree in
        rw (there, write_string) (ground (arith, a, b, apart, h))
  ]

  pub remove-Holds :
      (q : String) (d : Disk) → str_eq q p ≡ false → Holds p n d → Holds p n (remove fault q d).1
  unfolding remove
  remove-Holds q d apart h = elim (Bool-cases (fault d.clock)) [
    | inl fails ↦ rw fails h
    | inr works ↦ elim (Option-cases (lookup q d.tree)) [
      | inl missing ↦ rw (works, missing) h
      | inr (m, there) ↦
          let gone = lookup-delete q p d.tree in rw (works, there) (ground (arith, gone, apart, h))
    ]
  ]

  pub link-Holds : (from to : String) (d : Disk) → Holds p n d → Holds p n (link fault from to d).1
  unfolding link
  link-Holds from to d h = elim (Option-cases (lookup from d.tree)) [
    | inl missing ↦ rw (missing, link) h
    | inr (m, there) ↦ rw (there, link) (add_node-Holds (fault d.clock) p to n m d h)
  ]

pub lstat-tree : (fault : ℕ → Bool) (q : String) (d : Disk) → (lstat fault q d).2.tree ≡ d.tree
unfolding lstat
lstat-tree fault q d = ground arith

pub lstat-node :
    (fault : ℕ → Bool) (q : String) (d : Disk) (m : Node)
    → (lstat fault q d).0 ≡ some m
    → lookup q d.tree ≡ some m
unfolding lstat
lstat-node fault q d m h = elim (Bool-cases (fault d.clock)) [
  | inl fails ↦ absurd (cc (rw fails at h))
  | inr works ↦ elim (Option-cases (lookup q d.tree)) [
    | inl missing ↦ absurd (cc (rw (works, missing) at h))
    | inr (k, there) ↦ there ∙ rw (works, there) at h
  ]
]

pub read_file-tree :
    (fault : ℕ → Bool) (q : String) (d : Disk) → (read_file fault q d).1.tree ≡ d.tree
unfolding read_file
read_file-tree fault q d = ground arith

pub existing_matches-tree :
    (fault : ℕ → Bool) (torn : String) (suffix : ℕ → String) (shared : Bool) (q content : String)
    (d : Disk)
    → (existing_matches fault torn suffix shared q content d).1.tree ≡ d.tree
unfolding existing_matches
existing_matches-tree fault torn suffix shared q content d =
    let a = lstat-tree fault q d in
    let b = read_file-tree fault q (lstat fault q d).2 in
    let content_fits = has_content content (read_file fault q (lstat fault q d).2).0 in
    elim (Bool-cases (regular_with shared (lstat fault q d).0)) [
      | inr refused ↦ rw refused a
      | inl fits ↦ elim (Bool-cases content_fits) [
        | inl same ↦ rw (fits, same) (b ∙ a)
        | inr different ↦ rw (fits, different) (b ∙ a)
      ]
    ]

pub moved : (p : String) (n : Node) (d e : Disk) → e.tree ≡ d.tree → Holds p n d → Holds p n e
moved p n d e same h = ap (λ t. lookup p t) same ∙ h

-- A path that holds a file, and the operations of one that does not.
module _ (fault : ℕ → Bool) (torn : String) (suffix : ℕ → String) (p : String) (n : Node)
    (file : is_directory (some n) ≡ false) where
  own_directory-Holds :
      (q : String) (mode : ℕ) (d : Disk)
      → Holds p n d
      → Holds p n (own_directory fault torn suffix q mode d).1
  unfolding own_directory
  own_directory-Holds q mode d h =
      let l = lstat fault q d in
      let kept = moved p n d l.2 (lstat-tree fault q d) h in
      elim (Bool-cases (is_directory l.0)) [
        | inr refused ↦ rw refused kept
        | inl dir ↦ elim (Option-cases l.0) [
          | inl missing ↦ absurd (cc (rw missing at dir))
          | inr (m, there) ↦ elim (Bool-cases (str_eq q p)) [
            | inl same ↦
                let paths = (eq_iff q p).0 same in
                let old = lstat-node fault q d m there in
                let node : some n ≡ some m = sym h ∙ ap (λ s. lookup s d.tree) (sym paths) ∙ old in
                absurd (cc (file, node, there, dir))
            | inr apart ↦ rw dir (chmod-Holds fault p n q mode l.2 apart kept)
          ]
        ]
      ]

  directory_step-Holds :
      (q : String) (mode : ℕ) (d : Disk)
      → Holds p n d
      → Holds p n (directory_step fault torn suffix q mode d).1
  unfolding directory_step mkdir
  directory_step-Holds q mode d h =
      let made = add_node-Holds (fault d.clock) p q n (Node.directory (mode % 512)) d h in
      let o = add_node (fault d.clock) q (Node.directory (mode % 512)) d in
      elim (Bool-cases (made_or_exists o.0)) [
        | inl goes ↦ rw goes (own_directory-Holds q mode o.1 made)
        | inr stops ↦ rw stops made
      ]

  directories-Holds :
      (current : String) (parts : List String) (mode : ℕ) (d : Disk)
      → Holds p n d
      → Holds p n (directories fault torn suffix current parts mode d).1
  unfolding directories
  directories-Holds current [] mode d h = h
  directories-Holds current (part ∷ rest) mode d h =
      let q = join current part in
      then_on-Holds p n (directory_step fault torn suffix q mode d)
        (λ d'. directories fault torn suffix q rest mode d') (directory_step-Holds q mode d h)
        (λ d' k. directories-Holds q rest mode d' k)

  pub package_directories-Holds :
      (q : String) (mode : ℕ) (d : Disk)
      → Holds p n d
      → Holds p n (package_directories fault torn suffix q mode d).1
  unfolding package_directories
  package_directories-Holds q mode d h = directories-Holds "" (split q) mode d h

  fill-Holds :
      (mode : ℕ) (q content : String) (d : Disk)
      → str_eq q p ≡ false
      → Holds p n d
      → Holds p n (fill fault torn suffix mode q content d).1
  unfolding fill
  fill-Holds mode q content d apart h =
      then_on-Holds p n (chmod fault q mode d) (λ d'. write_string fault torn q content d')
        (chmod-Holds fault p n q mode d apart h)
        (λ d' k. write_string-Holds fault p n torn q content d' apart k)

  settle_link-Holds :
      (e : Option Failure) (shared : Bool) (target content : String) (d : Disk)
      → Holds p n d
      → Holds p n (settle_link fault torn suffix e shared target content d).1
  unfolding settle_link
  settle_link-Holds none shared target content d h = h
  settle_link-Holds (some Failure.missing) shared target content d h = h
  settle_link-Holds (some Failure.broken) shared target content d h = h
  settle_link-Holds (some Failure.exists) shared target content d h =
      let o = existing_matches fault torn suffix shared target content d in
      let same = existing_matches-tree fault torn suffix shared target content d in
      moved p n d o.1 same h

  finish_new-Holds :
      (shared : Bool) (target temporary content : String) (d : Disk)
      → str_eq temporary p ≡ false
      → Holds p n d
      → Holds p n (finish_new fault torn suffix shared target temporary content d).1
  unfolding finish_new fill_and_link
  finish_new-Holds shared target temporary content d apart h =
      let mode = file_mode shared in
      let o = fill_and_link fault torn suffix mode target temporary content d in
      let kept =
        then_on-Holds p n (fill fault torn suffix mode temporary content d)
          (λ d'. link fault temporary target d') (fill-Holds mode temporary content d apart h)
          (λ d' k. link-Holds fault p n temporary target d' k) in
      let left = (remove fault temporary o.1).1 in
      settle_link-Holds o.0 shared target content left
        (remove-Holds fault p n temporary o.1 apart kept)

  write_new-Holds :
      (shared : Bool) (target temporary content : String) (d : Disk)
      → Holds p n d
      → Holds p n (write_new fault torn suffix shared target temporary content d).1
  unfolding write_new open_new
  write_new-Holds shared target temporary content d h =
      let m = Node.regular (file_mode shared) "" in
      let next = λ (d' : Disk). finish_new fault torn suffix shared target temporary content d' in
      elim (add_node_cases (fault d.clock) temporary m d) [
        | inl (f, e) ↦ rw (then_on-some next e) h
        | inr (missing, e) ↦
            let apart : str_eq temporary p ≡ false =
              ground (arith, eq_iff temporary p, h, missing) in
            let opened = write_node-Holds p temporary n m d h missing in
            rw (then_on-none next e) (
              finish_new-Holds shared target temporary content (write_node temporary m d) apart
                opened)
      ]

  place-Holds :
      (shared : Bool) (target content : String) (d : Disk)
      → Holds p n d
      → Holds p n (place fault torn suffix shared target content d).1
  unfolding place
  place-Holds shared target content d h =
      let l = lstat fault target d in
      let kept = moved p n d l.2 (lstat-tree fault target d) h in
      let temporary = target ++ (".pending-" ++ suffix l.2.clock) in
      elim (Option-cases l.1) [
        | inl found ↦
            let o = existing_matches fault torn suffix shared target content l.2 in
            let same = existing_matches-tree fault torn suffix shared target content l.2 in
            rw (found, place) (moved p n l.2 o.1 same kept)
        | inr (Failure.missing, e) ↦
            rw (e, place) (write_new-Holds shared target temporary content l.2 kept)
        | inr (Failure.exists, e) ↦ rw (e, place) kept
        | inr (Failure.broken, e) ↦ rw (e, place) kept
      ]

  pub place_all-Holds :
      (shared : Bool) (root : String) (files : List (String × String)) (d : Disk)
      → Holds p n d
      → Holds p n (place_all fault torn suffix shared root files d).1
  unfolding place_all
  place_all-Holds shared root [] d h = h
  place_all-Holds shared root ((name, content) ∷ rest) d h =
      let target = join root name in
      let mode = dir_mode shared in
      let made = package_directories fault torn suffix (parent target) mode d in
      then_on-Holds p n (made then_on (λ d'. place fault torn suffix shared target content d'))
        (λ d'. place_all fault torn suffix shared root rest d')
        (then_on-Holds p n made (λ d'. place fault torn suffix shared target content d')
          (package_directories-Holds (parent target) mode d h)
          (λ d' k. place-Holds shared target content d' k))
        (λ d' k. place_all-Holds shared root rest d' k)

  -- Whatever materialize meets and returns, a path that held a file or another thing that is no
  -- directory still holds it, with its content and its permissions.
  pub materialize-Holds :
      (shared : Bool) (root : String) (files : List (String × String)) (d : Disk)
      → Holds p n d
      → Holds p n (materialize fault torn suffix shared root files d).1
  unfolding materialize
  materialize-Holds shared root files d h =
      then_on-Holds p n (package_directories fault torn suffix root (dir_mode shared) d)
        (λ d'. place_all fault torn suffix shared root (sort_files files) d')
        (package_directories-Holds root (dir_mode shared) d h)
        (λ d' k. place_all-Holds shared root (sort_files files) d' k)
