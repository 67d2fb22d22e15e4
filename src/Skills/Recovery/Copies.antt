-- ===== src/Skills/Recovery/Copies.antt =====
-- The copies of pkg/adapters/skillpackages/recovery.go that replace a damaged package.
use Prim.Native.String.{◌++◌}
use openlinker_agent_node.Base.{
  ℕ, ◌+◌, String, ◌≡◌, refl, sym, inl, inr, Bool, false, List, [], ◌∷◌, none, some, Bool-cases,
  Option-cases, All, take,
}
use openlinker_agent_node.Base.Result.{Result, ok}
use openlinker_agent_node.Skills.Disk.{
  Node, Disk, Failure, Outcome, ◌then_on◌, is_directory, mkdir, tick,
}
use openlinker_agent_node.Skills.Materialize.{materialize}
use openlinker_agent_node.Skills.Materialize.Kept.{
  Holds, then_on-Holds, then_on-none, add_node-Holds, materialize-Holds,
}
use openlinker_agent_node.Skills.Materialize.Installed.{
  IsInstalled, materialize-IsInstalled, then_on-split,
}
use openlinker_agent_node.Skills.Recovery.{
  named, entries, candidates, new_copy, recover_from, recover_private_package,
}

named-tree : (name : String) (o : Outcome) → (named name o).1 ≡ o.1
named-tree name (none, d) = refl
named-tree name (some f, d) = refl

named-ok :
    (name root : String) (o : Outcome) → (named name o).0 ≡ ok root → (o.0 ≡ none) × (name ≡ root)
named-ok name root (none, d) h = (refl, cc)
named-ok name root (some f, d) h = absurd cc

module _ (fault : ℕ → Bool) (torn : String) (suffix : ℕ → String) where
  module _ (p : String) (n : Node) (file : is_directory (some n) ≡ false) where
    new_copy-Holds :
        (prefix : String) (files : List (String × String)) (d : Disk)
        → Holds p n d
        → Holds p n (new_copy fault torn suffix prefix files d).1
    unfolding new_copy mkdir
    new_copy-Holds prefix files d h =
        let name = prefix ++ suffix d.clock in
        let next = λ (d' : Disk). materialize fault torn suffix false name files d' in
        let kept =
          then_on-Holds p n (mkdir fault name 448 d) next
            (add_node-Holds (fault d.clock) p name n (Node.directory 448) d h)
            (λ d' k. materialize-Holds fault torn suffix p n file false name files d' k) in
        rw (named-tree name (mkdir fault name 448 d then_on next)) kept

    recover_from-Holds :
        (names : List String) (prefix : String) (files : List (String × String)) (d : Disk)
        → Holds p n d
        → Holds p n (recover_from fault torn suffix names prefix files d).1
    unfolding recover_from
    recover_from-Holds [] prefix files d h = new_copy-Holds prefix files d h
    recover_from-Holds (name ∷ rest) prefix files d h =
        let o = materialize fault torn suffix false name files d in
        let kept = materialize-Holds fault torn suffix p n file false name files d h in
        elim (Option-cases o.0) [
          | inl done ↦ rw (done, recover_from) kept
          | inr (f, e) ↦ rw (e, recover_from) (recover_from-Holds rest prefix files o.1 kept)
        ]

    -- Recovery changes no file either.
    pub recover_private_package-Holds :
        (agent_id digest : String) (files : List (String × String)) (d : Disk)
        → Holds p n d
        → Holds p n (recover_private_package fault torn suffix agent_id digest files d).1
    unfolding recover_private_package
    recover_private_package-Holds agent_id digest files d h =
        let prefix = agent_id ++ ("-" ++ (digest ++ "-recovered-")) in
        let names = candidates prefix (take 1024 (entries d.tree)) in
        elim (Bool-cases (fault d.clock)) [
          | inl fails ↦ rw fails h
          | inr opens ↦ elim (Bool-cases (fault (d.clock + 1))) [
            | inl fails ↦ rw (opens, fails) h
            | inr reads ↦
                rw (opens, reads) (recover_from-Holds names prefix files (tick (tick d)) h)
          ]
        ]

  new_copy-IsInstalled :
      (prefix root : String) (files : List (String × String)) (d : Disk)
      → (new_copy fault torn suffix prefix files d).0 ≡ ok root
      → All (IsInstalled fault torn suffix root (new_copy fault torn suffix prefix files d).1) files
  unfolding new_copy
  new_copy-IsInstalled prefix root files d h =
      let name = prefix ++ suffix d.clock in
      let next = λ (d' : Disk). materialize fault torn suffix false name files d' in
      let o = mkdir fault name 448 d then_on next in
      let (fine, same) = named-ok name root o h in
      let (d', e, k) = then_on-split (mkdir fault name 448 d) next fine in
      let there = materialize-IsInstalled fault torn suffix false name files d' k in
      rw (named-tree name o, then_on-none next e, sym same) there

  recover_from-IsInstalled :
      (names : List String) (prefix root : String) (files : List (String × String)) (d : Disk)
      → (recover_from fault torn suffix names prefix files d).0 ≡ ok root
      → All
          (IsInstalled fault torn suffix root
            (recover_from fault torn suffix names prefix files d).1)
          files
  unfolding recover_from
  recover_from-IsInstalled [] prefix root files d h = new_copy-IsInstalled prefix root files d h
  recover_from-IsInstalled (name ∷ rest) prefix root files d h =
      let o = materialize fault torn suffix false name files d in
      elim (Option-cases o.0) [
        | inl done ↦
            let same : ◌≡◌ {A = Result Failure String} (ok name) (ok root) =
              rw (done, recover_from) at h in
            let names : name ≡ root = cc in
            let there = materialize-IsInstalled fault torn suffix false name files d done in
            rw (done, recover_from, sym names) there
        | inr (f, e) ↦
            let k : (recover_from fault torn suffix rest prefix files o.1).0 ≡ ok root =
              rw (e, recover_from) at h in
            rw (e, recover_from) (recover_from-IsInstalled rest prefix root files o.1 k)
      ]

  -- What it returns holds every file of the package.
  pub recover_private_package-IsInstalled :
      (agent_id digest root : String) (files : List (String × String)) (d : Disk)
      → (recover_private_package fault torn suffix agent_id digest files d).0 ≡ ok root
      → All
          (IsInstalled fault torn suffix root
            (recover_private_package fault torn suffix agent_id digest files d).1)
          files
  unfolding recover_private_package
  recover_private_package-IsInstalled agent_id digest root files d h =
      let prefix = agent_id ++ ("-" ++ (digest ++ "-recovered-")) in
      let names = candidates prefix (take 1024 (entries d.tree)) in
      let d' = tick (tick d) in
      elim (Bool-cases (fault d.clock)) [
        | inl fails ↦ absurd (cc (rw fails at h))
        | inr opens ↦ elim (Bool-cases (fault (d.clock + 1))) [
          | inl fails ↦ absurd (cc (rw (opens, fails) at h))
          | inr reads ↦
              let k : (recover_from fault torn suffix names prefix files d').0 ≡ ok root =
                rw (opens, reads) at h in
              rw (opens, reads) (recover_from-IsInstalled names prefix root files d' k)
        ]
      ]
