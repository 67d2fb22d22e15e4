-- ===== src/Skills/Recovery/Marker.antt =====
-- The marker of pkg/adapters/skillpackages/recovery.go.
use Prim.Native.String.{◌++◌}
use openlinker_agent_node.Base.{
  ℕ, String, ◌≡◌, refl, inl, inr, Bool, true, false, Option, none, some, str_eq, eq_iff, Bool-cases,
  Option-cases, arith,
}
use openlinker_agent_node.Skills.Disk.{
  Node, Disk, Failure, Outcome, ◌then_on◌, open_new, lstat, chmod, write_string, link, remove,
  read_file, write_node,
}
use openlinker_agent_node.Skills.Materialize.{has_content}
use openlinker_agent_node.Skills.Materialize.Kept.{
  Holds, moved, then_on-Holds, then_on-none, then_on-some, add_node_cases, write_node-Holds,
  chmod-Holds, write_string-Holds, remove-Holds, link-Holds, lstat-tree, read_file-tree,
}
use openlinker_agent_node.Skills.Recovery.{
  marker, marker_contents, tolerate, remove_marker, clear_node, clear_marker, link_marker,
  install_marker, write_marker, write_cache_ignore,
}

tolerate-tree : (o : Outcome) → (tolerate o).1 ≡ o.1
tolerate-tree (none, d) = refl
tolerate-tree (some Failure.exists, d) = refl
tolerate-tree (some Failure.missing, d) = refl
tolerate-tree (some Failure.broken, d) = refl

module _ (fault : ℕ → Bool) (torn : String) (suffix : ℕ → String) where
  -- a path other than the marker's
  module _ (p : String) (n : Node) (elsewhere : str_eq marker p ≡ false) where
    remove_marker-Holds : (d : Disk) → Holds p n d → Holds p n (remove_marker fault torn suffix d).1
    unfolding remove_marker
    remove_marker-Holds d h =
        rw (tolerate-tree (remove fault marker d)) (remove-Holds fault p n marker d elsewhere h)

    clear_node-Holds :
        (m : Option Node) (d : Disk) → Holds p n d → Holds p n (clear_node fault torn suffix m d).1
    unfolding clear_node
    clear_node-Holds none d h = h
    clear_node-Holds (some (Node.directory mode)) d h = h
    clear_node-Holds (some (Node.other false target)) d h = h
    clear_node-Holds (some (Node.other true target)) d h = remove_marker-Holds d h
    clear_node-Holds (some (Node.regular mode content)) d h =
        let o = chmod fault marker 384 d in
        let kept = chmod-Holds fault p n marker 384 d elsewhere h in
        then_on-Holds p n (tolerate o) (λ d'. remove_marker fault torn suffix d')
          (rw (tolerate-tree o) kept) (λ d' k. remove_marker-Holds d' k)

    pub clear_marker-Holds :
        (d : Disk) → Holds p n d → Holds p n (clear_marker fault torn suffix d).1
    unfolding clear_marker
    clear_marker-Holds d h =
        let l = lstat fault marker d in
        let kept = moved p n d l.2 (lstat-tree fault marker d) h in
        elim (Option-cases l.1) [
          | inl found ↦ rw (found, clear_marker) (clear_node-Holds l.0 l.2 kept)
          | inr (Failure.missing, e) ↦ rw (e, clear_marker) kept
          | inr (Failure.exists, e) ↦ rw (e, clear_marker) kept
          | inr (Failure.broken, e) ↦ rw (e, clear_marker) kept
        ]

    link_marker-Holds :
        (temporary : String) (d : Disk)
        → Holds p n d
        → Holds p n (link_marker fault torn suffix temporary d).1
    unfolding link_marker
    link_marker-Holds temporary d h =
        let o = link fault temporary marker d in
        let kept = link-Holds fault p n temporary marker d h in
        let r = read_file fault marker o.1 in
        let read = moved p n o.1 r.1 (read_file-tree fault marker o.1) kept in
        elim (Option-cases o.0) [
          | inl linked ↦ rw (linked, link_marker) kept
          | inr (f, e) ↦ elim (Bool-cases (has_content marker_contents r.0)) [
            | inl same ↦ rw (e, link_marker, same) read
            | inr different ↦ rw (e, link_marker, different) read
          ]
        ]

    install_marker-Holds :
        (temporary : String) (d : Disk)
        → str_eq temporary p ≡ false
        → Holds p n d
        → Holds p n (install_marker fault torn suffix temporary d).1
    unfolding install_marker
    install_marker-Holds temporary d apart h =
        let written = write_string fault torn temporary marker_contents d in
        let cleared = written then_on (λ d'. clear_marker fault torn suffix d') in
        then_on-Holds p n cleared (λ d'. link_marker fault torn suffix temporary d')
          (then_on-Holds p n written (λ d'. clear_marker fault torn suffix d')
            (write_string-Holds fault p n torn temporary marker_contents d apart h)
            (λ d' k. clear_marker-Holds d' k))
          (λ d' k. link_marker-Holds temporary d' k)

    write_marker-Holds :
        (temporary : String) (d : Disk)
        → Holds p n d
        → Holds p n (write_marker fault torn suffix temporary d).1
    unfolding write_marker open_new
    write_marker-Holds temporary d h =
        let m = Node.regular 384 "" in
        let next : Disk → Outcome = λ d'.
          let o = install_marker fault torn suffix temporary d' in
          (o.0, (remove fault temporary o.1).1) in
        elim (add_node_cases (fault d.clock) temporary m d) [
          | inl (f, e) ↦ rw (then_on-some next e) h
          | inr (missing, e) ↦
              let apart : str_eq temporary p ≡ false =
                ground (arith, eq_iff temporary p, h, missing) in
              let d' = write_node temporary m d in
              let opened = write_node-Holds p temporary n m d h missing in
              let o = install_marker fault torn suffix temporary d' in
              let kept = install_marker-Holds temporary d' apart opened in
              rw (then_on-none next e) (remove-Holds fault p n temporary o.1 apart kept)
        ]

    -- Whatever it meets, writeCacheIgnore changes no other path that holds something.
    pub write_cache_ignore-Holds :
        (d : Disk) → Holds p n d → Holds p n (write_cache_ignore fault torn suffix d).1
    unfolding write_cache_ignore
    write_cache_ignore-Holds d h =
        let r = read_file fault marker d in
        let kept = moved p n d r.1 (read_file-tree fault marker d) h in
        elim (Bool-cases (has_content marker_contents r.0)) [
          | inl same ↦ rw same kept
          | inr different ↦
              rw different (write_marker-Holds (".gitignore-" ++ suffix r.1.clock) r.1 kept)
        ]
