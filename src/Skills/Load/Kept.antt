-- ===== src/Skills/Load/Kept.antt =====
-- What Load of pkg/adapters/skillpackages/packages.go leaves alone in the cache.
use Prim.Native.String.{String}
use openlinker_agent_node.Base.{
  ℕ, ◌≡◌, refl, ap, ◌∙◌, inl, inr, Bool, true, false, not, List, [], ◌∷◌, Option, none, some,
  Bool-cases, Option-cases, if◌then◌else◌, ◌==◌, str_eq, ◌++◌, ◌||◌,
}
use openlinker_agent_node.Base.Assoc.{lookup}
use openlinker_agent_node.Base.Result.{Result, ok, err}
use openlinker_agent_node.Patterns.{is_uuid}
use openlinker_agent_node.Skills.{Version, Snapshot, Contents, Package, Cache}
use openlinker_agent_node.Skills.Paths.{join}
use openlinker_agent_node.Skills.Disk.{Node, Disk, Failure, is_directory}
use openlinker_agent_node.Skills.Materialize.{materialize}
use openlinker_agent_node.Skills.Materialize.Kept.{Holds, materialize-Holds}
use openlinker_agent_node.Skills.Recovery.{marker, recover_private_package, write_cache_ignore}
use openlinker_agent_node.Skills.Recovery.Copies.{recover_private_package-Holds}
use openlinker_agent_node.Skills.Recovery.Marker.{write_cache_ignore-Holds}
use openlinker_agent_node.Skills.Decode.{Refusal}
use openlinker_agent_node.Skills.Load.{
  Event, LoadError, World, Setup, LoadRequest, Receipt, Loading, recovered_as, after_materialize,
  place_bundle, packaged, note_recovered, place_bundles, place_packages, fail_load, conclude_load,
  command_failure, cache_directory, receipt_of, load_decoded, load_snapshot, load,
}

pub recovered_as-disk : (r : Result Failure String × Disk) → (recovered_as r).1 ≡ r.1
recovered_as-disk (ok name, d) = refl
recovered_as-disk (err f, d) = refl

-- the outcome of the loop over the bundles
abbrev pub Bundles : Type 0
Bundles = Result LoadError (List Package × List (String × String)) × Disk

-- Two files of one content, whatever their permissions, or links to the same.
abbrev pub SameContent : Node → Node → Type 0
SameContent (Node.directory mode) (Node.directory mode') = Unit
SameContent (Node.regular mode content) (Node.regular mode' content') = content ≡ content'
SameContent (Node.other symlink target) (Node.other symlink' target') =
    (symlink ≡ symlink') × (target ≡ target')
SameContent _ _ = ⊥

SameContent-refl : (n : Node) → SameContent n n
SameContent-refl (Node.directory mode) = tt
SameContent-refl (Node.regular mode content) = refl
SameContent-refl (Node.other symlink target) = (refl, refl)

module _ (fault : ℕ → Bool) (torn : String) (suffix : ℕ → String) (p : String) (n : Node)
    (file : is_directory (some n) ≡ false) where
  after_materialize-Holds :
      (shared : Bool) (agent_id : String) (v : Version) (b : Contents) (e : Option Failure)
      (d : Disk)
      → Holds p n d
      → Holds p n (after_materialize fault torn suffix shared agent_id v b e d).1
  unfolding after_materialize
  after_materialize-Holds shared agent_id v b none d h = h
  after_materialize-Holds true agent_id v b (some f) d h = h
  after_materialize-Holds false agent_id v b (some f) d h =
      let r = recover_private_package fault torn suffix agent_id v.digest b.files d in
      let kept =
        recover_private_package-Holds fault torn suffix p n file agent_id v.digest b.files d h in
      rw (recovered_as-disk r) kept

  pub place_bundle-Holds :
      (shared : Bool) (agent_id : String) (v : Version) (b : Contents) (d : Disk)
      → Holds p n d
      → Holds p n (place_bundle fault torn suffix shared agent_id v b d).1
  unfolding place_bundle
  place_bundle-Holds shared agent_id v b d h =
      let relative = join agent_id v.digest in
      let o = materialize fault torn suffix shared relative b.files d in
      let kept = materialize-Holds fault torn suffix p n file shared relative b.files d h in
      after_materialize-Holds shared agent_id v b o.0 o.1 kept

  pub place_bundles-Holds :
      (ended : ℕ → Bool) (shared : Bool) (agent_id directory : String) (vs : List Version)
      (bs : List Contents) (packages : List Package) (copies : List (String × String)) (d : Disk)
      → Holds p n d
      → Holds p n
          (place_bundles fault torn suffix ended shared agent_id directory vs bs
            (packages, copies)
            d).1
  unfolding place_bundles
  place_bundles-Holds ended shared agent_id directory [] bs packages copies d h = h
  place_bundles-Holds ended shared agent_id directory (v ∷ vs) [] packages copies d h = h
  place_bundles-Holds ended shared agent_id directory (v ∷ vs) (b ∷ bs) packages copies d h =
      let o = place_bundle fault torn suffix shared agent_id v b d in
      let kept = place_bundle-Holds shared agent_id v b d h in
      elim (Bool-cases (ended d.clock)) [
        | inl stop ↦ rw (stop, place_bundles) h
        | inr go ↦ elim (Option-cases o.0) [
          | inl bad ↦ rw (go, place_bundles, bad) kept
          | inr ((relative, copied), e) ↦
              rw (go, place_bundles, e)
                (place_bundles-Holds ended shared agent_id directory vs bs
                  (packages ++ (packaged fault torn suffix directory b relative ∷ []))
                  (note_recovered fault torn suffix copied v.package_id relative copies) o.1 kept)
        ]
      ]

  place_packages-Holds :
      (ended : ℕ → Bool) (cache : Cache) (agent_id directory : String) (vs : List Version)
      (bs : List Contents) (d : Disk)
      → str_eq marker p ≡ false
      → Holds p n d
      → Holds p n (place_packages fault torn suffix ended cache agent_id directory vs bs d).1
  unfolding place_packages
  place_packages-Holds ended cache agent_id directory vs bs d elsewhere h =
      let shared = not (cache.group_id == 0) in
      let private = str_eq cache.directory "" in
      let o = if private then write_cache_ignore fault torn suffix d else (none, d) in
      let kept : Holds p n o.1 = elim (Bool-cases private) [
        | inl new ↦ rw new (write_cache_ignore-Holds fault torn suffix p n elsewhere d h)
        | inr given ↦ rw given h
      ] in
      elim (Option-cases o.0) [
        | inl fine ↦
            rw (fine, place_packages)
              (place_bundles-Holds ended shared agent_id directory vs bs [] [] o.1 kept)
        | inr (f, e) ↦ rw (e, place_packages) kept
      ]

module _ (emits : Event → Bool) (sha256 : String → String) (encode_versions : List Version → String)
    (encode_copies : List (String × String) → String) where
  pub fail_load-disk :
      (r : Receipt) (code : String) (w : World)
      → (fail_load emits sha256 encode_versions encode_copies r code w).1.disk ≡ w.disk
  unfolding fail_load
  fail_load-disk r code w = elim (Bool-cases (emits (Event.packages_failed r code))) [
    | inl sent ↦ rw sent refl
    | inr lost ↦ rw lost refl
  ]

  conclude_load-disk :
      (vs : List Version) (o : Bundles) (events : List Event)
      → (conclude_load emits sha256 encode_versions encode_copies vs o events).1.disk ≡ o.1
  unfolding conclude_load
  conclude_load-disk vs (err (LoadError.failed code), d) events =
      fail_load-disk (receipt_of vs) code (record { disk = d; events = events })
  conclude_load-disk vs (err (LoadError.refused e), d) events = refl
  conclude_load-disk vs (err LoadError.untrusted, d) events = refl
  conclude_load-disk vs (err LoadError.no_channel, d) events = refl
  conclude_load-disk vs (err LoadError.emit_failed, d) events = refl
  conclude_load-disk vs (err LoadError.cancelled, d) events = refl
  conclude_load-disk vs (ok (packages, copies), d) events =
      elim (Bool-cases (emits (Event.packages_loaded (receipt_of vs)))) [
        | inl sent ↦ rw sent refl
        | inr lost ↦ rw lost refl
      ]

module _ (fault : ℕ → Bool) (torn : String) (suffix : ℕ → String) (emits : Event → Bool)
    (sha256 : String → String) (encode_versions : List Version → String)
    (encode_copies : List (String × String) → String) (p : String) (n : Node)
    (file : is_directory (some n) ≡ false) (elsewhere : str_eq marker p ≡ false) (ended : ℕ → Bool)
    (setup : Setup) (cache : Cache) (workspace : String) (q : LoadRequest) where
  abbrev HoldsAfter : {A : Type 0} → Loading A → Type 0
  HoldsAfter o = Holds p n o.1.disk

  load_decoded-Holds :
      (vs : List Version) (bs : List Contents) (w : World)
      → Holds p n w.disk
      → HoldsAfter (
          load_decoded fault torn suffix emits sha256 encode_versions encode_copies ended setup
            cache workspace q vs bs w)
  unfolding load_decoded
  load_decoded-Holds vs bs w h =
      let failing = λ (code : String).
        fail_load-disk emits sha256 encode_versions encode_copies (receipt_of vs) code w in
      elim (Option-cases (command_failure q bs)) [
        | inr (code, e) ↦
            rw (e, load_decoded) (ap (λ (d : Disk). lookup p d.tree) (failing code) ∙ h)
        | inl fine ↦ elim (Option-cases (cache_directory setup cache workspace)) [
          | inl nowhere ↦
              rw (fine, load_decoded, nowhere)
                (ap (λ (d : Disk). lookup p d.tree) (failing "package_materialization_failed") ∙ h)
          | inr (directory, e) ↦
              let o =
                place_packages fault torn suffix ended cache q.agent_id directory vs bs w.disk in
              let same =
                conclude_load-disk emits sha256 encode_versions encode_copies vs o w.events in
              let kept =
                place_packages-Holds fault torn suffix p n file ended cache q.agent_id directory vs
                  bs w.disk elsewhere h in
              rw (fine, load_decoded, e) (ap (λ (d : Disk). lookup p d.tree) same ∙ kept)
        ]
      ]

  load_snapshot-Holds :
      (vs : List Version) (bs : List Contents) (w : World)
      → Holds p n w.disk
      → HoldsAfter (
          load_snapshot fault torn suffix emits sha256 encode_versions encode_copies ended setup
            cache workspace q vs bs w)
  unfolding load_snapshot
  load_snapshot-Holds vs [] w h = h
  load_snapshot-Holds vs (b ∷ bs) w h =
      elim (Bool-cases (not q.trusted || not (is_uuid q.agent_id))) [
        | inl bad ↦ rw bad h
        | inr good ↦ elim (Bool-cases (not q.has_channel)) [
          | inl mute ↦ rw (good, mute) h
          | inr heard ↦ rw (good, heard) (load_decoded-Holds vs (b ∷ bs) w h)
        ]
      ]

  load-Holds :
      (decoded : Option (Result Refusal (Snapshot × List Contents))) (w : World)
      → Holds p n w.disk
      → Holds p n
          (load fault torn suffix emits sha256 encode_versions encode_copies ended setup cache
            workspace q decoded w).1.disk
  unfolding load
  load-Holds none w h = h
  load-Holds (some (err e)) w h = h
  load-Holds (some (ok (s, bs))) w h = load_snapshot-Holds s.bundles bs w h

  -- Whatever Load meets and returns, with any failures of the disk, every path below the cache
  -- that held a file or a link still holds one, with the same content; only the generated
  -- .gitignore can change.
  pub load_keeps :
      (decoded : Option (Result Refusal (Snapshot × List Contents))) (w : World)
      → Holds p n w.disk
      → (m : Node) × SameContent n m
        × Holds p m
            (load fault torn suffix emits sha256 encode_versions encode_copies ended setup cache
              workspace q decoded w).1.disk
  load_keeps decoded w h = (n, SameContent-refl n, load-Holds decoded w h)
