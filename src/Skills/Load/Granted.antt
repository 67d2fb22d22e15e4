-- ===== src/Skills/Load/Granted.antt =====
-- A run that Load of pkg/adapters/skillpackages/packages.go gives packages.
use Prim.Native.String.{String}
use openlinker_agent_node.Base.{
  ℕ, ◌≡◌, refl, sym, ap, subst, ◌⊎◌, inl, inr, Bool, true, false, not, List, [], ◌∷◌, Option, none,
  some, Bool-cases, Option-cases, if◌then◌else◌, ◌==◌, str_eq, ◌++◌, ◌||◌, length, arith,
}
use openlinker_agent_node.Base.Result.{Result, ok, err}
use openlinker_agent_node.Patterns.{is_uuid}
use openlinker_agent_node.Skills.{Version, Snapshot, Contents, Package, Cache}
use openlinker_agent_node.Skills.Disk.{Disk}
use openlinker_agent_node.Skills.Recovery.{write_cache_ignore}
use openlinker_agent_node.Skills.Decode.{decode}
use openlinker_agent_node.Skills.Decode.Pinned.{ArePinned, decode-ArePinned}
use openlinker_agent_node.Skills.Load.{
  Event, LoadError, LoadedPackages, World, Setup, LoadRequest, Receipt, place_packages, fail_load,
  conclude_load, selection_digest, command_failure, cache_directory, receipt_of, load_decoded,
  load_snapshot, load,
}
use openlinker_agent_node.Skills.Load.Kept.{Bundles}
use openlinker_agent_node.Skills.Load.Installed.{ArePlaced, place_bundles-ArePlaced}

ArePinned-length :
    (sha256 : String → String) (contents : String → Option Contents) (provider : String)
    (vs : List Version) (bs : List Contents)
    → ArePinned sha256 contents provider vs bs
    → length vs ≡ length bs
ArePinned-length sha256 contents provider [] [] h = refl
ArePinned-length sha256 contents provider [] (b ∷ bs) h = absurd cc
ArePinned-length sha256 contents provider (v ∷ vs) [] h = absurd cc
ArePinned-length sha256 contents provider (v ∷ vs) (b ∷ bs) (p, h) =
    omega (arith, ArePinned-length sha256 contents provider vs bs h)

ok_inj : {E A : Type 0} {a b : A} → ◌≡◌ {A = Result E A} (ok a) (ok b) → a ≡ b
ok_inj h = cc

module _ (fault : ℕ → Bool) (torn : String) (suffix : ℕ → String) where
  place_packages-ArePlaced :
      (ended : ℕ → Bool) (cache : Cache) (agent_id directory : String) (vs : List Version)
      (bs : List Contents) (all : List Package) (more : List (String × String)) (d : Disk)
      → length vs ≡ length bs
      → (place_packages fault torn suffix ended cache agent_id directory vs bs d).0 ≡ ok (all, more)
      → ArePlaced fault torn suffix directory
          (place_packages fault torn suffix ended cache agent_id directory vs bs d).1
          bs
          all
  unfolding place_packages
  place_packages-ArePlaced ended cache agent_id directory vs bs all more d l h =
      let shared = not (cache.group_id == 0) in
      let private = str_eq cache.directory "" in
      let o = if private then write_cache_ignore fault torn suffix d else (none, d) in
      elim (Option-cases o.0) [
        | inr (f, e) ↦ absurd (cc (rw (e, place_packages) at h))
        | inl fine ↦
            let k = rw (fine, place_packages) at h in
            let (new, joined, placed) =
              place_bundles-ArePlaced fault torn suffix ended shared agent_id directory vs bs [] all
                [] more o.1 l k in
            rw (fine, place_packages, joined) placed
      ]

module _ (emits : Event → Bool) (sha256 : String → String) (encode_versions : List Version → String)
    (encode_copies : List (String × String) → String) where
  fail_load-ok :
      (receipt : Receipt) (code : String) (w : World) (r : LoadedPackages)
      → (fail_load emits sha256 encode_versions encode_copies receipt code w).0 ≡ ok r
      → ◌≡◌ {A = Bool} false true
  unfolding fail_load
  fail_load-ok receipt code w r h = elim (Bool-cases (emits (Event.packages_failed receipt code))) [
    | inl sent ↦ absurd (cc (rw sent at h))
    | inr lost ↦ absurd (cc (rw lost at h))
  ]

  -- The end of a run with packages: what the loop returned, and one more event.
  record Concluded (vs : List Version) (o : Bundles) (events : List Event) (r : LoadedPackages)
      : Type 0 where
    copies : List (String × String)
    packages : o.0 ≡ ok (r.packages, copies)
    same_disk : (conclude_load emits sha256 encode_versions encode_copies vs o events).1.disk ≡ o.1
    one_event :
        (conclude_load emits sha256 encode_versions encode_copies vs o events).1.events
        ≡ events ++ (Event.packages_loaded (receipt_of vs) ∷ [])

  conclude_load-Concluded :
      (vs : List Version) (o : Bundles) (events : List Event) (r : LoadedPackages)
      → (conclude_load emits sha256 encode_versions encode_copies vs o events).0 ≡ ok r
      → Concluded vs o events r
  unfolding conclude_load
  conclude_load-Concluded vs (err (LoadError.failed code), d) events r h =
      absurd (cc (fail_load-ok (receipt_of vs) code (record { disk = d; events = events }) r h))
  conclude_load-Concluded vs (err (LoadError.refused e), d) events r h = absurd cc
  conclude_load-Concluded vs (err LoadError.untrusted, d) events r h = absurd cc
  conclude_load-Concluded vs (err LoadError.no_channel, d) events r h = absurd cc
  conclude_load-Concluded vs (err LoadError.emit_failed, d) events r h = absurd cc
  conclude_load-Concluded vs (err LoadError.cancelled, d) events r h = absurd cc
  conclude_load-Concluded vs (ok (packages, copies), d) events r h =
      elim (Bool-cases (emits (Event.packages_loaded (receipt_of vs)))) [
        | inr lost ↦ absurd (cc (rw lost at h))
        | inl sent ↦
            let v : LoadedPackages = record {
              digest = selection_digest emits sha256 encode_versions encode_copies vs copies;
              packages = packages;
            } in
            let same : v ≡ r = ok_inj (rw sent at h) in
            subst (λ (x : LoadedPackages). Concluded vs (ok (packages, copies), d) events x) same
              (record {
                copies = copies;
                packages = refl;
                same_disk = rw sent refl;
                one_event = rw sent refl;
              })
      ]

module _ (fault : ℕ → Bool) (torn : String) (suffix : ℕ → String) (emits : Event → Bool)
    (sha256 : String → String) (encode_versions : List Version → String)
    (encode_copies : List (String × String) → String) (ended : ℕ → Bool) (setup : Setup)
    (cache : Cache) (workspace : String) (q : LoadRequest) where
  -- Nothing to load: nothing happened.
  abbrev pub IsIdle : List Contents → LoadedPackages → World → World → Type 0
  IsIdle bs r w w' = (bs ≡ []) × (r.packages ≡ []) × (w' ≡ w)

  abbrev pub IsGranted : List Version → List Contents → LoadedPackages → World → World → Type 0
  IsGranted vs bs r w w' =
      (q.trusted ≡ true)
      × (is_uuid q.agent_id ≡ true)
      × (w'.events ≡ w.events ++ (Event.packages_loaded (receipt_of vs) ∷ []))
      × (directory : String) × (cache_directory setup cache workspace ≡ some directory)
      × ArePlaced fault torn suffix directory w'.disk bs r.packages

  load_decoded-placed :
      (vs : List Version) (bs : List Contents) (r : LoadedPackages) (w : World)
      → length vs ≡ length bs
      → (load_decoded fault torn suffix emits sha256 encode_versions encode_copies ended setup cache
          workspace q vs bs w).0
        ≡ ok r
      → let w' =
          (load_decoded fault torn suffix emits sha256 encode_versions encode_copies ended setup
            cache workspace q vs bs w).1 in
        (w'.events ≡ w.events ++ (Event.packages_loaded (receipt_of vs) ∷ []))
        × (directory : String) × (cache_directory setup cache workspace ≡ some directory)
        × ArePlaced fault torn suffix directory w'.disk bs r.packages
  unfolding load_decoded
  load_decoded-placed vs bs r w l h = elim (Option-cases (command_failure q bs)) [
    | inr (code, e) ↦ absurd (
        cc (
          fail_load-ok emits sha256 encode_versions encode_copies (receipt_of vs) code w r
            (rw (e, load_decoded) at h)))
    | inl fine ↦ elim (Option-cases (cache_directory setup cache workspace)) [
      | inl nowhere ↦ absurd (
          cc (
            fail_load-ok emits sha256 encode_versions encode_copies (receipt_of vs)
              "package_materialization_failed" w r (rw (fine, load_decoded, nowhere) at h)))
      | inr (directory, e) ↦
          let o = place_packages fault torn suffix ended cache q.agent_id directory vs bs w.disk in
          let c =
            conclude_load-Concluded emits sha256 encode_versions encode_copies vs o w.events r
              (rw (fine, load_decoded, e) at h) in
          let placed =
            place_packages-ArePlaced fault torn suffix ended cache q.agent_id directory vs bs
              r.packages c.copies w.disk l c.packages in
          rw (fine, load_decoded, e)
            (
              c.one_event,
              directory,
              refl,
              subst (λ (x : Disk). ArePlaced fault torn suffix directory x bs r.packages)
                  (sym c.same_disk) placed,
            )
    ]
  ]

  load_snapshot-placed :
      (vs : List Version) (bs : List Contents) (r : LoadedPackages) (w : World)
      → length vs ≡ length bs
      → (load_snapshot fault torn suffix emits sha256 encode_versions encode_copies ended setup
          cache workspace q vs bs w).0
        ≡ ok r
      → let w' =
          (load_snapshot fault torn suffix emits sha256 encode_versions encode_copies ended setup
            cache workspace q vs bs w).1 in
        IsIdle bs r w w' ⊎ IsGranted vs bs r w w'
  unfolding load_snapshot
  load_snapshot-placed vs [] r w l h =
      inl (refl, sym (ap (λ (x : LoadedPackages). x.packages) (ok_inj h)), refl)
  load_snapshot-placed vs (b ∷ bs) r w l h =
      elim (Bool-cases (not q.trusted || not (is_uuid q.agent_id))) [
        | inl bad ↦ absurd (cc (rw bad at h))
        | inr good ↦ elim (Bool-cases (not q.has_channel)) [
          | inl mute ↦ absurd (cc (rw (good, mute) at h))
          | inr heard ↦
              let k = rw (good, heard) at h in
              let done = load_decoded-placed vs (b ∷ bs) r w l k in
              let trusted : q.trusted ≡ true = ground (arith, good) in
              let known : is_uuid q.agent_id ≡ true = ground (arith, good) in
              rw (good, heard) (inr (trusted, known, done.0, done.1, done.2, done.3))
        ]
      ]

  -- Where Load returns no error for a snapshot that Decode accepts, either there is no package and
  -- nothing happened, or the run is trusted and names an agent by a well-formed ID, the event of
  -- the packages was emitted, and no other, and each package of the result is that of the contents
  -- in its place: every file of it is on the disk, under its directory in the host's cache, with
  -- its content, also where a damaged cache had to be replaced by a copy.
  pub load_installs :
      (contents : String → Option Contents) (provider : String) (size : Option ℕ)
      (snapshot : Option Snapshot) (s : Snapshot) (bs : List Contents) (r : LoadedPackages)
      (w : World)
      → decode sha256 contents provider size snapshot ≡ ok (s, bs)
      → (load fault torn suffix emits sha256 encode_versions encode_copies ended setup cache
          workspace q
          (some (decode sha256 contents provider size snapshot))
          w).0
        ≡ ok r
      → let w' =
          (load fault torn suffix emits sha256 encode_versions encode_copies ended setup cache
            workspace q
            (some (decode sha256 contents provider size snapshot))
            w).1 in
        IsIdle bs r w w' ⊎ IsGranted s.bundles bs r w w'
  unfolding load
  load_installs contents provider size snapshot s bs r w e h =
      let pinned = decode-ArePinned sha256 contents provider size snapshot s bs e in
      let l = ArePinned-length sha256 contents provider s.bundles bs pinned.4 in
      let k = rw (e, load) at h in rw (e, load) (load_snapshot-placed s.bundles bs r w l k)
