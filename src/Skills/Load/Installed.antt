-- ===== src/Skills/Load/Installed.antt =====
-- What is on the disk, and was emitted, when Load of pkg/adapters/skillpackages/packages.go
-- returns packages.
use Prim.Native.String.{String}
use openlinker_agent_node.Base.{
  ℕ, ◌≡◌, refl, sym, ap, subst, ◌∙◌, inl, inr, Bool, true, false, List, [], ◌∷◌, Option, none, some,
  some_inj, Bool-cases, Option-cases, ◌++◌, All, All-map, length, arith,
}
use mathlib.Core.List.{append-nil, append_assoc}
use openlinker_agent_node.Base.Assoc.{lookup}
use openlinker_agent_node.Base.Result.{ok, Result-cases}
use openlinker_agent_node.Skills.{Version, Contents, Package}
use openlinker_agent_node.Skills.Paths.{join}
use openlinker_agent_node.Skills.Disk.{Node, Disk, Failure}
use openlinker_agent_node.Skills.Materialize.{materialize}
use openlinker_agent_node.Skills.Materialize.Installed.{IsInstalled, materialize-IsInstalled}
use openlinker_agent_node.Skills.Recovery.{recover_private_package}
use openlinker_agent_node.Skills.Recovery.Copies.{recover_private_package-IsInstalled}
use openlinker_agent_node.Skills.Decode.{text_or_empty}
use openlinker_agent_node.Skills.Load.{
  recovered_as, after_materialize, place_bundle, packaged, note_recovered, place_bundles,
}
use openlinker_agent_node.Skills.Load.Kept.{recovered_as-disk, place_bundles-Holds}

module _ (fault : ℕ → Bool) (torn : String) (suffix : ℕ → String) where
  -- The package is that of the contents, and all its files are on the disk.
  pub record IsPlaced (directory : String) (d : Disk) (b : Contents) (p : Package) : Type 0 where
    pub same_name : p.name ≡ b.name
    pub same_instructions : p.instructions ≡ text_or_empty (lookup "SKILL.md" b.files)
    pub root : String
    pub below : p.directory ≡ join directory root
    pub installed : All (IsInstalled fault torn suffix root d) b.files

  abbrev pub ArePlaced : String → Disk → List Contents → List Package → Type 0
  ArePlaced directory d [] [] = Unit
  ArePlaced directory d [] (p ∷ ps) = ◌≡◌ {A = Bool} false true
  ArePlaced directory d (b ∷ bs) [] = ◌≡◌ {A = Bool} false true
  ArePlaced directory d (b ∷ bs) (p ∷ ps) = IsPlaced directory d b p × ArePlaced directory d bs ps

  recovered_as-IsInstalled :
      (agent_id digest relative : String) (copied : Bool) (files : List (String × String))
      (d : Disk)
      → (recovered_as (recover_private_package fault torn suffix agent_id digest files d)).0
        ≡ some (relative, copied)
      → (recover_private_package fault torn suffix agent_id digest files d).0 ≡ ok relative
  recovered_as-IsInstalled agent_id digest relative copied files d h =
      let o = recover_private_package fault torn suffix agent_id digest files d in
      elim (Result-cases o.0) [
        | inl (name, e) ↦
            let both : ◌≡◌ {A = String × Bool} (name, true) (relative, copied) =
              some_inj (rw (e, recovered_as) at h) in
            e ∙ ap (λ (x : String × Bool). ok x.0) both
        | inr (f, e) ↦ absurd (cc (rw (e, recovered_as) at h))
      ]

  after_materialize-IsInstalled :
      (shared : Bool) (agent_id : String) (v : Version) (b : Contents) (e : Option Failure)
      (d : Disk) (relative : String) (copied : Bool)
      → (e ≡ none → All (IsInstalled fault torn suffix (join agent_id v.digest) d) b.files)
      → (after_materialize fault torn suffix shared agent_id v b e d).0 ≡ some (relative, copied)
      → All
          (IsInstalled fault torn suffix relative
            (after_materialize fault torn suffix shared agent_id v b e d).1)
          b.files
  unfolding after_materialize
  after_materialize-IsInstalled shared agent_id v b none d relative copied there h =
      let names : join agent_id v.digest ≡ relative =
        ap (λ (x : String × Bool). x.0) (some_inj h) in
      subst (λ r. All (IsInstalled fault torn suffix r d) b.files) names (there refl)
  after_materialize-IsInstalled true agent_id v b (some f) d relative copied there h = absurd cc
  after_materialize-IsInstalled false agent_id v b (some f) d relative copied there h =
      let r = recover_private_package fault torn suffix agent_id v.digest b.files d in
      let fine = recovered_as-IsInstalled agent_id v.digest relative copied b.files d h in
      let here =
        recover_private_package-IsInstalled fault torn suffix agent_id v.digest relative b.files d
          fine in
      subst (λ e. All (IsInstalled fault torn suffix relative e) b.files)
        (sym (recovered_as-disk r)) here

  place_bundle-IsInstalled :
      (shared : Bool) (agent_id : String) (v : Version) (b : Contents) (d : Disk)
      (relative : String) (copied : Bool)
      → (place_bundle fault torn suffix shared agent_id v b d).0 ≡ some (relative, copied)
      → All
          (IsInstalled fault torn suffix relative
            (place_bundle fault torn suffix shared agent_id v b d).1)
          b.files
  unfolding place_bundle
  place_bundle-IsInstalled shared agent_id v b d relative copied h =
      let root = join agent_id v.digest in
      let o = materialize fault torn suffix shared root b.files d in
      after_materialize-IsInstalled shared agent_id v b o.0 o.1 relative copied
        (materialize-IsInstalled fault torn suffix shared root b.files d) h

  -- The loop adds one package for each bundle.
  pub place_bundles-ArePlaced :
      (ended : ℕ → Bool) (shared : Bool) (agent_id directory : String) (vs : List Version)
      (bs : List Contents) (packages all : List Package) (copies more : List (String × String))
      (d : Disk)
      → length vs ≡ length bs
      → (place_bundles fault torn suffix ended shared agent_id directory vs bs
          (packages, copies)
          d).0
        ≡ ok (all, more)
      → (new : List Package) × (all ≡ packages ++ new)
        × ArePlaced directory
            (place_bundles fault torn suffix ended shared agent_id directory vs bs
              (packages, copies)
              d).1
            bs
            new
  unfolding place_bundles
  place_bundles-ArePlaced ended shared agent_id directory [] [] packages all copies more d l h =
      let same : ◌≡◌ {A = List Package × List (String × String)} (packages, copies) (all, more) =
        cc in
      (
        [],
        sym (ap (λ (x : List Package × List (String × String)). x.0) same)
            ∙ sym (append-nil packages),
        tt,
      )
  place_bundles-ArePlaced ended shared agent_id directory [] (b ∷ bs) packages all copies more d l
        h =
      absurd (omega (arith, l))
  place_bundles-ArePlaced ended shared agent_id directory (v ∷ vs) [] packages all copies more d l
        h =
      absurd (omega (arith, l))
  place_bundles-ArePlaced ended shared agent_id directory (v ∷ vs) (b ∷ bs) packages all copies more
        d l h =
      let o = place_bundle fault torn suffix shared agent_id v b d in
      elim (Bool-cases (ended d.clock)) [
        | inl stop ↦ absurd (cc (rw (stop, place_bundles) at h))
        | inr go ↦ elim (Option-cases o.0) [
          | inl bad ↦ absurd (cc (rw (go, place_bundles, bad) at h))
          | inr ((relative, copied), e) ↦
              let p = packaged fault torn suffix directory b relative in
              let c = note_recovered fault torn suffix copied v.package_id relative copies in
              let k = rw (go, place_bundles, e) at h in
              let (new, joined, placed) =
                place_bundles-ArePlaced ended shared agent_id directory vs bs (packages ++ (p ∷ []))
                  all c more o.1 (omega (arith, l)) k in
              let here = place_bundle-IsInstalled shared agent_id v b d relative copied e in
              let keep : (x : String × String)
                  → IsInstalled fault torn suffix relative o.1 x
                  → IsInstalled fault torn suffix relative
                      (place_bundles fault torn suffix ended shared agent_id directory vs bs
                        (packages ++ (p ∷ []), c) o.1).1
                      x =
                λ x there. (
                  there.0,
                  place_bundles-Holds fault torn suffix (join relative x.0)
                      (Node.regular there.0 x.1) refl ended shared agent_id directory vs bs
                      (packages ++ (p ∷ [])) c o.1 there.1,
                ) in
              let mine : IsPlaced directory
                  (place_bundles fault torn suffix ended shared agent_id directory vs bs
                    (packages ++ (p ∷ []), c) o.1).1
                  b p =
                record {
                  same_name = refl;
                  same_instructions = refl;
                  root = relative;
                  below = refl;
                  installed = All-map keep b.files here;
                } in
              rw (go, place_bundles, e)
                (p ∷ new, joined ∙ append_assoc packages (p ∷ []) new, (mine, placed))
        ]
      ]
