-- ===== src/Skills/Load.antt =====
-- Load of pkg/adapters/skillpackages/packages.go: from the snapshot of a run to the packages on
-- the disk, with the events that it emits.
pub mod Kept
pub mod Installed
pub mod Granted
use Prim.Native.String.{String, compare, ◌++◌ as ◌+++◌}
use text.Mathlib.Text.{is_lt}
use openlinker_agent_node.Base.{
  ℕ, Bool, true, false, not, ◌&&◌, ◌||◌, List, [], ◌∷◌, Option, none, some, if◌then◌else◌, ltb, leb,
  ◌==◌, str_eq, length, any, all, codes, map, ◌++◌,
}
use openlinker_agent_node.Base.Assoc.{lookup, put}
use openlinker_agent_node.Base.Result.{Result, ok, err}
use openlinker_agent_node.Patterns.{is_uuid}
use openlinker_agent_node.Skills.{Version, Snapshot, Contents, Package, Cache}
use openlinker_agent_node.Skills.Paths.{join}
use openlinker_agent_node.Skills.Disk.{Disk, Failure, Outcome}
use openlinker_agent_node.Skills.Materialize.{sort_files, materialize}
use openlinker_agent_node.Skills.Recovery.{recover_private_package, write_cache_ignore}
use openlinker_agent_node.Skills.Decode.{Refusal, decode, text_or_empty, contains}

-- the binding, version and digest of each bundle
abbrev pub Receipt : Type 0
Receipt = List (String × String × String)

pub data Event : Type 0 where
  packages_loaded : Receipt → Event
  packages_failed : Receipt → String → Event  -- with its error code

pub data LoadError : Type 0 where
  refused : Refusal → LoadError
  untrusted : LoadError
  no_channel : LoadError
  emit_failed : LoadError
  cancelled : LoadError
  failed : String → LoadError  -- after its event, with that code

pub record LoadedPackages : Type 0 where
  pub digest : String
  pub packages : List Package

-- the tree below the cache and the events that were emitted
pub record World : Type 0 where
  pub disk : Disk
  pub events : List Event

abbrev pub Loading : Type 0 → Type 0
Loading A = Result LoadError A × World

-- What the host answers while the cache's directory is found and opened.
pub record Setup : Type 0 where
  pub working_directory : Option String
  pub protected : String → Bool  -- protectSkillPackageCache
  pub made : String → Bool  -- OpenRoot of the workspace, MkdirAll of the cache
  pub absolute : String → Option String
  pub real_directory : String → Bool
  pub shared_cache : String → ℕ → Bool  -- CheckSharedCache
  pub opened : String → Bool

-- Request, without its snapshot; no `check` stands for a nil CheckCommands
pub record LoadRequest : Type 0 where
  pub agent_id : String
  pub trusted : Bool
  pub has_channel : Bool
  pub check : Option (List String → Bool)

abbrev letter_or_digit : ℕ → Bool
letter_or_digit c =
    (leb b'a' c && leb c b'z') || (leb b'A' c && leb c b'Z') || (leb b'0' c && leb c b'9')

abbrev command_code : ℕ → Bool
command_code c = letter_or_digit c || c == b'.' || c == b'_' || c == b'+' || c == b'-'

-- ^[a-zA-Z0-9][a-zA-Z0-9._+-]{0,63}$
abbrev pub command_codes : List ℕ → Bool
command_codes [] = false
command_codes (c ∷ cs) = letter_or_digit c && leb (length cs) 63 && all command_code cs

unfoldable pub is_command : String → Bool
is_command s = command_codes (codes s)

-- The commands of a bundle, each once; none where one is not valid.
abbrev add_commands : List String → List String → Option (List String)
add_commands found [] = some found
add_commands found (c ∷ rest) =
    let later = add_commands (if contains found c then found else found ++ (c ∷ [])) rest in
    if is_command c then later else none

abbrev pub all_commands : List String → List Contents → Option (List String)
all_commands found [] = some found
all_commands found (b ∷ rest) = elim (add_commands found b.required_commands) [
  | none ↦ none
  | some more ↦ all_commands more rest
]

-- the error code of the loop over the commands and the check after it, if any
unfoldable pub command_failure : LoadRequest → List Contents → Option String
command_failure q bundles = elim (all_commands [] bundles) [
  | none ↦ some "package_invalid"
  | some [] ↦ none
  | some (c ∷ rest) ↦ elim q.check [
    | none ↦ some "dependency_missing"
    | some available ↦ if available (c ∷ rest) then none else some "dependency_missing"
  ]
]

-- a new cache in the workspace, where the host configures none
unfoldable pub workspace_cache : Setup → Cache → String → Option String
workspace_cache s cache workspace =
    if not (cache.group_id == 0)
    then none
    else elim (if str_eq workspace "" then s.working_directory else some workspace) [
      | none ↦ none
      | some w ↦ if s.protected w && s.made w then some (join w ".openlinker-skills") else none
    ]

-- The directory that is opened as the root; none where a step fails.
unfoldable pub cache_directory : Setup → Cache → String → Option String
unfolding workspace_cache
cache_directory s cache workspace =
    elim (if str_eq cache.directory ""
      then workspace_cache s cache workspace
      else some cache.directory) [
        | none ↦ none
        | some directory ↦ elim (s.absolute directory) [
          | none ↦ none
          | some d ↦
              if s.real_directory d
                && (cache.group_id == 0 || s.shared_cache d cache.group_id)
                && s.opened d
              then some d
              else none
        ]
      ]

-- slices.SortFunc on the package IDs
abbrev pub insert_version : Version → List Version → List Version
insert_version v [] = v ∷ []
insert_version v (w ∷ rest) =
    let later = insert_version v rest in
    if is_lt (compare w.package_id v.package_id) then w ∷ later else v ∷ w ∷ rest

abbrev pub sort_versions : List Version → List Version
sort_versions [] = []
sort_versions (v ∷ rest) = insert_version v (sort_versions rest)

abbrev pub receipt_of : List Version → Receipt
receipt_of vs = map (λ (v : Version). (v.binding_id, v.version_id, v.digest)) vs

-- What one bundle comes to: its directory below the cache, and whether that is a recovered copy.
abbrev pub Placed : Type 0
Placed = Option (String × Bool) × Disk

abbrev pub recovered_as : Result Failure String × Disk → Placed
recovered_as (ok name, d) = (some (name, true), d)
recovered_as (err f, d) = (none, d)

module _ (fault : ℕ → Bool) (torn : String) (suffix : ℕ → String) where
  -- after materialize; a shared cache is never repaired
  unfoldable pub after_materialize :
      Bool → String → Version → Contents → Option Failure → Disk → Placed
  after_materialize shared agent_id v b none d = (some (join agent_id v.digest, false), d)
  after_materialize true agent_id v b (some f) d = (none, d)
  after_materialize false agent_id v b (some f) d =
      recovered_as (recover_private_package fault torn suffix agent_id v.digest b.files d)

  unfoldable pub place_bundle : Bool → String → Version → Contents → Disk → Placed
  unfolding after_materialize
  place_bundle shared agent_id v b d =
      let (e, d') = materialize fault torn suffix shared (join agent_id v.digest) b.files d in
      after_materialize shared agent_id v b e d'

  abbrev pub packaged : String → Contents → String → Package
  packaged directory b relative = record {
    name = b.name;
    instructions = text_or_empty (lookup "SKILL.md" b.files);
    directory = join directory relative;
    files = map (λ (file : String × String). file.0) (sort_files b.files);
  }

  abbrev pub note_recovered :
      Bool → String → String → List (String × String) → List (String × String)
  note_recovered copied id relative found = if copied then put id relative found else found

  -- The loop over the bundles, with what it has found so far. `ended n` is whether the context
  -- is done before the n-th operation of the disk.
  unfoldable pub place_bundles :
      (ℕ → Bool)
      → Bool
      → String
      → String
      → List Version
      → List Contents
      → List Package × List (String × String)
      → Disk
      → Result LoadError (List Package × List (String × String)) × Disk
  unfolding place_bundle
  place_bundles ended shared agent_id directory [] bs found d = (ok found, d)
  place_bundles ended shared agent_id directory (v ∷ vs) [] found d = (ok found, d)
  place_bundles ended shared agent_id directory (v ∷ vs) (b ∷ bs) (packages, copies) d =
      let (placed, d') = place_bundle shared agent_id v b d in
      elim (ended d.clock) [
        | true ↦ (err LoadError.cancelled, d)
        | false ↦ elim placed [
          | none ↦ (err (LoadError.failed "package_materialization_failed"), d')
          | some (relative, copied) ↦
              place_bundles ended shared agent_id directory vs bs
                (
                  packages ++ (packaged directory b relative ∷ []),
                  note_recovered copied v.package_id relative copies,
                )
                d'
        ]
      ]

  -- the private marker, and then the bundles
  unfoldable pub place_packages :
      (ℕ → Bool)
      → Cache
      → String
      → String
      → List Version
      → List Contents
      → Disk
      → Result LoadError (List Package × List (String × String)) × Disk
  unfolding place_bundles
  place_packages ended cache agent_id directory vs bs d =
      let shared = not (cache.group_id == 0) in
      let (e, d') =
        if str_eq cache.directory "" then write_cache_ignore fault torn suffix d else (none, d) in
      elim e [
        | none ↦ place_bundles ended shared agent_id directory vs bs ([], []) d'
        | some f ↦ (err (LoadError.failed "package_materialization_failed"), d')
      ]

-- `emits` is whether Emit returns no error, `sha256` the digest in hexadecimal, and the encodings
-- are json.Marshal
module _ (emits : Event → Bool) (sha256 : String → String) (encode_versions : List Version → String)
    (encode_copies : List (String × String) → String) where
  abbrev pub emit : Event → World → World
  emit e w = record w { events = w.events ++ (e ∷ []) }

  -- `fail`
  unfoldable pub fail_load : Receipt → String → World → Loading LoadedPackages
  fail_load receipt code w =
      let e = Event.packages_failed receipt code in
      if emits e then (err (LoadError.failed code), emit e w) else (err LoadError.emit_failed, w)

  unfoldable pub selection_digest : List Version → List (String × String) → String
  selection_digest vs [] = sha256 (encode_versions (sort_versions vs))
  selection_digest vs (copy ∷ rest) =
      sha256 (encode_versions (sort_versions vs) +++ encode_copies (copy ∷ rest))

  -- the end of Load
  unfoldable pub conclude_load :
      List Version
      → Result LoadError (List Package × List (String × String)) × Disk
      → List Event
      → Loading LoadedPackages
  unfolding fail_load selection_digest
  conclude_load vs (err (LoadError.failed code), d) events =
      fail_load (receipt_of vs) code (record { disk = d; events = events })
  conclude_load vs (err e, d) events = (err e, record { disk = d; events = events })
  conclude_load vs (ok (packages, copies), d) events =
      let e = Event.packages_loaded (receipt_of vs) in
      let w : World = record { disk = d; events = events } in
      if emits e
      then (ok (record { digest = selection_digest vs copies; packages = packages }), emit e w)
      else (err LoadError.emit_failed, w)

module _ (fault : ℕ → Bool) (torn : String) (suffix : ℕ → String) (emits : Event → Bool)
    (sha256 : String → String) (encode_versions : List Version → String)
    (encode_copies : List (String × String) → String) where
  -- Load after Decode and the test of the run's authority
  unfoldable pub load_decoded :
      (ℕ → Bool)
      → Setup
      → Cache
      → String
      → LoadRequest
      → List Version
      → List Contents
      → World
      → Loading LoadedPackages
  unfolding command_failure cache_directory place_packages conclude_load fail_load
  load_decoded ended setup cache workspace q vs bs w = elim (command_failure q bs) [
    | some code ↦ fail_load emits sha256 encode_versions encode_copies (receipt_of vs) code w
    | none ↦ elim (cache_directory setup cache workspace) [
      | none ↦
          fail_load emits sha256 encode_versions encode_copies (receipt_of vs)
            "package_materialization_failed" w
      | some directory ↦
          conclude_load emits sha256 encode_versions encode_copies vs
            (place_packages fault torn suffix ended cache q.agent_id directory vs bs w.disk)
            w.events
    ]
  ]

  -- Load of a decoded snapshot
  unfoldable pub load_snapshot :
      (ℕ → Bool)
      → Setup
      → Cache
      → String
      → LoadRequest
      → List Version
      → List Contents
      → World
      → Loading LoadedPackages
  unfolding load_decoded
  load_snapshot ended setup cache workspace q vs [] w =
      (ok (record { digest = ""; packages = [] }), w)
  load_snapshot ended setup cache workspace q vs (b ∷ bs) w =
      if not q.trusted || not (is_uuid q.agent_id)
      then (err LoadError.untrusted, w)
      else if not q.has_channel
      then (err LoadError.no_channel, w)
      else load_decoded ended setup cache workspace q vs (b ∷ bs) w

  -- Load, of a snapshot that Decode has tested; none where there is no snapshot
  unfoldable pub load :
      (ℕ → Bool)
      → Setup
      → Cache
      → String
      → LoadRequest
      → Option (Result Refusal (Snapshot × List Contents))
      → World
      → Loading LoadedPackages
  unfolding load_snapshot
  load ended setup cache workspace q none w = (ok (record { digest = ""; packages = [] }), w)
  load ended setup cache workspace q (some (err e)) w = (err (LoadError.refused e), w)
  load ended setup cache workspace q (some (ok (s, bs))) w =
      load_snapshot ended setup cache workspace q s.bundles bs w
