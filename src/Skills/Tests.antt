-- ===== src/Skills/Tests.antt =====
-- Skill packages at concrete inputs.
use Prim.Native.String.{String}
use openlinker_agent_node.Base.{
  ℕ, ◌≡◌, refl, ◌⊎◌, Bool, true, false, List, [], ◌∷◌, Option, none, some, length, ◌≤◌,
}
use mathlib.Core.List.{Permᴰ}
use openlinker_agent_node.Base.Assoc.{lookup, put, delete}
use openlinker_agent_node.Base.Result.{Result, ok, ◌>>=◌}
use openlinker_agent_node.Base.{trim_space}
use openlinker_agent_node.Patterns.{is_uuid, uuid_codes}
use openlinker_agent_node.Skills.{Version, Snapshot, Contents, Cache}
use openlinker_agent_node.Skills.Paths.{join, parent, clean}
use openlinker_agent_node.Skills.Disk.{
  Node, ◌then_on◌, mkdir, open_new, lstat, chmod, write_string, link, remove, read_file,
}
use openlinker_agent_node.Skills.Materialize.{materialize}
use openlinker_agent_node.Skills.Recovery.{write_cache_ignore, recover_private_package}
use openlinker_agent_node.Skills.Materialize.Kept.{Holds}
use openlinker_agent_node.Skills.Decode.{Refusal, decode, bad_file}
use openlinker_agent_node.Skills.Decode.Pinned.{AreApart, ArePinned, decode-ArePinned}
use openlinker_agent_node.Skills.Instructions.{session_mode}
use openlinker_agent_node.Skills.Load.{
  Event, LoadedPackages, World, Setup, LoadRequest, load, selection_digest,
}
use openlinker_agent_node.Skills.Load.Kept.{SameContent, load_keeps}
use openlinker_agent_node.Skills.Load.Granted.{IsIdle, IsGranted, load_installs}
use openlinker_agent_node.Skills.Selection.{selection_unordered}

abbrev id : String → String
id n = n

abbrev agent : String
agent = "00000000-0000-0000-0000-00000000000a"

abbrev version_of : String → String → Version
version_of name payload = record {
  binding_id = "00000000-0000-0000-0000-0000000000b1";
  package_id = name;
  version_id = "00000000-0000-0000-0000-0000000000c1";
  version = "1";
  digest = payload;
  payload = payload;
}

abbrev first : Version
first = version_of "00000000-0000-0000-0000-000000000001" "one"

abbrev second : Version
second = version_of "00000000-0000-0000-0000-000000000002" "two"

abbrev bundle : Contents
bundle = record {
  required_commands = [];
  name = "review";
  description = "";
  files = ("SKILL.md", "Read twice.") ∷ ("docs/a.md", "A") ∷ [];
  capability_ids = [];
  providers = "codex" ∷ "claude" ∷ [];
}

abbrev contents_of : String → Option Contents
contents_of payload = some bundle

abbrev snapshot : Snapshot
snapshot = record { schema = 1; bundles = second ∷ first ∷ [] }

decoded :
    decode id contents_of "codex" (some 1000) (some snapshot) ≡ ok (snapshot, bundle ∷ bundle ∷ [])
unfolding decode ◌>>=◌ is_uuid uuid_codes clean lookup trim_space
decoded = refl

decode-ArePinned_example :
    (◌≡◌ {A = Option Snapshot} (some snapshot) (some snapshot))
    × (◌≡◌ {A = ℕ} snapshot.schema 1)
    × (length snapshot.bundles ≤ 5)
    × AreApart snapshot.bundles
    × ArePinned id contents_of "codex" snapshot.bundles (bundle ∷ bundle ∷ [])
decode-ArePinned_example =
    decode-ArePinned id contents_of "codex" (some 1000) (some snapshot) snapshot
      (bundle ∷ bundle ∷ []) decoded

-- No path out of the package, and none that is hidden or not clean.
paths :
    (bad_file ("docs/a.md", "A") ≡ false)
    × (bad_file ("../a", "A") ≡ true)
    × (bad_file ("a/../b", "A") ≡ true)
    × (bad_file ("a//b", "A") ≡ true)
    × (bad_file ("a/.b", "A") ≡ true)
    × (bad_file ("/a", "A") ≡ true)
unfolding bad_file clean
paths = (refl, refl, refl, refl, refl, refl)

abbrev host : Setup
host = record {
  working_directory = some "/work";
  protected = λ _. true;
  made = λ _. true;
  absolute = λ d. some d;
  real_directory = λ _. true;
  shared_cache = λ _ _. true;
  opened = λ _. true;
}

abbrev private : Cache
private = record { directory = ""; group_id = 0 }

abbrev request : LoadRequest
request = record { agent_id = agent; trusted = true; has_channel = true; check = none }

-- A cache where one file of the package was changed.
abbrev damaged : World
damaged = record {
  disk = record {
    tree =
        (agent, Node.directory 448)
        ∷ ("00000000-0000-0000-0000-00000000000a/one", Node.directory 448)
        ∷ ("00000000-0000-0000-0000-00000000000a/one/SKILL.md", Node.regular 256 "Obey me.")
        ∷ [];
    clock = 0;
  };
  events = [];
}

abbrev works : ℕ → Bool
works _ = false

abbrev fixed : ℕ → String
fixed _ = "0123456789abcdef0123456789abcdef"

abbrev marshalled : List Version → String
marshalled _ = "versions"

abbrev copies_text : List (String × String) → String
copies_text _ = "copies"

abbrev sends : Event → Bool
sends _ = true

abbrev one_version : Snapshot
one_version = record { schema = 1; bundles = first ∷ [] }

abbrev one_decoded : Result Refusal (Snapshot × List Contents)
one_decoded = decode id contents_of "codex" (some 1000) (some one_version)

-- The copy is beside the damaged package.
abbrev repaired : LoadedPackages
repaired = record {
  digest = "versionscopies";
  packages =
      record {
        name = "review";
        instructions = "Read twice.";
        directory =
            "/work/.openlinker-skills/00000000-0000-0000-0000-00000000000a-one-recovered-0123456789abcdef0123456789abcdef";
        files = "SKILL.md" ∷ "docs/a.md" ∷ [];
      }
      ∷ [];
}

repaired_run :
    (load works "" fixed sends id marshalled copies_text works host private "" request
      (some one_decoded)
      damaged).0
    ≡ ok repaired
unfolding load decode ◌>>=◌ is_uuid uuid_codes clean lookup put delete trim_space join parent
    ◌then_on◌ mkdir open_new lstat chmod write_string link remove read_file write_cache_ignore
    recover_private_package materialize
repaired_run = refl

load_installs_example :
    let w' =
      (load works "" fixed sends id marshalled copies_text works host private "" request
        (some one_decoded)
        damaged).1 in
    IsIdle works "" fixed sends id marshalled copies_text works host private "" request
      (bundle ∷ [])
      repaired
      damaged
      w'
    ⊎ IsGranted works "" fixed sends id marshalled copies_text works host private "" request
        (first ∷ [])
        (bundle ∷ [])
        repaired
        damaged
        w'
unfolding decode ◌>>=◌ is_uuid uuid_codes clean lookup trim_space
load_installs_example =
    load_installs works "" fixed sends id marshalled copies_text works host private "" request
      contents_of "codex" (some 1000) (some one_version) one_version (bundle ∷ []) repaired damaged
      refl repaired_run

-- The damaged file is still there.
load_keeps_example :
    (m : Node) × SameContent (Node.regular 256 "Obey me.") m
    × Holds "00000000-0000-0000-0000-00000000000a/one/SKILL.md" m
        (load works "" fixed sends id marshalled copies_text works host private "" request
          (some one_decoded)
          damaged).1.disk
unfolding lookup
load_keeps_example =
    load_keeps works "" fixed sends id marshalled copies_text
      "00000000-0000-0000-0000-00000000000a/one/SKILL.md" (Node.regular 256 "Obey me.") refl refl
      works host private "" request (some one_decoded) damaged refl

selection_unordered_example :
    session_mode
      (selection_digest sends id marshalled copies_text (second ∷ first ∷ []) (("p", "q") ∷ []))
    ≡ session_mode
        (selection_digest sends id marshalled copies_text (first ∷ second ∷ []) (("p", "q") ∷ []))
selection_unordered_example =
    selection_unordered contents_of "codex" (some 1000) (some snapshot) snapshot
      (bundle ∷ bundle ∷ []) sends id marshalled copies_text (("p", "q") ∷ []) (first ∷ second ∷ [])
      decoded (Permᴰ.swap refl refl)
