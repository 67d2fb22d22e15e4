-- ===== src/Skills/Decode.antt =====
-- Decode of pkg/adapters/skillpackages/packages.go. JSON and SHA-256 are parameters.
pub mod Confined
pub mod Pinned
use Prim.Native.String.{String, len}
use openlinker_agent_node.Base.{
  ℕ, Bool, true, false, not, ◌&&◌, ◌||◌, List, [], ◌∷◌, Option, none, some, if◌then◌else◌, ltb, leb,
  ◌==◌, str_eq, length, any, all, codes, has_prefix, trim_space,
}
use openlinker_agent_node.Base.Assoc.{lookup}
use openlinker_agent_node.Base.Result.{Result, ok, err, ◌>>=◌, refuse}
use openlinker_agent_node.Patterns.{is_uuid}
use openlinker_agent_node.Skills.{Version, Snapshot, Contents}
use openlinker_agent_node.Skills.Paths.{clean}

pub data Refusal : Type 0 where
  invalid_snapshot : Refusal
  identity_mismatch : Refusal
  incompatible_package : Refusal
  unsafe_file : Refusal

-- ^[a-zA-Z0-9._/-]+$
abbrev path_code : ℕ → Bool
path_code c =
    (leb b'a' c && leb c b'z')
    || (leb b'A' c && leb c b'Z')
    || (leb b'0' c && leb c b'9')
    || c == b'.'
    || c == b'_'
    || c == b'/'
    || c == b'-'

abbrev pub path_codes : List ℕ → Bool
path_codes [] = false
path_codes (c ∷ cs) = all path_code (c ∷ cs)

-- strings.Contains(name, "/.")
abbrev pub hidden_segment : List ℕ → Bool
hidden_segment [] = false
hidden_segment (c ∷ []) = false
hidden_segment (c ∷ d ∷ rest) = (c == b'/' && d == b'.') || hidden_segment (d ∷ rest)

-- The test of one file; what JSON has decoded is valid UTF-8.
unfoldable pub bad_file : String × String → Bool
bad_file (name, content) =
    str_eq name "."
    || ltb 180 (len name)
    || not (path_codes (codes name))
    || has_prefix name "/"
    || not (str_eq (clean name) name)
    || has_prefix name "."
    || hidden_segment (codes name)
    || any (λ c. c == 0) (codes content)

abbrev pub text_or_empty : Option String → String
text_or_empty none = ""
text_or_empty (some s) = s

abbrev pub contains : List String → String → Bool
contains xs s = any (λ x. str_eq x s) xs

-- `sha256` gives the digest in hexadecimal, `contents` is json.Unmarshal of a payload
module _ (sha256 : String → String) (contents : String → Option Contents) (provider : String) where
  unfoldable pub bad_identity : List String → Version → Bool
  bad_identity seen v =
      not (is_uuid v.binding_id)
      || not (is_uuid v.package_id)
      || not (is_uuid v.version_id)
      || contains seen v.package_id
      || ltb 65536 (len v.payload)
      || not (str_eq (sha256 v.payload) v.digest)

  unfoldable pub bad_bundle : Contents → Bool
  bad_bundle b =
      not (contains b.providers provider)
      || ltb (length b.files) 1
      || ltb 32 (length b.files)
      || str_eq (trim_space (text_or_empty (lookup "SKILL.md" b.files))) ""

  unfoldable pub decode_bundle : Version → Result Refusal Contents
  unfolding bad_bundle bad_file
  decode_bundle v = elim (contents v.payload) [
    | none ↦ err Refusal.incompatible_package
    | some b ↦ do
      incompatible ← refuse (bad_bundle b) Refusal.incompatible_package
      unsafe ← refuse (any bad_file b.files) Refusal.unsafe_file
      ok b
  ]

  unfoldable pub decode_bundles : List String → List Version → Result Refusal (List Contents)
  unfolding bad_identity decode_bundle
  decode_bundles seen [] = ok []
  decode_bundles seen (v ∷ rest) = do
    mismatch ← refuse (bad_identity seen v) Refusal.identity_mismatch
    b ← decode_bundle v
    others ← decode_bundles (v.package_id ∷ seen) rest
    ok (b ∷ others)

  -- Decode, of a value with its json.Marshal (its length, and none where it fails) and the
  -- json.Unmarshal of that
  unfoldable pub decode : Option ℕ → Option Snapshot → Result Refusal (Snapshot × List Contents)
  unfolding decode_bundles
  decode none snapshot = err Refusal.invalid_snapshot
  decode (some size) none = err Refusal.invalid_snapshot
  decode (some size) (some s) = do
    large ← refuse (ltb 786432 size) Refusal.invalid_snapshot
    invalid ← refuse (not (s.schema == 1) || ltb 5 (length s.bundles)) Refusal.invalid_snapshot
    bundles ← decode_bundles [] s.bundles
    ok (s, bundles)
