-- ===== src/Config/Sandbox.antt =====
-- pkg/adapters/sessionsandbox/config.go: Config and its Validate.
use openlinker_agent_node.Base.{
  ends_with, ℕ, ◌-◌, String, Bool, true, false, ◌&&◌, ◌||◌, not, List, [], ◌∷◌, ◌++◌, leb, ◌==◌,
  if◌then◌else◌, str_eq, trim_space, lower_is, to_lower_code, codes, codes_eq, any, all, map,
  length, take, has_prefix,
}
use openlinker_agent_node.Base.Result.{Result, ◌>>=◌, refuse}
use openlinker_agent_node.Config.{
  Host, Problem, needs_native, bad_mode, bad_platform, root_user, bad_root, bad_temp_root,
  bad_read_path, bad_domain,
}

-- The values of Mode that the code tells apart: it is trimmed and in lower case.
pub data Mode : Type 0 where
  unset off native other_mode : Mode

-- strings.ToLower(strings.TrimSpace(raw))
unfoldable pub parse_mode : String → Mode
parse_mode raw =
    let word = trim_space raw in
    if str_eq word ""
    then unset
    else if lower_is word "off"
    then off
    else if lower_is word "native"
    then native
    else other_mode

pub record SandboxConfig : Type 0 where
  pub mode : Mode
  pub root : String
  pub namespace : String
  pub runtime_bin : String
  pub temp_root : String
  pub read_paths : List String
  pub allowed_domains : List String

-- Enabled
abbrev pub is_native : Mode → Bool
is_native native = true
is_native _ = false

abbrev pub enabled : SandboxConfig → Bool
enabled c = is_native c.mode

abbrev pub inactive : Mode → Bool
inactive unset = true
inactive off = true
inactive _ = false

-- strings.TrimSuffix(d, ":443")
abbrev without_port : List ℕ → List ℕ
without_port d =
    let port = codes ":443" in if ends_with port d then take (length d - length port) d else d

abbrev first_part : ℕ → List (List ℕ) → List (List ℕ)
first_part c [] = (c ∷ []) ∷ []
first_part c (l ∷ ls) = (c ∷ l) ∷ ls

-- strings.Split(host, ".")
unfoldable pub labels : List ℕ → List (List ℕ)
labels [] = [] ∷ []
labels (c ∷ cs) = let rest = labels cs in if c == b'.' then [] ∷ rest else first_part c rest

abbrev label_code : ℕ → Bool
label_code c = c == b'-' || (leb b'a' c && leb c b'z') || (leb b'0' c && leb c b'9')

abbrev starts_dash : List ℕ → Bool
starts_dash [] = false
starts_dash (c ∷ cs) = c == b'-'

unfoldable pub good_label : List ℕ → Bool
good_label l =
    not (length l == 0) && not (starts_dash l) && not (ends_with (codes "-") l) && all label_code l

abbrev forbidden : ℕ → Bool
forbidden c = any (λ (x : ℕ). x == c) (codes ":/*?@[]\\ \t\r\n") || c == 0

abbrev unsafe_code : ℕ → Bool
unsafe_code c = c == 0 || any (λ (x : ℕ). x == c) (codes "\r\n\t*?[]{}")

-- safePath, on a system where an absolute path starts with a slash
unfoldable pub safe_path : String → Bool
safe_path p = has_prefix p "/" && not (any unsafe_code (codes p))

module _ (host : Host) where
  -- the loop over AllowedDomains, at one of them; its two error texts are one problem
  unfoldable pub good_domain : String → Bool
  good_domain d =
      let name = without_port (codes d) in
      not (str_eq d "")
      && codes_eq name (map to_lower_code name)
      && any (λ (c : ℕ). c == b'.') name
      && not (any forbidden name)
      && not (host.is_ip name)
      && not (ends_with (codes ".localhost") name)
      && not (ends_with (codes ".local") name)
      && all good_label (labels name)

  abbrev optional_root : String → Bool
  optional_root p = str_eq p "" || (safe_path p && not (str_eq (host.clean p) "/"))

  abbrev no_options : SandboxConfig → Bool
  no_options c =
      str_eq c.root ""
      && str_eq c.temp_root ""
      && str_eq c.runtime_bin ""
      && length (c.read_paths ++ c.allowed_domains) == 0

  -- Validate
  unfoldable pub validate : SandboxConfig → Result Problem (Unit {0})
  validate c =
      if inactive c.mode then refuse (not (no_options c)) (needs_native "session options") else do
        _ ← refuse (not (enabled c)) bad_mode
        _ ← refuse (not (host.supported_system && host.supported_processor)) bad_platform
        _ ← refuse (not host.unprivileged) root_user
        _ ←
            refuse
              (not (safe_path c.root)
                || str_eq (host.clean c.root) "/"
                || str_eq (trim_space c.namespace) "")
              bad_root
        _ ← refuse (not (optional_root c.temp_root)) bad_temp_root
        _ ← refuse (not (all safe_path c.read_paths)) bad_read_path
        refuse (not (all good_domain c.allowed_domains)) bad_domain
