-- ===== src/Config.antt =====
-- The configuration of a Node from its environment: internal/agentnode/config.go, util.go and
-- session_isolation.go, pkg/adapters/sessionsandbox/config.go. A Duration is the int64 of its
-- nanoseconds, as two's complement.
pub mod Sandbox
pub mod Isolation
pub mod Adapter
pub mod Startup
mod Tests
use openlinker_agent_node.Base.{
  ℕ, ◌+◌, ◌-◌, ◌*◌, ◌%◌, ◌^◌, String, Bool, true, false, ◌&&◌, ◌||◌, not, List, [], ◌∷◌, Option,
  none, some, ltb, leb, ◌==◌, if◌then◌else◌, str_eq, trim_space, lower_is, codes, any,
}
use openlinker_agent_node.Base.Result.{Result, ok, err}

-- EnvLookup: an unset variable is the empty string
abbrev pub Env : Type 0
Env = String → String

pub data Problem : Type 0 where
  not_a_number not_a_boolean not_strings not_a_map : (label : String) → Problem
  needs_native : (label : String) → Problem
  bad_concurrency bad_helper bad_url bad_endpoint bad_home : Problem
  bad_mode bad_platform root_user bad_root bad_temp_root bad_read_path bad_domain : Problem
  inside_worktree native_unsupported mock_with_native workspace_unused reuse_required : Problem
  module_adapter unknown_adapter : Problem
  with_hint : Problem → Problem

abbrev digit : ℕ → Bool
digit c = leb b'0' c && leb c b'9'

-- the digits of a number after those that are read; an empty rest ends it
digits : ℕ → List ℕ → Option ℕ
digits n [] = some n
digits n (c ∷ cs) = let rest = digits (n * 10 + (c - b'0')) cs in if digit c then rest else none

unsigned : List ℕ → Option ℕ
unfolding digits
unsigned [] = none
unsigned (c ∷ cs) = digits 0 (c ∷ cs)

abbrev in_range : Option ℕ → Option ℕ
in_range none = none
in_range (some n) = if ltb n (2 ^ 63) then some n else none

abbrev minus_zero : Option ℕ → Option ℕ
minus_zero none = none
minus_zero (some n) = if n == 0 then some 0 else none

-- strconv.Atoi, where a negative number is refused as numberOption does
unfoldable pub natural : List ℕ → Option ℕ
unfolding unsigned
natural [] = none
natural (c ∷ cs) =
    if c == b'+'
    then in_range (unsigned cs)
    else if c == b'-'
    then minus_zero (unsigned cs)
    else in_range (unsigned (c ∷ cs))

abbrev number_or : String → Option ℕ → Result Problem ℕ
number_or label none = err (not_a_number label)
number_or label (some n) = ok n

unfoldable pub number_option : String → ℕ → String → Result Problem ℕ
number_option raw fallback label =
    if str_eq raw "" then ok fallback else number_or label (natural (codes raw))

abbrev pub yes_word : String → Bool
yes_word s = lower_is s "1" || lower_is s "true" || lower_is s "yes" || lower_is s "on"

abbrev pub no_word : String → Bool
no_word s = lower_is s "0" || lower_is s "false" || lower_is s "no" || lower_is s "off"

unfoldable pub bool_option : String → Bool → Bool
bool_option raw fallback =
    if str_eq raw ""
    then fallback
    else if yes_word raw
    then true
    else if no_word raw
    then false
    else fallback

abbrev pub default_string : String → String → String
default_string value fallback = if str_eq value "" then fallback else value

-- time.Duration(n) * unit, which wraps
unfoldable pub duration : ℕ → ℕ → ℕ
duration n unit = n * unit % 2 ^ 64

abbrev pub millisecond : ℕ
millisecond = 1000000

abbrev pub second : ℕ
second = 1000000000

-- What the configuration uses of other code: JSON, url.Parse, filepath, the SDK's names, the
-- check of a model endpoint, of a Git worktree, and what the platform is.
pub record Host : Type 0 where
  pub json_strings : String → Option (List String)
  pub json_map : String → Option (List (String × String))
  pub split_commas : String → List String  -- strings.Split(s, ",")
  pub core_url : String → Option String  -- a stable Core URL without its trailing slashes
  pub clean : String → String
  pub join : String → String → String
  pub is_ip : List ℕ → Bool  -- net.ParseIP of a host is not nil
  pub valid_endpoint : String → Bool
  pub outside_worktree : String → Bool
  pub supported_system : Bool  -- darwin or linux
  pub supported_processor : Bool  -- amd64 or arm64
  pub unprivileged : Bool  -- os.Geteuid() > 0
  pub current_directory : String  -- os.Getwd(), "" where it fails
  pub default_method : String
  pub normalize_method : String → String → String
  pub normalize_dialect : String → String

module _ (host : Host) where
  abbrev strings_or : String → Option (List String) → Result Problem (List String)
  strings_or label none = err (not_strings label)
  strings_or label (some xs) = ok xs

  abbrev map_or : String → Option (List (String × String)) → Result Problem (List (String × String))
  map_or label none = err (not_a_map label)
  map_or label (some m) = ok m

  -- parseJSONStringArray
  unfoldable pub parse_strings : String → String → Result Problem (List String)
  parse_strings raw label =
      if str_eq raw "" then ok [] else strings_or label (host.json_strings raw)

  -- parseJSONMap
  unfoldable pub parse_map : String → String → Result Problem (List (String × String))
  parse_map raw label = if str_eq raw "" then ok [] else map_or label (host.json_map raw)

  nonempty_parts : List String → List String
  nonempty_parts [] = []
  nonempty_parts (p ∷ ps) =
      let rest = nonempty_parts ps in if str_eq (trim_space p) "" then rest else trim_space p ∷ rest

  -- parseCommaList
  unfoldable pub parse_comma_list : String → List String
  unfolding nonempty_parts
  parse_comma_list raw = nonempty_parts (host.split_commas raw)
