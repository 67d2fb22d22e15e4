-- ===== src/Provider/Endpoint.antt =====
-- The address of a model API: pkg/adapters/model_endpoint.go. url.Parse and net.ParseIP are
-- outside.
use Prim.Native.String.{String}
use openlinker_agent_node.Base.{
  ends_with, ℕ, ◌-◌, Bool, false, ◌&&◌, ◌||◌, not, List, [], ◌∷◌, Option, none, some, leb, ◌==◌,
  if◌then◌else◌, str_eq, to_lower_code, codes, codes_eq, any, all, map, length, take, drop,
  codes_prefix,
}
use openlinker_agent_node.Config.Sandbox.{labels, good_label}
use openlinker_agent_node.Provider.{ProviderConfig}

-- url.URL
pub record Url : Type 0 where
  pub scheme : String
  pub opaque : String
  pub host : String
  pub hostname : String
  pub port : String
  pub has_user : Bool
  pub raw_query : String
  pub force_query : Bool
  pub fragment : String
  pub path : String

abbrev bad_code : ℕ → Bool
bad_code c = c == 0 || any (λ (x : ℕ). x == c) (codes "\\%?# \t\r\n")

abbrev segment_first : ℕ → List (List ℕ) → List (List ℕ)
segment_first c [] = (c ∷ []) ∷ []
segment_first c (l ∷ ls) = (c ∷ l) ∷ ls

-- strings.Split(path, "/")
abbrev segments : List ℕ → List (List ℕ)
segments [] = [] ∷ []
segments (c ∷ cs) = let rest = segments cs in if c == b'/' then [] ∷ rest else segment_first c rest

-- strings.TrimPrefix(strings.TrimSuffix(path, "/"), "/")
abbrev trim_slashes : List ℕ → List ℕ
trim_slashes p =
    let q = if ends_with (codes "/") p then take (length p - 1) p else p in
    if codes_prefix (codes "/") q then drop 1 q else q

abbrev good_segment : String → List ℕ → Bool
good_segment path s =
    not (codes_eq s (codes "."))
    && not (codes_eq s (codes ".."))
    && not (length s == 0 && not (str_eq path "") && not (str_eq path "/"))

-- the loop over the path
unfoldable pub good_path : String → Bool
good_path path = all (good_segment path) (segments (trim_slashes (codes path)))

unfoldable pub good_url : String → Url → Bool
good_url raw u =
    str_eq u.scheme "https"
    && str_eq u.opaque ""
    && not (str_eq u.host "")
    && not u.has_user
    && str_eq u.raw_query ""
    && not u.force_query
    && str_eq u.fragment ""
    && not (any bad_code (codes raw))
    && (str_eq u.port "" || str_eq u.port "443")

-- the tests of the host, in lower case
unfoldable pub good_host : (List ℕ → Bool) → Url → Bool
good_host is_ip u =
    let host = map to_lower_code (codes u.hostname) in
    leb (length host) 253
    && not (ends_with (codes ":") (codes u.host))
    && not (is_ip host)
    && any (λ c. c == b'.') host
    && not (ends_with (codes ".local") host)
    && not (ends_with (codes ".localhost") host)
    && all (λ l. good_label l && leb (length l) 63) (labels host)

module _ (parse : String → Option Url) (is_ip : List ℕ → Bool) where
  -- ValidateModelEndpoint
  unfoldable pub valid_model_endpoint : String → Bool
  unfolding good_url good_host good_path
  valid_model_endpoint raw = elim (parse raw) [
    | none ↦ false
    | some u ↦ good_url raw u && good_host is_ip u && good_path u.path
  ]

  -- validateIsolatedModelEndpoint
  unfoldable pub valid_isolated_endpoint : ProviderConfig → Bool
  unfolding valid_model_endpoint
  valid_isolated_endpoint c =
      let endpoint = if str_eq c.provider "claude" then c.claude_base_url else c.codex_base_url in
      str_eq endpoint "" || valid_model_endpoint endpoint
