-- ===== src/Secret/Store.antt =====
-- pkg/secret/cache.go: the keyrings of the volume context, of the service account's secrets and of
-- the plugins, and their union. `json.Unmarshal` of the two config formats and the API server's
-- answers are parameters.
pub mod Priority
use container_image_csi_driv.Base.{
  Bool, true, false, List, [], ◌∷◌, ◌++◌, Option, none, some, not, ◌||◌, is_empty, or_else,
  if◌then◌else◌,
}
use container_image_csi_driv.Text.{Text, Text-eq, codes}
use container_image_csi_driv.Dict.{Dict, get}
use container_image_csi_driv.Secret.Auth.{DockerConfig}
use container_image_csi_driv.Secret.Keyring.{Keyring, basic, union, plugins, Keyrings, end, ring}

-- The data of a secret.
abbrev pub SecretData : Type 0
SecretData = Dict Text Text

-- cred, err: an error, a nil map, or a config
pub data Parsed : Type 0 where
  failed : Parsed
  no_config : Parsed
  parsed : DockerConfig → Parsed

-- The two readers of configs, by json.Unmarshal.
pub record Parsers : Type 0 where
  pub parse_docker_config_json : Text → Parsed
  pub parse_legacy_docker_config : Text → Parsed

-- What the API server answers: the names of the secrets of the service account, and each secret.
pub record ApiServer : Type 0 where
  pub service_account : Option (List Text)
  pub secret : Text → Option SecretData

abbrev pub add_ring : Option Keyring → List Keyring → List Keyring
add_ring none rings = rings
add_ring (some k) rings = k ∷ rings

module _ (parsers : Parsers) where
  open parsers use {parse_docker_config_json, parse_legacy_docker_config}

  -- existed && len(bytes) > 0
  abbrev filled : Text → SecretData → Option Text
  filled key secret = elim (get key secret) [
    | none ↦ none
    | some bytes ↦ if is_empty bytes then none else some bytes
  ]

  unfoldable pub parse_docker_config_from_secret_data : SecretData → Parsed
  parse_docker_config_from_secret_data secret = elim (filled (codes ".dockerconfigjson") secret) [
    | some bytes ↦ parse_docker_config_json bytes
    | none ↦ elim (filled (codes ".dockercfg") secret) [
      | some bytes ↦ parse_legacy_docker_config bytes
      | none ↦ no_config
    ]
  ]

  -- One more secret, before the others; `none` is the error.
  add_config : Parsed → Option (List DockerConfig) → Option (List DockerConfig)
  add_config failed later = none
  add_config no_config later = later
  add_config (parsed cfg) none = none
  add_config (parsed cfg) (some configs) = some (cfg ∷ configs)

  unfoldable pub make_docker_keyring_from_secrets : List SecretData → Option (List DockerConfig)
  unfolding add_config
  make_docker_keyring_from_secrets [] = some []
  make_docker_keyring_from_secrets (secret ∷ secrets) =
      let later = make_docker_keyring_from_secrets secrets in
      if is_empty secret
      then later
      else add_config (parse_docker_config_from_secret_data secret) later

  unfoldable pub make_docker_keyring_from_map : SecretData → Option (List DockerConfig)
  unfolding add_config
  make_docker_keyring_from_map secret =
      if is_empty secret
      then some []
      else add_config (parse_docker_config_from_secret_data secret) (some [])

  -- secretFetcher.getSecrets: a secret that cannot be read is left out
  get_secrets : (Text → Option SecretData) → List Text → List SecretData
  get_secrets read [] = []
  get_secrets read (name ∷ refs) =
      let rest = get_secrets read refs in elim (read name) [ none ↦ rest | some s ↦ s ∷ rest ]

  unfoldable pub fetch : ApiServer → Option (List SecretData)
  unfolding get_secrets
  fetch api = elim api.service_account [
    | none ↦ none
    | some refs ↦ some (get_secrets api.secret refs)
  ]

  -- secretFetcher.GetKeyring; `none` is an error
  unfoldable pub get_keyring : ApiServer → Option Keyring
  get_keyring api = elim (fetch api) [
    | none ↦ none
    | some secrets ↦ elim (make_docker_keyring_from_secrets secrets) [
      | none ↦ none
      | some configs ↦ some (basic configs)
    ]
  ]

  -- createCachedFetcher: what fails at the start counts as no secrets
  unfoldable pub create_cached_fetcher : ApiServer → Keyring
  create_cached_fetcher api = elim (make_docker_keyring_from_secrets (or_else (fetch api) [])) [
    | none ↦ basic []
    | some configs ↦ basic configs
  ]

  -- keyringProvider: nil, secretFetcher or cachedSecretsFetcher
  pub data Fetcher : Type 0 where
    no_fetcher : Fetcher
    dynamic : Fetcher
    cached : Keyring → Fetcher

  pub record CredentialStore : Type 0 where
    pub secrets_fetcher : Fetcher
    pub plugins_enabled : Bool

  -- initializeSecretFetcher, where the fetcher itself can be made
  unfoldable pub initialize_secret_fetcher : Text → Bool → ApiServer → Fetcher
  initialize_secret_fetcher node_plugin_sa enable_cache api =
      if is_empty node_plugin_sa
      then no_fetcher
      else if enable_cache
      then cached (create_cached_fetcher api)
      else dynamic

  unfoldable pub create_store : Text → Bool → ApiServer → Bool → CredentialStore
  create_store node_plugin_sa enable_cache api registered = record {
    secrets_fetcher = initialize_secret_fetcher node_plugin_sa enable_cache api;
    plugins_enabled = registered;
  }

  pub volume_keyring : SecretData → Option Keyring
  volume_keyring secret =
      if is_empty secret then none else elim (make_docker_keyring_from_map secret) [
        | none ↦ none
        | some configs ↦ some (basic configs)
      ]

  pub account_keyring : Fetcher → ApiServer → Option Keyring
  account_keyring no_fetcher api = none
  account_keyring dynamic api = get_keyring api
  account_keyring (cached k) api = some k

  unfoldable pub collect_keyrings : CredentialStore → SecretData → ApiServer → List Keyring
  unfolding volume_keyring account_keyring
  collect_keyrings store secret api = add_ring (volume_keyring secret) (
      add_ring (account_keyring store.secrets_fetcher api)
        (if store.plugins_enabled then plugins ∷ [] else []))

abbrev pub keyrings_of : List Keyring → Keyrings
keyrings_of [] = end
keyrings_of (k ∷ rings) = ring k (keyrings_of rings)

unfoldable pub create_union_keyring : List Keyring → Keyring
create_union_keyring [] = basic []
create_union_keyring (k ∷ []) = k
create_union_keyring (k ∷ l ∷ rings) = union (keyrings_of (k ∷ l ∷ rings))

unfoldable pub get_docker_keyring :
    (parsers : Parsers) → CredentialStore parsers → SecretData → ApiServer → Keyring
get_docker_keyring parsers store secret api =
    create_union_keyring (collect_keyrings parsers store secret api)
