-- ===== src/Driver/Clients.antt =====
-- What the driver finds where it starts, and what it makes of it: the watcher's client and the store of
-- credentials (pkg/watcher/watcher.go and pkg/secret/cache.go).
use container_image_csi_driv.Base.{
  ℕ, Bool, false, ◌||◌, Option, none, some, is_empty, if◌then◌else◌,
}
use container_image_csi_driv.Text.{Text}
use container_image_csi_driv.Secret.Store.{Parsers, ApiServer, CredentialStore, create_store}

pub record DriverFlags : Type 0 where
  pub endpoint : Text
  pub node : Text
  pub containerd_addr : Text
  pub runtime_addr : Text
  pub image_credential_provider_config : Text
  pub image_credential_provider_bin_dir : Text
  pub node_plugin_sa : Text
  pub enable_cache : Bool
  -- in seconds
  pub async_pull_timeout : ℕ
  pub mode : Text

-- Where the client of the API server finds its configuration.
pub data InCluster : Type 0 where
  in_cluster : Text → InCluster
  not_in_cluster : InCluster
  unreadable : InCluster

pub record Surroundings : Type 0 where
  pub in_cluster_config : InCluster
  -- clientcmd.BuildConfigFromFlags of the default file
  pub default_config : Option Text
  -- kubernetes.NewForConfig
  pub client_for : Text → Bool
  -- getCurrentNamespace
  pub current_namespace : Option Text
  -- the API server, as it answers for a namespace
  pub api_server : Text → ApiServer
  -- RegisterCredentialProviderPlugins; false for an error
  pub register_plugins : Text → Text → Bool
  -- NewRemoteImageService; false for an error
  pub connect_image_service : Text → Bool

-- watcher.New: `none` for an error, and `some none` for a nil watcher without one
unfoldable pub new_watcher : Surroundings → Option (Option Text)
new_watcher s = elim s.in_cluster_config [
  | in_cluster config ↦ if s.client_for config then some (some config) else none
  | not_in_cluster ↦ elim s.default_config [ none ↦ none | some config ↦ some none ]
  | unreadable ↦ none
]

-- initializeCredentialPlugins
unfoldable pub initialize_credential_plugins : Surroundings → Text → Text → Bool
initialize_credential_plugins s config_file bin_dir =
    if is_empty config_file || is_empty bin_dir
    then false
    else s.register_plugins config_file bin_dir

-- createSecretFetcher
unfoldable pub create_secret_fetcher : Surroundings → Option ApiServer
create_secret_fetcher s = elim s.in_cluster_config [
  | in_cluster config ↦
      if s.client_for config
      then elim s.current_namespace [ none ↦ none | some namespace ↦ some (s.api_server namespace) ]
      else none
  | not_in_cluster ↦ none
  | unreadable ↦ none
]

-- Without a service account there is no fetcher that could fail or ask.
abbrev no_server : ApiServer
no_server = record { service_account = none; secret = λ name. none }

abbrev fetcher_of : Surroundings → Text → Option ApiServer
fetcher_of s node_plugin_sa =
    if is_empty node_plugin_sa then some no_server else create_secret_fetcher s

-- CreateStoreOrDie
unfoldable pub create_store_or_die :
    (parsers : Parsers) → Surroundings → DriverFlags → Option (CredentialStore parsers)
unfolding initialize_credential_plugins create_secret_fetcher
create_store_or_die parsers s f = elim (fetcher_of s f.node_plugin_sa) [
  | none ↦ none
  | some api ↦ some (
      create_store parsers f.node_plugin_sa f.enable_cache api (
        initialize_credential_plugins s f.image_credential_provider_config
          f.image_credential_provider_bin_dir))
]
