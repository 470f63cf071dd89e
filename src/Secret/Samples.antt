-- ===== src/Secret/Samples.antt =====
-- Image names, docker configs, plugins and a store.
use container_image_csi_driv.Base.{◌≡◌, ◌↔◌, refl, true, [], ◌∷◌, ◌++◌, none, some, arith}
use container_image_csi_driv.Text.{Text, Text-eq, codes}
use container_image_csi_driv.Dict.{Dict}
use container_image_csi_driv.Secret.Registry.{
  index_docker_io, extract_registry_from_image, extract_server_url,
}
use container_image_csi_driv.Secret.Registry.Ports.{server_url_drops_port}
use container_image_csi_driv.Secret.Auth.{
  AuthConfig, DockerConfig, normalize_auth_config, match_registry,
}
use container_image_csi_driv.Secret.Base64.{encode}
use container_image_csi_driv.Secret.Auth.Normal.{normalize_roundtrip}
use container_image_csi_driv.Secret.Auth.Precedence.{Precedence, match_registry-Precedence}
use container_image_csi_driv.Secret.Keyring.{lookup, lookup_basic, join_found}
use container_image_csi_driv.Secret.Keyring.Addresses.{Announced, lookup_basic-Announced}
use container_image_csi_driv.Secret.Plugin.{
  Host, output, CredentialProvider, PluginConfig, get_credential_from_plugin, lookup_plugins,
}
use container_image_csi_driv.Secret.Plugin.First.{First, get_credential_iff}
use container_image_csi_driv.Secret.Store.{
  Parsers, parsed, no_config, ApiServer, CredentialStore, dynamic, SecretData, get_docker_keyring,
  volume_keyring, account_keyring,
}
use container_image_csi_driv.Secret.Store.Priority.{found_in, credentials_in_order}

abbrev ghcr : Text
ghcr = codes "ghcr.io"

abbrev local_host : Text
local_host = codes "my"

server_url_drops_port_example :
    (extract_registry_from_image (local_host ++ b':' ∷ (codes "5000" ++ b'/' ∷ codes "app"))
      ≡ local_host ++ b':' ∷ codes "5000")
    × (extract_server_url (local_host ++ b':' ∷ (codes "5000" ++ b'/' ∷ codes "app"))
        ≡ some index_docker_io)
server_url_drops_port_example =
    server_url_drops_port local_host (codes "5000") (codes "app") (ground arith) (ground arith)
      (ground arith) (ground arith) (ground arith)

abbrev login : AuthConfig
login = record {
  username = codes "u";
  password = codes "p";
  auth = [];
  server_address = [];
  identity_token = [];
  registry_token = [];
}

normalize_roundtrip_example :
    let full = normalize_auth_config login in
    normalize_auth_config (record full { username = []; password = [] }) ≡ full
normalize_roundtrip_example =
    normalize_roundtrip login refl refl refl (ground arith) (ground arith) (ground arith)

abbrev hub_config : DockerConfig
hub_config = (codes "https://index.docker.io/v1/", some login) ∷ []

match_registry-Precedence_example :
    Precedence (codes "docker.io") hub_config (match_registry hub_config (codes "docker.io"))
match_registry-Precedence_example = match_registry-Precedence (codes "docker.io") hub_config

lookup_basic-Announced_example : Announced (lookup_basic (hub_config ∷ []) (codes "nginx"))
lookup_basic-Announced_example = lookup_basic-Announced (hub_config ∷ []) (codes "nginx")

-- A node where every command prints `ok`, and no executable is missing.
abbrev quiet_host : Host
quiet_host = record {
  getenv = λ name. [];
  run = λ exe args env stdin. output (codes "ok");
  marshal_request = λ version image. image;
  unmarshal_helper = λ out. none;
  unmarshal_response = λ out.
      some ((codes "*", record { pair_username = codes "u"; pair_password = codes "p" }) ∷ []);
  join_path = λ dir name. dir ++ b'/' ∷ name;
  is_file = λ path. true;
}

abbrev provider : CredentialProvider
provider = record {
  provider_name = codes "any";
  provider_match_images = [];
  provider_api_version = codes "v1";
  provider_args = [];
  provider_env = [];
}

abbrev plugin : PluginConfig
plugin = record {
  plugin_name = codes "any";
  executable = codes "/bin/any";
  args = [];
  env = [];
  api_version = codes "v1";
  match_images = [];
}

abbrev registry : Dict Text PluginConfig
registry = (codes "any", plugin) ∷ []

abbrev answered : AuthConfig
answered = record login { auth = encode (codes "u:p") }

get_credential_iff_example :
    (get_credential_from_plugin quiet_host registry (codes "nginx") ≡ some answered)
    ↔ First quiet_host (codes "nginx") answered registry
get_credential_iff_example = get_credential_iff quiet_host (codes "nginx") answered registry

abbrev parsers : Parsers
parsers = record {
  parse_docker_config_json = λ bytes. parsed hub_config;
  parse_legacy_docker_config = λ bytes. no_config;
}

abbrev store : CredentialStore parsers
store = record { secrets_fetcher = dynamic; plugins_enabled = true }

abbrev api : ApiServer
api = record { service_account = some []; secret = λ name. none }

abbrev volume_secret : SecretData
volume_secret = (codes ".dockerconfigjson", codes "{}") ∷ []

credentials_in_order_example :
    let by_plugins = lookup_plugins quiet_host registry in
    lookup by_plugins (get_docker_keyring parsers store volume_secret api) (codes "nginx")
    ≡ join_found (found_in by_plugins (volume_keyring parsers volume_secret) (codes "nginx")) (
        join_found
          (found_in by_plugins (account_keyring parsers dynamic api) (codes "nginx"))
          (some (by_plugins (codes "nginx"))))
credentials_in_order_example =
    credentials_in_order quiet_host registry parsers store volume_secret api (codes "nginx")
