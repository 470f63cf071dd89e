-- ===== src/Secret/Plugin.antt =====
-- pkg/secret/plugin.go: credential provider plugins. Running an executable, `filepath.Join`, `os.Stat`,
-- `os.Getenv` and the JSON codecs are parameters.
pub mod Region
pub mod First
pub mod Registered
use container_image_csi_driv.Base.{
  ℕ, Bool, true, false, not, ◌&&◌, ◌||◌, List, [], ◌∷◌, ◌++◌, Option, none, some, nat_beq,
  if◌then◌else◌, is_empty, map,
}
use container_image_csi_driv.Text.{Text, Text-eq, codes, text_eq}
use container_image_csi_driv.Strings.Path.{base_name}
use container_image_csi_driv.Strings.{has_prefix, has_suffix, contains, split, trim_prefix}
use container_image_csi_driv.Dict.{Dict, get, put}
use container_image_csi_driv.Secret.Base64.{encode}
use container_image_csi_driv.Secret.Auth.{AuthConfig}
use container_image_csi_driv.Secret.Registry.{extract_server_url, matches_image_pattern}

pub record EnvVar : Type 0 where
  pub name : Text
  pub value : Text

-- An entry of the config file's `providers`.
pub record CredentialProvider : Type 0 where
  pub provider_name : Text
  pub provider_match_images : List Text
  pub provider_api_version : Text
  pub provider_args : List Text
  pub provider_env : List EnvVar

pub record PluginConfig : Type 0 where
  pub plugin_name : Text
  pub executable : Text
  pub args : List Text
  pub env : List EnvVar
  pub api_version : Text
  pub match_images : List Text

-- Err, nil or a credential.
pub data Answer : Type 0 where
  failure : Answer
  no_credential : Answer
  credential : AuthConfig → Answer

-- A run of a command: its output, or an error with what it wrote to stderr.
pub data Run : Type 0 where
  output : Text → Run
  broke : Text → Run

pub record HelperOutput : Type 0 where
  pub server_url : Text
  pub helper_username : Text
  pub secret : Text

pub record Pair : Type 0 where
  pub pair_username : Text
  pub pair_password : Text

pub record Host : Type 0 where
  pub getenv : Text → Text
  -- executable, arguments, environment beside the driver's own, stdin
  pub run : Text → List Text → List EnvVar → Text → Run
  -- apiVersion, image
  pub marshal_request : Text → Text → Text
  pub unmarshal_helper : Text → Option HelperOutput
  -- strings.TrimSpace and json.Unmarshal; the map `auth` in the order of a range
  pub unmarshal_response : Text → Option (Dict Text Pair)
  pub join_path : Text → Text → Text
  -- the path exists and is no directory
  pub is_file : Text → Bool

unfoldable pub is_docker_credential_helper : Text → Bool
unfolding base_name
is_docker_credential_helper exe = has_prefix (base_name exe) (codes "docker-credential-")

unfoldable pub is_ecr_credential_helper : Text → Bool
unfolding base_name
is_ecr_credential_helper exe =
    let base = base_name exe in
    has_suffix base (codes "ecr-login") || contains base (codes "ecr-credential-helper")

unfoldable pub has_env : List EnvVar → Text → Bool
has_env [] name = false
has_env (e ∷ env) name = let later = has_env env name in if text_eq e.name name then true else later

-- len(parts) >= 4 && parts[1] == "dkr" && parts[2] == "ecr", and parts[3]
region_of_parts : List Text → Option Text
region_of_parts (account ∷ dkr ∷ ecr ∷ region ∷ parts) =
    if text_eq dkr (codes "dkr") && text_eq ecr (codes "ecr") then some region else none
region_of_parts _ = none

unfoldable pub region_of : Text → Option Text
unfolding region_of_parts
region_of url =
    if contains url (codes ".dkr.ecr.") && contains url (codes ".amazonaws.com")
    then region_of_parts (split (trim_prefix url (codes "https://")) b'.')
    else none

abbrev pub aws_region : Text
aws_region = codes "AWS_REGION"

abbrev pub keep_credential : Answer → Option AuthConfig → Option AuthConfig
keep_credential (credential a) later = some a
keep_credential _ later = later

module _ (host : Host) where
  open host use {
    getenv, run, marshal_request, unmarshal_helper, unmarshal_response, join_path, is_file,
  }

  unfoldable pub enrich_ecr_environment : Text → PluginConfig → PluginConfig
  enrich_ecr_environment url plugin =
      if has_env plugin.env aws_region || not (is_empty (getenv aws_region))
      then plugin
      else elim (region_of url) [
        | none ↦ plugin
        | some region ↦ record plugin {
          env = plugin.env ++ record { name = aws_region; value = region } ∷ [];
        }
      ]

  -- The credential of a helper's output, with the server's URL where the helper gives none.
  unfoldable pub auth_of_helper : HelperOutput → Text → Answer
  auth_of_helper o url =
      if is_empty o.helper_username && is_empty o.secret
      then no_credential
      else credential (record {
        username = o.helper_username;
        password = o.secret;
        auth =
            if not (is_empty o.helper_username) && not (is_empty o.secret)
            then encode (o.helper_username ++ b':' ∷ o.secret)
            else [];
        server_address = if is_empty o.server_url then url else o.server_url;
        identity_token = [];
        registry_token = [];
      })

  unfoldable pub parse_docker_credential_helper_output : Text → Text → Answer
  parse_docker_credential_helper_output out url = elim (unmarshal_helper out) [
    | none ↦ failure
    | some o ↦ auth_of_helper o url
  ]

  helper_answer : Run → Text → Answer
  helper_answer (output out) url =
      if is_empty out then no_credential else parse_docker_credential_helper_output out url
  helper_answer (broke std_err) url =
      if contains std_err (codes "credentials not found") || contains std_err (codes "not found")
      then no_credential
      else failure

  unfoldable pub call_docker_credential_helper : PluginConfig → Text → Answer
  unfolding helper_answer
  call_docker_credential_helper plugin image = elim (extract_server_url image) [
    | none ↦ failure
    | some url ↦
        let enriched =
          if is_ecr_credential_helper plugin.executable
          then enrich_ecr_environment url plugin
          else plugin in
        helper_answer
          (run plugin.executable (codes "get" ∷ []) enriched.env
            (trim_prefix url (codes "https://") ++ 10 ∷ []))
          url
  ]

  -- The first entry of the response.
  unfoldable pub auth_of_response : Dict Text Pair → Answer
  auth_of_response [] = no_credential
  auth_of_response ((registry, p) ∷ more) = credential (record {
    username = p.pair_username;
    password = p.pair_password;
    auth = encode (p.pair_username ++ b':' ∷ p.pair_password);
    server_address = [];
    identity_token = [];
    registry_token = [];
  })

  unfoldable pub parse_credential_provider_response : Text → Answer
  parse_credential_provider_response out = elim (unmarshal_response out) [
    | none ↦ failure
    | some response ↦ auth_of_response response
  ]

  custom_answer : Run → Answer
  custom_answer (output out) = parse_credential_provider_response out
  custom_answer (broke std_err) = failure

  unfoldable pub call_custom_plugin : PluginConfig → Text → Answer
  unfolding custom_answer
  call_custom_plugin plugin image =
      custom_answer
        (run plugin.executable plugin.args plugin.env (marshal_request plugin.api_version image))

  unfoldable pub call_plugin : PluginConfig → Text → Answer
  call_plugin plugin image =
      if is_docker_credential_helper plugin.executable
      then call_docker_credential_helper plugin image
      else call_custom_plugin plugin image

  -- for name, plugin := range registeredPlugins; its error is always nil
  unfoldable pub get_credential_from_plugin : Dict Text PluginConfig → Text → Option AuthConfig
  get_credential_from_plugin [] image = none
  get_credential_from_plugin ((name, plugin) ∷ registered) image =
      let later = get_credential_from_plugin registered image in
      if matches_image_pattern image plugin.match_images
      then keep_credential (call_plugin plugin image) later
      else later

  -- pluginDockerKeyring.Lookup
  unfoldable pub lookup_plugins : Dict Text PluginConfig → Text → List AuthConfig × Bool
  lookup_plugins registered image = elim (get_credential_from_plugin registered image) [
    | none ↦ ([], false)
    | some a ↦ (a ∷ [], true)
  ]

  abbrev plugin_of : Text → CredentialProvider → PluginConfig
  plugin_of executable_dir p = record {
    plugin_name = p.provider_name;
    executable = join_path executable_dir p.provider_name;
    args = p.provider_args;
    env = p.provider_env;
    api_version = p.provider_api_version;
    match_images = p.provider_match_images;
  }

  -- The loop of RegisterCredentialProviderPlugins.
  unfoldable pub register_providers :
      Text → List CredentialProvider → Dict Text PluginConfig → Dict Text PluginConfig
  register_providers executable_dir [] registered = registered
  register_providers executable_dir (p ∷ providers) registered =
      register_providers executable_dir providers (
        if is_file (join_path executable_dir p.provider_name)
        then put p.provider_name (plugin_of executable_dir p) registered
        else registered)
