-- ===== src/Secret/Store/Priority.antt =====
-- The credentials of a store, in the order of their sources.
use container_image_csi_driv.Base.{
  ◌≡◌, refl, sym, ap, ◌∙◌, Bool, true, false, List, [], ◌∷◌, Option, none, some, if◌then◌else◌,
}
use container_image_csi_driv.Text.{Text}
use container_image_csi_driv.Secret.Auth.{AuthConfig}
use container_image_csi_driv.Secret.Keyring.{
  Found, Keyring, plugins, join_found, lookup, lookup_all, lookup_basic,
}
use container_image_csi_driv.Secret.Keyring.Union.{
  Tidy, join_found-empty, lookup_basic-nil, join_found-none, lookup-Tidy,
}
use container_image_csi_driv.Dict.{Dict}
use container_image_csi_driv.Secret.Plugin.{Host, PluginConfig, lookup_plugins}
use container_image_csi_driv.Secret.Plugin.First.{lookup_plugins-Tidy}
use container_image_csi_driv.Secret.Store.{
  Parsers, ApiServer, SecretData, CredentialStore, volume_keyring, account_keyring, add_ring,
  collect_keyrings, keyrings_of, create_union_keyring, get_docker_keyring,
}

-- What one source contributes; a source that is missing or failed contributes nothing.
abbrev pub found_in : (Text → List AuthConfig × Bool) → Option Keyring → Text → Found
found_in plugin_lookup none image = some ([], false)
found_in plugin_lookup (some k) image = lookup plugin_lookup k image

module _ (plugin_lookup : Text → List AuthConfig × Bool)
    (plugin_tidy : (image : Text) → Tidy (some (plugin_lookup image))) where
  -- However many keyrings there are.
  create_union-lookup :
      (rings : List Keyring) (image : Text)
      → lookup plugin_lookup (create_union_keyring rings) image
        ≡ lookup_all plugin_lookup (keyrings_of rings) image
  unfolding create_union_keyring lookup lookup_all lookup_basic
  create_union-lookup [] image = lookup_basic-nil image
  create_union-lookup (k ∷ []) image = sym (
      join_found-none (lookup plugin_lookup k image)
        (lookup-Tidy plugin_lookup plugin_tidy k image))
  create_union-lookup (k ∷ l ∷ rings) image = refl

  add_ring-lookup :
      (source : Option Keyring) (rings : List Keyring) (image : Text)
      → lookup_all plugin_lookup (keyrings_of (add_ring source rings)) image
        ≡ join_found
            (found_in plugin_lookup source image)
            (lookup_all plugin_lookup (keyrings_of rings) image)
  unfolding lookup lookup_all
  add_ring-lookup none rings image =
      sym (join_found-empty (lookup_all plugin_lookup (keyrings_of rings) image))
  add_ring-lookup (some k) rings image = refl

  plugin_ring :
      (enabled : Bool) (image : Text)
      → lookup_all plugin_lookup (keyrings_of (if enabled then plugins ∷ [] else [])) image
        ≡ (if enabled then some (plugin_lookup image) else some ([], false))
  unfolding lookup lookup_all
  plugin_ring true image = join_found-none (some (plugin_lookup image)) (plugin_tidy image)
  plugin_ring false image = refl

  get_docker_keyring-lookup :
      (parsers : Parsers) (store : CredentialStore parsers) (secret : SecretData) (api : ApiServer)
      (image : Text)
      → lookup plugin_lookup (get_docker_keyring parsers store secret api) image
        ≡ join_found (found_in plugin_lookup (volume_keyring parsers secret) image) (
            join_found
              (found_in plugin_lookup (account_keyring parsers store.secrets_fetcher api) image)
              (if store.plugins_enabled then some (plugin_lookup image) else some ([], false)))
  unfolding get_docker_keyring collect_keyrings
  get_docker_keyring-lookup parsers store secret api image =
      let account = account_keyring parsers store.secrets_fetcher api in
      let last = if store.plugins_enabled then plugins ∷ [] else [] in
      create_union-lookup (collect_keyrings parsers store secret api) image
      ∙ add_ring-lookup (volume_keyring parsers secret) (add_ring account last) image
      ∙ ap (join_found (found_in plugin_lookup (volume_keyring parsers secret) image)) (
          add_ring-lookup account last image
          ∙ ap (join_found (found_in plugin_lookup account image))
              (plugin_ring store.plugins_enabled image))

-- The credentials that a store's keyring gives for an image: those of the volume context, then those
-- of the driver's service account, then that of the plugins if they are enabled. A source that is
-- missing or fails takes nothing away from the others, and the number of sources does not matter.
pub credentials_in_order :
    (host : Host) (registered : Dict Text PluginConfig) (parsers : Parsers)
    (store : CredentialStore parsers) (secret : SecretData) (api : ApiServer) (image : Text)
    → let by_plugins = lookup_plugins host registered in
      lookup by_plugins (get_docker_keyring parsers store secret api) image
      ≡ join_found (found_in by_plugins (volume_keyring parsers secret) image) (
          join_found
            (found_in by_plugins (account_keyring parsers store.secrets_fetcher api) image)
            (if store.plugins_enabled then some (by_plugins image) else some ([], false)))
credentials_in_order host registered =
    get_docker_keyring-lookup (lookup_plugins host registered)
      (λ image. lookup_plugins-Tidy host image registered)
