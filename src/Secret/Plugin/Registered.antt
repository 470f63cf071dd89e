-- ===== src/Secret/Plugin/Registered.antt =====
-- What the registry of plugins holds after a config file was read.
use container_image_csi_driv.Base.{
  ◌≡◌, refl, ◌∙◌, ◌&&◌, List, [], ◌∷◌, Option, none, some, arith, inl, inr, if◌then◌else◌,
  Bool-cases,
}
use container_image_csi_driv.Text.{Text, Text-eq, text_eq}
use container_image_csi_driv.Dict.{Dict, get, put, get-put}
use container_image_csi_driv.Secret.Plugin.{
  Host, CredentialProvider, PluginConfig, plugin_of, register_providers,
}

abbrev pub or_registered : Option PluginConfig → Option PluginConfig → Option PluginConfig
or_registered none old = old
or_registered (some new) old = some new

module _ (host : Host) (executable_dir : Text) where
  open host use {join_path, is_file}

  -- The last provider of the name whose executable is a file.
  abbrev pub last_usable : Text → List CredentialProvider → Option PluginConfig
  last_usable name [] = none
  last_usable name (p ∷ providers) = elim (last_usable name providers) [
    | some found ↦ some found
    | none ↦
        if text_eq p.provider_name name && is_file (join_path executable_dir p.provider_name)
        then some (plugin_of host executable_dir p)
        else none
  ]

  -- Under each name, the registry holds the last provider of that name whose executable is a file,
  -- and what it held before where there is none.
  get-register_providers :
      (name : Text) (providers : List CredentialProvider) (registered : Dict Text PluginConfig)
      → get name (register_providers host executable_dir providers registered)
        ≡ or_registered (last_usable name providers) (get name registered)
  unfolding register_providers
  get-register_providers name [] registered = refl
  get-register_providers name (p ∷ providers) registered =
      elim (Bool-cases (is_file (join_path executable_dir p.provider_name))) [
        | inl file ↦ rw file (
            get-register_providers name providers
              (put p.provider_name (plugin_of host executable_dir p) registered)
            ∙ ground (
              arith,
              file,
              get-put p.provider_name name (plugin_of host executable_dir p) registered,
            ))
        | inr no_file ↦
            rw no_file (get-register_providers name providers registered ∙ ground (arith, no_file))
      ]
