-- ===== src/Secret/Plugin/First.antt =====
-- The plugin that answers.
use container_image_csi_driv.Base.{
  ◌≡◌, ◌≢◌, ◌↔◌, refl, ap, ◌∙◌, Bool, true, false, List, [], ◌∷◌, Option, none, some,
  some-injective, inl, inr, Bool-cases,
}
use container_image_csi_driv.Text.{Text}
use container_image_csi_driv.Dict.{Dict}
use container_image_csi_driv.Secret.Registry.{matches_image_pattern}
use container_image_csi_driv.Secret.Auth.{AuthConfig}
use container_image_csi_driv.Secret.Keyring.Union.{Tidy}
use container_image_csi_driv.Secret.Plugin.{
  Host, PluginConfig, Answer, failure, no_credential, credential, keep_credential, call_plugin,
  get_credential_from_plugin, lookup_plugins,
}

module _ (host : Host) (image : Text) where
  -- The plugin is for the image and has the credential.
  abbrev pub Gives : AuthConfig → Text × PluginConfig → Type 0
  Gives a entry =
      (matches_image_pattern image entry.1.match_images ≡ true)
      × (call_plugin host entry.1 image ≡ credential a)

  -- A registry in which a plugin gives the credential and none before it gives any.
  pub data First (a : AuthConfig) : Dict Text PluginConfig → Type 0 where
    now : {e : Text × PluginConfig} {m : Dict Text PluginConfig} → Gives a e → First a (e ∷ m)
    later :
        {e : Text × PluginConfig} {m : Dict Text PluginConfig}
        → ((b : AuthConfig) → Gives b e → ⊥)
        → First a m
        → First a (e ∷ m)

  module _ (a : AuthConfig) (e : Text × PluginConfig) (m : Dict Text PluginConfig) where
    abbrev found : Option AuthConfig
    found = get_credential_from_plugin host m image

    abbrev call : Answer
    call = call_plugin host e.1 image

    abbrev fits : Bool
    fits = matches_image_pattern image e.1.match_images

    answered :
        (x : Answer)
        → call ≡ x
        → fits ≡ true
        → (found ≡ some a → First a m)
        → keep_credential x found ≡ some a
        → First a (e ∷ m)
    answered failure c f rest h = later (λ b g. cc (g.1)) (rest h)
    answered no_credential c f rest h = later (λ b g. cc (g.1)) (rest h)
    answered (credential b) c f rest h = now (f, c ∙ ap credential (some-injective b a h))

    sound :
        (found ≡ some a → First a m)
        → get_credential_from_plugin host (e ∷ m) image ≡ some a
        → First a (e ∷ m)
    unfolding get_credential_from_plugin
    sound rest h = elim (Bool-cases fits) [
      | inl f ↦ answered call refl f rest (rw f at h)
      | inr n ↦ later (λ b g. cc (g.0)) (rest (rw n at h))
    ]

    passed :
        (x : Answer)
        → call ≡ x
        → fits ≡ true
        → ((b : AuthConfig) → Gives b e → ⊥)
        → found ≡ some a
        → keep_credential x found ≡ some a
    passed failure c f none_given h = h
    passed no_credential c f none_given h = h
    passed (credential b) c f none_given h = absurd (none_given b (f, c))

    complete :
        (First a m → found ≡ some a)
        → First a (e ∷ m)
        → get_credential_from_plugin host (e ∷ m) image ≡ some a
    unfolding get_credential_from_plugin
    complete rest (now g) = rw (g.0, g.1) refl
    complete rest (later n r) = elim (Bool-cases fits) [
      | inl f ↦ rw f (passed call refl f n (rest r))
      | inr no_fit ↦ rw no_fit (rest r)
    ]

  nothing : (a : AuthConfig) → get_credential_from_plugin host [] image ≢ some a
  unfolding get_credential_from_plugin
  nothing a h = cc h

  -- In every order of the registry, the credential for an image is the one of the first plugin
  -- whose patterns match the image and that gives one; plugins that fail are passed over.
  pub get_credential_iff :
      (a : AuthConfig) (m : Dict Text PluginConfig)
      → (get_credential_from_plugin host m image ≡ some a) ↔ First a m
  get_credential_iff a [] = (λ h. absurd (nothing a h), elim [ ])
  get_credential_iff a (e ∷ m) =
      let rest = get_credential_iff a m in (sound a e m rest.0, complete a e m rest.1)

  lookup-Tidy :
      (o : Option AuthConfig)
      → Tidy (
          some (elim o as (λ _. List AuthConfig × Bool) [
            | none ↦ ([], false)
            | some a ↦ (a ∷ [], true)
          ]))
  lookup-Tidy none = refl
  lookup-Tidy (some a) = tt

  pub lookup_plugins-Tidy : (m : Dict Text PluginConfig) → Tidy (some (lookup_plugins host m image))
  unfolding lookup_plugins
  lookup_plugins-Tidy m = lookup-Tidy (get_credential_from_plugin host m image)
