-- ===== src/Secret/Keyring.antt =====
-- pkg/secret/types.go: the keyrings and their lookups. A lookup that reads a nil entry of a docker
-- config panics: `none`.
pub mod Union
pub mod Addresses
use container_image_csi_driv.Base.{
  Bool, true, false, ◌||◌, List, [], ◌∷◌, ◌++◌, Option, none, some, not, is_empty, if◌then◌else◌,
}
use container_image_csi_driv.Text.{Text}
use container_image_csi_driv.Secret.Registry.{split_image_name}
use container_image_csi_driv.Secret.Auth.{
  AuthConfig, DockerConfig, Match, nil_entry, unmatched, matched, match_registry,
}

-- What Lookup returns.
abbrev pub Found : Type 0
Found = Option (List AuthConfig × Bool)

-- BasicDockerKeyring, UnionDockerKeyring and pluginDockerKeyring; a union may hold nil interfaces.
mutual
  pub data Keyring : Type 0 where
    basic : List DockerConfig → Keyring
    union : Keyrings → Keyring
    plugins : Keyring

  pub data Keyrings : Type 0 where
    end : Keyrings
    nil : Keyrings → Keyrings
    ring : Keyring → Keyrings → Keyrings

abbrev with_match : Match → Option (List AuthConfig) → Option (List AuthConfig)
with_match nil_entry later = none
with_match unmatched later = later
with_match (matched a) none = none
with_match (matched a) (some found) = some (a ∷ found)

-- for _, cfg := range dk.Configs
pub matches_of : List DockerConfig → Text → Option (List AuthConfig)
matches_of [] registry_url = some []
matches_of (cfg ∷ configs) registry_url =
    with_match (match_registry cfg registry_url) (matches_of configs registry_url)

abbrev pub with_found : Option (List AuthConfig) → Found
with_found none = none
with_found (some found) = some (found, not (is_empty found))

lookup_registry : List DockerConfig → List Text → Found
lookup_registry configs [] = some ([], false)
lookup_registry configs (registry_url ∷ parts) =
    if is_empty registry_url then some ([], false) else with_found (matches_of configs registry_url)

unfoldable pub lookup_basic : List DockerConfig → Text → Found
unfolding lookup_registry
lookup_basic configs image = lookup_registry configs (split_image_name image)

-- configs, ok := subKeyring.Lookup(image); the configs count only where `ok`
abbrev pub join_found : Found → Found → Found
join_found none later = none
join_found (some first) none = none
join_found (some (found1, false)) (some (found2, ok)) = some (found2, ok)
join_found (some (found1, true)) (some (found2, ok)) = some (found1 ++ found2, true)

module _ (plugin_lookup : Text → List AuthConfig × Bool) where
  unfoldable mutual
    unfolding lookup_basic

    pub lookup : Keyring → Text → Found
    lookup (basic configs) image = lookup_basic configs image
    lookup (union rings) image = lookup_all rings image
    lookup plugins image = some (plugin_lookup image)

    pub lookup_all : Keyrings → Text → Found
    lookup_all end image = some ([], false)
    lookup_all (nil rings) image = lookup_all rings image
    lookup_all (ring k rings) image = join_found (lookup k image) (lookup_all rings image)
