-- ===== src/Secret/Registry.antt =====
-- The registry of an image name: `extractRegistryFromImage`, `extractServerURL` and
-- `matchesImagePattern` of pkg/secret/plugin.go, `splitImageName` of pkg/secret/types.go.
pub mod Ports
use container_image_csi_driv.Base.{
  Bool, true, false, List, [], ◌∷◌, ◌++◌, Option, none, some, if◌then◌else◌,
}
use container_image_csi_driv.Text.{Text, codes}
use container_image_csi_driv.Strings.{split, first_part, contains_any}
use container_image_csi_driv.Secret.Wildcard.{matches_pattern}

abbrev pub docker_io : Text
docker_io = codes "docker.io"

abbrev pub index_docker_io : Text
index_docker_io = codes "https://index.docker.io"

-- A first part with a dot or a colon is a host.
abbrev pub is_host : Text → Bool
is_host part = contains_any part (codes ".:")

-- Both cut the name at its slashes and look at the first part, if there are two.
pub registry_of_parts : List Text → Text
registry_of_parts [] = docker_io
registry_of_parts (p ∷ []) = docker_io
registry_of_parts (p ∷ q ∷ ps) = if is_host p then p else docker_io

unfoldable pub split_image_name : Text → List Text
unfolding registry_of_parts
split_image_name image_name = registry_of_parts (split image_name b'/') ∷ []

unfoldable pub extract_registry_from_image : Text → Text
unfolding registry_of_parts
extract_registry_from_image image = registry_of_parts (split (first_part (split image b'@')) b'/')

-- `none` is the error; split gives one part at least.
pub server_url_of_parts : List Text → Option Text
server_url_of_parts [] = none
server_url_of_parts (p ∷ []) = some index_docker_io
server_url_of_parts (p ∷ q ∷ ps) =
    if is_host p then some (codes "https://" ++ p) else some index_docker_io

unfoldable pub extract_server_url : Text → Option Text
unfolding server_url_of_parts
extract_server_url image =
    server_url_of_parts (split (first_part (split (first_part (split image b'@')) b':')) b'/')

-- for _, pattern := range patterns
any_pattern : Text → List Text → Bool
any_pattern registry [] = false
any_pattern registry (p ∷ patterns) =
    let later = any_pattern registry patterns in if matches_pattern registry p then true else later

unfoldable pub matches_image_pattern : Text → List Text → Bool
unfolding any_pattern
matches_image_pattern image [] = true
matches_image_pattern image (p ∷ patterns) =
    any_pattern (extract_registry_from_image image) (p ∷ patterns)
