-- ===== src/Csi/Controller.antt =====
-- cmd/plugin/controller_server.go: `CreateVolume` and `ValidateVolumeCapabilities`, with `GetImage` of
-- pkg/watcher/watcher.go. The index of the informer is a parameter.
pub mod Modes
use container_image_csi_driv.Base.{
  ℕ, ◌*◌, Bool, true, false, List, [], ◌∷◌, Option, none, some, ltb, length, drop, if◌then◌else◌,
}
use container_image_csi_driv.Text.{Text, Text-eq, codes}
use container_image_csi_driv.Dict.{Dict, get}
use container_image_csi_driv.Exec.{Outcome, ok, err, crash}
use container_image_csi_driv.Csi.Requests.{AccessMode, VolumeCapability, reader_only}

pub data WatchError : Type 0 where
  index_failed : WatchError
  not_indexed : WatchError
  no_annotation : WatchError

-- The claims that the indexer has under a uid, by their annotations; `none` is an error.
abbrev pub Indexer : Type 0
Indexer = Text → Option (List (Dict Text Text))

-- watcher.ImageAnnotation
abbrev pub image_annotation : Text
image_annotation = codes "csi.storage.k8s.io/image"

image_of_claims : Option (List (Dict Text Text)) → Outcome WatchError Text
image_of_claims none = err index_failed
image_of_claims (some []) = err not_indexed
image_of_claims (some (annotations ∷ claims)) = elim (get image_annotation annotations) [
  | none ↦ err no_annotation
  | some handle ↦ ok handle
]

-- name[4:] panics on a name of fewer than four bytes.
unfoldable pub get_image : Indexer → Text → Outcome WatchError Text
unfolding image_of_claims
get_image by_uid name =
    if ltb (length name) 4 then crash else image_of_claims (by_uid (drop 4 name))

pub record Volume : Type 0 where
  pub id : Text
  pub capacity_bytes : ℕ

abbrev pub default_volume_size : ℕ
default_volume_size = 1024 * 1024 * 1024

-- The required bytes of the capacity range, if there is one.
unfoldable pub create_volume : Indexer → Text → Option ℕ → Outcome WatchError Volume
create_volume by_uid name required_bytes = elim (get_image by_uid name) [
  | ok image ↦ ok (record {
    id = image;
    capacity_bytes = elim required_bytes [ none ↦ default_volume_size | some n ↦ n ];
  })
  | err e ↦ err e
  | crash ↦ crash
]

-- The answer of ValidateVolumeCapabilities: confirmed, or a message. A nil access mode panics.
pub data Validation : Type 0 where
  confirmed : Validation
  only_reader_modes : Validation
  panicked : Validation

abbrev pub validate_mode : Option AccessMode → Validation → Validation
validate_mode none later = panicked
validate_mode (some mode) later = if reader_only mode then later else only_reader_modes

unfoldable pub validate_volume_capabilities : List VolumeCapability → Validation
validate_volume_capabilities [] = confirmed
validate_volume_capabilities (c ∷ capabilities) =
    validate_mode c.access_mode (validate_volume_capabilities capabilities)
