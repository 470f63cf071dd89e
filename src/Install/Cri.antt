-- ===== src/Install/Cri.antt =====
-- cmd/install/cri.go: the directories of images and snapshots, as the image service and CRI-O tell
-- them. The connections and the decoders are parameters.
use container_image_csi_driv.Base.{
  ℕ, suc, List, [], ◌∷◌, ◌++◌, Option, none, some, nat_beq, length, drop, is_empty, if◌then◌else◌,
}
use container_image_csi_driv.Text.{Text, codes}
use container_image_csi_driv.Strings.{has_prefix}
use container_image_csi_driv.Strings.Path.{base_name}
use container_image_csi_driv.Strings.Decimal.{decimal}
use container_image_csi_driv.Strings.Trim.{trim}
use container_image_csi_driv.Install.{Volume, directory, file}

-- crioRootConfig
pub record CrioConfig : Type 0 where
  pub root : Text
  pub run_root : Text
  pub storage_option : List Text

pub record Response : Type 0 where
  pub status_code : ℕ
  -- io.ReadAll, `none` for an error
  pub body : Option Text

-- What the sockets answer, `none` for an error.
pub record Sockets : Type 0 where
  -- the mount point of each of the ImageFilesystems, `none` without an FsId
  pub image_fs_info : Text → Option (List (Option Text))
  -- GET /config
  pub get_config : Text → Option Response
  -- toml.Decode
  pub decode_config : Text → Option CrioConfig

abbrev pub dir_volume : Text → Text → Volume
dir_volume name path = record { name = name; path = path; kind = directory }

-- The number of a volume is the index of its file system.
unfoldable pub image_volumes : ℕ → List (Option Text) → List Volume
image_volumes i [] = []
image_volumes i (none ∷ filesystems) = image_volumes (suc i) filesystems
image_volumes i (some mountpoint ∷ filesystems) =
    dir_volume (codes "snapshot-root-" ++ decimal i) mountpoint ∷ image_volumes (suc i) filesystems

unfoldable pub detect_image_svc_volumes : Sockets → Text → List Volume
unfolding image_volumes
detect_image_svc_volumes sockets socket_path = elim (sockets.image_fs_info socket_path) [
  | none ↦ []
  | some filesystems ↦ image_volumes 0 filesystems
]

abbrev pub overlayfs_prefix : Text
overlayfs_prefix = codes "overlay.mount_program="

abbrev pub program_volume : Text → Volume
program_volume program = record { name = base_name program; path = program; kind = file }

unfoldable pub program_volumes : List Text → List Volume
unfolding has_prefix trim base_name
program_volumes [] = []
program_volumes (quoted ∷ options) =
    let opt = trim quoted b'"' in
    let rest = program_volumes options in
    if has_prefix opt overlayfs_prefix
    then program_volume (drop (length overlayfs_prefix) opt) ∷ rest
    else rest

abbrev pub root_volumes : Text → Text → List Volume
root_volumes name path = if is_empty path then [] else dir_volume name path ∷ []

unfoldable pub config_volumes : CrioConfig → List Volume
unfolding program_volumes
config_volumes c =
    root_volumes (codes "crio-root") c.root
    ++ (root_volumes (codes "crio-run-root") c.run_root ++ program_volumes c.storage_option)

-- http.StatusOK
abbrev pub status_ok : ℕ
status_ok = 200

abbrev pub config_of : Sockets → Response → Option CrioConfig
config_of sockets r =
    if nat_beq r.status_code status_ok
    then elim r.body [ none ↦ none | some text ↦ sockets.decode_config text ]
    else none

abbrev pub fetch_config : Sockets → Text → Option CrioConfig
fetch_config sockets socket_path = elim (sockets.get_config socket_path) [
  | none ↦ none
  | some r ↦ config_of sockets r
]

unfoldable pub fetch_crio_volumes : Sockets → Text → List Volume
unfolding config_volumes
fetch_crio_volumes sockets socket_path = elim (fetch_config sockets socket_path) [
  | none ↦ []
  | some c ↦ config_volumes c
]
