-- ===== src/Install/Setup/Beside.antt =====
-- Directories beside each other: one whose path continues another's is not in it.
use container_image_csi_driv.Base.{
  ◌≡◌, false, not, ◌&&◌, ◌||◌, [], ◌∷◌, ◌++◌, List, Bool, if◌then◌else◌, All,
}
use container_image_csi_driv.Text.{Text, codes, text_eq}
use container_image_csi_driv.Strings.{has_prefix, has_suffix}
use container_image_csi_driv.Install.{Volume}
use container_image_csi_driv.Install.Setup.{VolumeMount}

-- The path with a slash at its end.
abbrev pub as_directory : Text → Text
as_directory dir = if has_suffix dir (codes "/") then dir else dir ++ codes "/"

-- The path is the directory, or stands in it.
abbrev pub stands_in : Text → Text → Bool
stands_in path dir = text_eq path dir || has_prefix path (as_directory dir)

-- Some mount is the path or a directory that it stands in.
abbrev pub mounted : List VolumeMount → Text → Bool
mounted [] path = false
mounted (m ∷ mounts) path = stands_in path m.mount_path || mounted mounts path

-- The first path has the second as a string prefix, but does not stand in it.
abbrev pub beside : Text → Text → Bool
beside path dir = has_prefix path dir && not (stands_in path dir)

-- No volume is beside another.
abbrev pub NoneBeside : List Volume → Type 0
NoneBeside vols = All (λ (w : Volume). All (λ (v : Volume). beside v.path w.path ≡ false) vols) vols
