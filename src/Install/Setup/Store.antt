-- ===== src/Install/Setup/Store.antt =====
-- The directories of CRI-O's store that the installed driver opens.
use container_image_csi_driv.Base.{◌≡◌, ◌⊎◌, true, Option, some, is_empty}
use container_image_csi_driv.Text.{Text}
use container_image_csi_driv.Install.{Volume}
use container_image_csi_driv.Install.Cri.{Sockets, CrioConfig}
use container_image_csi_driv.Install.Setup.{Setup}
use container_image_csi_driv.Install.Setup.Beside.{mounted}
use container_image_csi_driv.Backend.Crio.Config.{RootConfig}

abbrev InMount : Setup → Volume → Type 0
InMount s v = mounted s.mounts v.path ≡ true

-- A path is empty, or it is mounted, itself or by a directory that it stands in.
abbrev pub Reached : Setup → Text → Type 0
Reached s path = (is_empty path ≡ true) ⊎ (mounted s.mounts path ≡ true)

-- The two decoders read the same roots.
abbrev pub SameRoots : Sockets → (Text → Option RootConfig) → Type 0
SameRoots sockets decode =
    (text : Text) (c : CrioConfig) (d : RootConfig)
    → sockets.decode_config text ≡ some c
    → decode text ≡ some d
    → (c.root ≡ d.root) × (c.run_root ≡ d.run_root)
