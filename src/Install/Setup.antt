-- ===== src/Install/Setup.antt =====
-- cmd/install/main.go: `main`, up to the manifests; the template of the DaemonSet and YAML are left
-- out, with the flags of the secrets and the namespace, which only change the text.
pub mod Beside
pub mod Mounted
pub mod Names
pub mod Store
use container_image_csi_driv.Base.{Bool, true, false, List, [], ◌∷◌, ◌++◌, is_empty, if◌then◌else◌}
use container_image_csi_driv.Text.{Text, codes}
use container_image_csi_driv.Exec.{Outcome, ok, err, crash}
use container_image_csi_driv.Install.{Volume, HostPathType, directory, file, runtime_volumes}
use container_image_csi_driv.Install.Cri.{Sockets, detect_image_svc_volumes, fetch_crio_volumes}
use container_image_csi_driv.Install.Kubelet.{
  ContainerRuntime, containerd, cri_o, DriverConfig, Failure, no_image_volumes, no_crio_volumes,
  NodeHost, detect_kubelet_process,
}

-- corev1.VolumeMount; a mount is bidirectional or has no propagation set.
pub record VolumeMount : Type 0 where
  pub name : Text
  pub mount_path : Text
  pub bidirectional : Bool

abbrev pub is_directory : HostPathType → Bool
is_directory directory = true
is_directory file = false

abbrev pub mount_of : Volume → VolumeMount
mount_of vol = record {
  name = vol.name;
  mount_path = vol.path;
  bidirectional = is_directory vol.kind;
}

-- conf.RuntimeVolumeMounts
unfoldable pub volume_mounts : List Volume → List VolumeMount
volume_mounts [] = []
volume_mounts (vol ∷ vols) = mount_of vol ∷ volume_mounts vols

-- The flags, with the version that the build sets.
pub record InstallFlags : Type 0 where
  pub version : Text
  pub show_version : Bool
  pub print_detected_instead : Bool
  pub enable_cache : Bool

-- The configuration that the templates read.
pub record Setup : Type 0 where
  pub image : Text
  pub enable_cache : Bool
  pub config : DriverConfig
  pub volumes : List Volume
  pub mounts : List VolumeMount

pub data Output : Type 0 where
  version_shown : Text → Output
  detected_shown : Text → Output
  manifests : Setup → Output

abbrev pub runtime_name : ContainerRuntime → Text
runtime_name containerd = codes "containerd"
runtime_name cri_o = codes "cri-o"

abbrev bool_name : Bool → Text
bool_name true = codes "true"
bool_name false = codes "false"

-- fmt.Fprintln of two operands, with a space between them
abbrev println : Text → Text → Text
println label v = label ++ (b' ' ∷ (v ++ b'\n' ∷ []))

path_lines : List Volume → Text
path_lines [] = []
path_lines (v ∷ vols) = v.path ++ (b'\n' ∷ path_lines vols)

-- driverConfig.String
unfoldable pub config_string : DriverConfig → Bool → List Volume → Text
unfolding path_lines
config_string c enable_cache vols =
    println (codes "Kubelet Root  : ") c.kubelet_root
    ++ (println (codes "Runtime       : ") (runtime_name c.runtime)
        ++ (println (codes "Runtime Socket: ") c.runtime_socket_path
            ++ (println (codes "Image Socket  : ") c.image_socket_path
                ++ (println (codes "EnableCache   : ") (bool_name enable_cache)
                    ++ (codes "Host Paths    :" ++ (b'\n' ∷ path_lines vols))))))

abbrev pub image_of_version : Text → Text
image_of_version version = codes "docker.io/warmmetal/container-image-csi-driver:" ++ version

module _ (host : NodeHost) (sockets : Sockets) where
  abbrev pub image_part : DriverConfig → List Volume
  image_part c = detect_image_svc_volumes sockets c.image_socket_path

  abbrev pub crio_part : DriverConfig → List Volume
  crio_part c = fetch_crio_volumes sockets c.runtime_socket_path

  unfoldable pub all_volumes : DriverConfig → Outcome Failure (List Volume)
  all_volumes c = if is_empty (image_part c) then err no_image_volumes else elim c.runtime [
    | containerd ↦ ok (image_part c)
    | cri_o ↦
        if is_empty (crio_part c) then err no_crio_volumes else ok (image_part c ++ crio_part c)
  ]

  unfoldable pub output : InstallFlags → DriverConfig → List Volume → Output
  unfolding config_string volume_mounts
  output flags c volumes =
      if flags.print_detected_instead
      then detected_shown (config_string c flags.enable_cache volumes)
      else manifests record {
        image = image_of_version flags.version;
        enable_cache = flags.enable_cache;
        config = c;
        volumes = volumes;
        mounts = volume_mounts volumes;
      }

  unfoldable pub configured : InstallFlags → DriverConfig → Outcome Failure Output
  unfolding all_volumes output
  configured flags c = elim (all_volumes c) [
    | ok vols ↦ ok (output flags c (runtime_volumes vols))
    | err e ↦ err e
    | crash ↦ crash
  ]

  unfoldable pub install : InstallFlags → Outcome Failure Output
  unfolding configured
  install flags =
      if flags.show_version
      then ok (version_shown flags.version)
      else elim (detect_kubelet_process host) [
        | ok c ↦ configured flags c
        | err e ↦ err e
        | crash ↦ crash
      ]
