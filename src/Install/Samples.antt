-- ===== src/Install/Samples.antt =====
-- A node whose kubelet uses CRI-O, one with k3s.
use container_image_csi_driv.Base.{
  ◌≡◌, refl, Bool, true, false, [], ◌∷◌, Option, none, some, if◌then◌else◌,
}
use container_image_csi_driv.Text.{Text, codes, text_eq}
use container_image_csi_driv.Exec.{ok}
use container_image_csi_driv.Strings.{has_prefix, has_suffix, split}
use container_image_csi_driv.Strings.Decimal.{decimal}
use container_image_csi_driv.Install.{Volume, directory, file, runtime_volumes}
use container_image_csi_driv.Install.Cri.{CrioConfig, Sockets, detect_image_svc_volumes}
use container_image_csi_driv.Install.Kubelet.{
  DriverConfig, cri_o, NodeHost, detect_kubelet_process, k3s_config,
}
use container_image_csi_driv.Install.Kubelet.Crio.{CrioKubelet, detect-CrioKubelet}
use container_image_csi_driv.Install.Setup.{Setup, InstallFlags, VolumeMount, manifests, install}
use container_image_csi_driv.Backend.Crio.Config.{RootConfig, StoreOptions}
use container_image_csi_driv.Install.Setup.Names.{Distinct, install-Distinct}

abbrev crio_endpoint : Text
crio_endpoint = codes "unix:///run/crio/crio.sock"

abbrev crio_socket : Text
crio_socket = codes "/run/crio/crio.sock"

-- The flags of the kubelet of the node.
abbrev given_flags : Text → Option Text
given_flags name =
    if text_eq name (codes "container-runtime")
    then some (codes "remote")
    else if text_eq name (codes "container-runtime-endpoint")
    then some crio_endpoint
    else none

abbrev crio_host : NodeHost
crio_host = record {
  processes = some (record { executable = codes "kubelet"; pid = 7 } ∷ []);
  read_cmdline = λ pid. some (codes "kubelet");
  parse_flags = λ args. some given_flags;
  url_path = λ url. some (if text_eq url crio_endpoint then crio_socket else url);
}

abbrev crio_config : DriverConfig
crio_config = record {
  kubelet_root = codes "/var/lib/kubelet";
  runtime = cri_o;
  runtime_socket_path = crio_socket;
  image_socket_path = crio_socket;
}

crio_detected : detect_kubelet_process crio_host ≡ ok crio_config
unfolding detect_kubelet_process text_eq has_suffix split
crio_detected = refl

detect-CrioKubelet_example : CrioKubelet crio_host crio_socket
detect-CrioKubelet_example = detect-CrioKubelet crio_host crio_config crio_detected refl

abbrev storage : CrioConfig
storage = record {
  root = codes "/var/lib/containers/storage";
  run_root = codes "/run/containers/storage";
  storage_option = codes "overlay.mount_program=/usr/bin/fuse-overlayfs" ∷ [];
}

abbrev sockets : Sockets
sockets = record {
  image_fs_info = λ path. some (some (codes "/var/lib/containers/storage/overlay") ∷ []);
  get_config = λ path. some (record { status_code = 200; body = some [] });
  decode_config = λ text. some storage;
}

abbrev flags : InstallFlags
flags = record {
  version = codes "v1";
  show_version = false;
  print_detected_instead = false;
  enable_cache = true;
}

abbrev mount_at : Text → Text → Bool → VolumeMount
mount_at name path bidirectional = record {
  name = name;
  mount_path = path;
  bidirectional = bidirectional;
}

abbrev volume_at : Text → Text → Volume
volume_at name path = record { name = name; path = path; kind = directory }

abbrev image_name : Text
image_name = codes "docker.io/warmmetal/container-image-csi-driver:v1"

abbrev program : Text
program = codes "/usr/bin/fuse-overlayfs"

-- The directory of the images is within the root of the storage, which replaces it.
abbrev crio_setup : Setup
crio_setup = record {
  image = image_name;
  enable_cache = true;
  config = crio_config;
  volumes =
      volume_at (codes "crio-root") storage.root
      ∷ volume_at (codes "crio-run-root") storage.run_root
      ∷ record { name = codes "fuse-overlayfs"; path = program; kind = file }
      ∷ [];
  mounts =
      mount_at (codes "crio-root") storage.root true
      ∷ mount_at (codes "crio-run-root") storage.run_root true
      ∷ mount_at (codes "fuse-overlayfs") program false
      ∷ [];
}

-- The driver's own reading of the configuration.
abbrev opened : Text → Option RootConfig
opened text = some (record {
  root = storage.root;
  run_root = storage.run_root;
  storage_driver = codes "overlay";
  storage_option = storage.storage_option;
})

abbrev store_options : StoreOptions
store_options = record {
  run_root = storage.run_root;
  graph_root = storage.root;
  graph_driver_name = codes "overlay";
  graph_driver_options = storage.storage_option;
}

abbrev k3s_host : NodeHost
k3s_host = record crio_host {
  processes = some (record { executable = codes "k3s-server"; pid = 9 } ∷ []);
}

abbrev two_filesystems : Sockets
two_filesystems = record sockets {
  image_fs_info = λ path. some (some (codes "/a") ∷ none ∷ some (codes "/b") ∷ []);
}

abbrev k3s_setup : Setup
k3s_setup = record {
  image = image_name;
  enable_cache = true;
  config = k3s_config;
  volumes =
      volume_at (codes "snapshot-root-0") (codes "/a")
      ∷ volume_at (codes "snapshot-root-2") (codes "/b")
      ∷ [];
  mounts =
      mount_at (codes "snapshot-root-0") (codes "/a") true
      ∷ mount_at (codes "snapshot-root-2") (codes "/b") true
      ∷ [];
}

k3s_installed : install k3s_host two_filesystems flags ≡ ok (manifests k3s_setup)
unfolding install detect_kubelet_process text_eq has_prefix detect_image_svc_volumes runtime_volumes
    decimal
k3s_installed = refl

install-Distinct_example : Distinct k3s_setup.volumes
install-Distinct_example =
    install-Distinct k3s_host two_filesystems flags k3s_setup k3s_installed refl

-- Two roots of which one path continues the other's.
abbrev containers_dir : Volume
containers_dir = volume_at (codes "image-svc-root-0") (codes "/var/lib/containers")

abbrev data_dir : Volume
data_dir = volume_at (codes "image-svc-root-1") (codes "/var/lib/containers-data")
