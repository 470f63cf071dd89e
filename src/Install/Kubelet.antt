-- ===== src/Install/Kubelet.antt =====
-- cmd/install/kubelet.go: which container runtime the node's kubelet uses, read from its command
-- line. The list of processes, their command lines, pflag and url.Parse are parameters.
pub mod Crio
use container_image_csi_driv.Base.{
  ℕ, Bool, true, false, ◌&&◌, List, [], ◌∷◌, Option, none, some, is_empty, or_else, if◌then◌else◌,
}
use container_image_csi_driv.Text.{Text, codes, text_eq}
use container_image_csi_driv.Exec.{Outcome, ok, err, crash}
use container_image_csi_driv.Strings.{has_suffix, split}

pub data ContainerRuntime : Type 0 where
  containerd : ContainerRuntime
  cri_o : ContainerRuntime

-- driverConfig, with what the detection sets
pub record DriverConfig : Type 0 where
  pub kubelet_root : Text
  pub runtime : ContainerRuntime
  pub runtime_socket_path : Text
  pub image_socket_path : Text

-- Why the installer ends without an output.
pub data Failure : Type 0 where
  runtime_not_found : Failure
  invalid_image_socket : Text → Failure
  invalid_runtime_socket : Text → Failure
  unknown_runtime : Text → Failure
  no_image_volumes : Failure
  no_crio_volumes : Failure

pub record Process : Type 0 where
  pub executable : Text
  pub pid : ℕ

pub record NodeHost : Type 0 where
  -- ps.Processes, `none` for an error
  pub processes : Option (List Process)
  -- os.ReadFile of the command line of a process
  pub read_cmdline : ℕ → Option Text
  -- flags.Parse of a set of string flags that passes over unknown ones; the value that a flag is
  -- given, if any. `none` where it panics.
  pub parse_flags : List Text → Option (Text → Option Text)
  -- the path of url.Parse, `none` for an error
  pub url_path : Text → Option Text

-- k3s, and pid
unfoldable pub find_kubelet : List Process → Bool × ℕ
find_kubelet [] = (false, 0)
find_kubelet (proc ∷ procs) =
    let rest = find_kubelet procs in
    if text_eq proc.executable (codes "kubelet")
    then (false, proc.pid)
    else if text_eq proc.executable (codes "k3s-server")
    then (true, 0)
    else rest

abbrev pub default_root : Text
default_root = codes "/var/lib/kubelet"

abbrev pub k3s_socket : Text
k3s_socket = codes "/run/k3s/containerd/containerd.sock"

abbrev pub k3s_config : DriverConfig
k3s_config = record {
  kubelet_root = default_root;
  runtime = containerd;
  runtime_socket_path = k3s_socket;
  image_socket_path = k3s_socket;
}

pub record KubeletFlags : Type 0 where
  pub root_directory : Text
  pub container_runtime : Text
  pub remote_runtime_endpoint : Text
  pub remote_image_endpoint : Text

-- flags.StringVar of each, with its default
unfoldable pub kubelet_flags : (Text → Option Text) → KubeletFlags
kubelet_flags given = record {
  root_directory = or_else (given (codes "root-dir")) default_root;
  container_runtime = or_else (given (codes "container-runtime")) (codes "docker");
  remote_runtime_endpoint = or_else (given (codes "container-runtime-endpoint")) [];
  remote_image_endpoint = or_else (given (codes "image-service-endpoint")) [];
}

abbrev pub docker_endpoint : Text
docker_endpoint = codes "unix:///run/containerd/containerd.sock"

unfoldable pub runtime_endpoint : KubeletFlags → Text
runtime_endpoint f =
    if text_eq f.container_runtime (codes "docker")
    then docker_endpoint
    else f.remote_runtime_endpoint

unfoldable pub image_endpoint : KubeletFlags → Text
unfolding runtime_endpoint
image_endpoint f =
    if is_empty f.remote_image_endpoint then runtime_endpoint f else f.remote_image_endpoint

unfoldable pub runtime_named : Text → Option ContainerRuntime
runtime_named endpoint =
    if has_suffix endpoint (codes "containerd.sock")
    then some containerd
    else if has_suffix endpoint (codes "crio.sock")
    then some cri_o
    else none

module _ (host : NodeHost) where
  unfoldable pub config_at : KubeletFlags → Text → Text → Outcome Failure DriverConfig
  unfolding runtime_named
  config_at f image_socket runtime_socket = elim (runtime_named (runtime_endpoint f)) [
    | none ↦ err (unknown_runtime (runtime_endpoint f))
    | some runtime ↦ ok record {
      kubelet_root = f.root_directory;
      runtime = runtime;
      runtime_socket_path = runtime_socket;
      image_socket_path = image_socket;
    }
  ]

  unfoldable pub config_of_flags : KubeletFlags → Outcome Failure DriverConfig
  unfolding config_at runtime_endpoint image_endpoint
  config_of_flags f =
      if is_empty (runtime_endpoint f) && is_empty f.remote_image_endpoint
      then err runtime_not_found
      else elim (host.url_path (image_endpoint f)) [
        | none ↦ err (invalid_image_socket (image_endpoint f))
        | some image_socket ↦ elim (host.url_path (runtime_endpoint f)) [
          | none ↦ err (invalid_runtime_socket (runtime_endpoint f))
          | some runtime_socket ↦ config_at f image_socket runtime_socket
        ]
      ]

  -- Without a kubelet, `pid` is 0.
  unfoldable pub config_of_kubelet : ℕ → Outcome Failure DriverConfig
  unfolding config_of_flags kubelet_flags
  config_of_kubelet pid = elim (host.read_cmdline pid) [
    | none ↦ crash
    | some cmdline ↦ elim (host.parse_flags (split cmdline 0)) [
      | none ↦ crash
      | some given ↦ config_of_flags (kubelet_flags given)
    ]
  ]

  unfoldable pub detect_kubelet_process : Outcome Failure DriverConfig
  unfolding config_of_kubelet find_kubelet
  detect_kubelet_process = elim host.processes [
    | none ↦ crash
    | some procs ↦
        let (k3s, pid) = find_kubelet procs in if k3s then ok k3s_config else config_of_kubelet pid
  ]
