-- ===== src/Install/Kubelet/Crio.antt =====
-- When the installer takes a node's container runtime for CRI-O.
use container_image_csi_driv.Base.{
  ℕ, ◌≡◌, refl, ap, ◌∙◌, ◌⊎◌, inl, inr, Bool, true, false, ◌&&◌, ◌||◌, List, [], ◌∷◌, Option, some,
  arith, nat_beq, is_empty, Bool-cases, Option-cases,
}
use container_image_csi_driv.Text.{Text, codes, text_eq}
use container_image_csi_driv.Exec.{ok, ok-injective}
use container_image_csi_driv.Strings.{has_suffix, split}
use container_image_csi_driv.Install.Kubelet.{
  cri_o, DriverConfig, Process, NodeHost, KubeletFlags, find_kubelet, kubelet_flags,
  runtime_endpoint, image_endpoint, runtime_named, config_at, config_of_flags, config_of_kubelet,
  detect_kubelet_process, docker_endpoint,
}

abbrev pub crio_sock : Text
crio_sock = codes "crio.sock"

-- A process `kubelet` has this pid.
abbrev pub runs_kubelet : ℕ → List Process → Bool
runs_kubelet pid [] = false
runs_kubelet pid (proc ∷ procs) =
    text_eq proc.executable (codes "kubelet") && nat_beq proc.pid pid || runs_kubelet pid procs

found-runs_kubelet :
    (procs : List Process) (pid : ℕ)
    → find_kubelet procs ≡ (false, pid)
    → (pid ≡ 0) ⊎ (runs_kubelet pid procs ≡ true)
unfolding find_kubelet
found-runs_kubelet [] pid h = inl (cc)
found-runs_kubelet (proc ∷ procs) pid h =
    elim (Bool-cases (text_eq proc.executable (codes "kubelet"))) [
      | inl kubelet ↦
          let e : proc.pid ≡ pid = ap (λ (f : Bool × ℕ). f.1) (rw kubelet at h) in
          inr (ground (arith, kubelet, e))
      | inr other ↦ elim (Bool-cases (text_eq proc.executable (codes "k3s-server"))) [
        | inl k3s ↦ absurd (cc (ap (λ (f : Bool × ℕ). f.0) (rw (other, k3s) at h)))
        | inr neither ↦ elim (found-runs_kubelet procs pid (rw (other, neither) at h)) [
          | inl zero_pid ↦ inl zero_pid
          | inr later ↦ inr (rw (other, later) refl)
        ]
      ]
    ]

runtime_named-cri_o : (e : Text) → runtime_named e ≡ some cri_o → has_suffix e crio_sock ≡ true
unfolding runtime_named
runtime_named-cri_o e h = ground arith

-- The flags of a kubelet that leave its runtime to CRI-O at `socket`.
pub record CrioFlags (host : NodeHost) (given : Text → Option Text) (socket : Text) : Type 0 where
  pub runtime : Text
  pub endpoint : Text
  pub runtime_given : given (codes "container-runtime") ≡ some runtime
  pub not_docker : text_eq runtime (codes "docker") ≡ false
  pub endpoint_given : given (codes "container-runtime-endpoint") ≡ some endpoint
  pub named : has_suffix endpoint crio_sock ≡ true
  pub located : host.url_path endpoint ≡ some socket

docker_sock : has_suffix docker_endpoint crio_sock ≡ false
unfolding has_suffix text_eq
docker_sock = refl

empty_sock : has_suffix [] crio_sock ≡ false
unfolding has_suffix
empty_sock = refl

module _ (host : NodeHost) where
  config_at-cri_o :
      (f : KubeletFlags) (image socket : Text) (c : DriverConfig)
      → config_at host f image socket ≡ ok c
      → c.runtime ≡ cri_o
      → (has_suffix (runtime_endpoint f) crio_sock ≡ true) × (socket ≡ c.runtime_socket_path)
  unfolding config_at
  config_at-cri_o f image socket c h e = elim (Option-cases (runtime_named (runtime_endpoint f))) [
    | inl unknown ↦ absurd (cc (rw (unknown, config_at) at h))
    | inr (runtime, known) ↦
        let same = ok-injective (rw (known, config_at) at h) in
        (
          runtime_named-cri_o (runtime_endpoint f)
              (known ∙ ap some (ap (λ (d : DriverConfig). d.runtime) same ∙ e)),
          ap (λ (d : DriverConfig). d.runtime_socket_path) same,
        )
  ]

  config_of_flags-cri_o :
      (f : KubeletFlags) (c : DriverConfig)
      → config_of_flags host f ≡ ok c
      → c.runtime ≡ cri_o
      → (has_suffix (runtime_endpoint f) crio_sock ≡ true)
        × (host.url_path (runtime_endpoint f) ≡ some c.runtime_socket_path)
  unfolding config_of_flags
  config_of_flags-cri_o f c h e =
      elim (Bool-cases (is_empty (runtime_endpoint f) && is_empty f.remote_image_endpoint)) [
        | inl missing ↦ absurd (cc (rw (missing, config_of_flags) at h))
        | inr there ↦ elim (Option-cases (host.url_path (image_endpoint f))) [
          | inl bad ↦ absurd (cc (rw (there, bad, config_of_flags) at h))
          | inr (image, image_path) ↦ elim (Option-cases (host.url_path (runtime_endpoint f))) [
            | inl bad ↦ absurd (cc (rw (there, image_path, bad, config_of_flags) at h))
            | inr (socket, path) ↦
                let (named, same) =
                  config_at-cri_o f image socket c
                    (rw (there, image_path, path, config_of_flags) at h) e in
                (named, path ∙ ap some same)
          ]
        ]
      ]

  given-CrioFlags :
      (given : Text → Option Text) (socket : Text)
      → has_suffix (runtime_endpoint (kubelet_flags given)) crio_sock ≡ true
      → host.url_path (runtime_endpoint (kubelet_flags given)) ≡ some socket
      → CrioFlags host given socket
  unfolding kubelet_flags runtime_endpoint text_eq
  given-CrioFlags given socket named located =
      elim (Option-cases (given (codes "container-runtime"))) [
        | inl absent ↦ absurd (cc (docker_sock, rw (absent, kubelet_flags) at named))
        | inr (runtime, there) ↦ elim (Bool-cases (text_eq runtime (codes "docker"))) [
          | inl docker ↦
              absurd
                (cc (docker_sock, rw (there, docker, kubelet_flags, runtime_endpoint) at named))
          | inr other ↦ elim (Option-cases (given (codes "container-runtime-endpoint"))) [
            | inl absent ↦ absurd (
                cc
                  (empty_sock, rw (there, other, absent, kubelet_flags, runtime_endpoint) at named))
            | inr (endpoint, there_too) ↦ record {
              runtime = runtime;
              endpoint = endpoint;
              runtime_given = there;
              not_docker = other;
              endpoint_given = there_too;
              named = rw (there, other, there_too, kubelet_flags, runtime_endpoint) at named;
              located = rw (there, other, there_too, kubelet_flags, runtime_endpoint) at located;
            }
          ]
        ]
      ]

-- The kubelet that is found, if any, and the flags of its command line.
pub record CrioKubelet (host : NodeHost) (socket : Text) : Type 0 where
  pub procs : List Process
  pub pid : ℕ
  pub cmdline : Text
  pub given : Text → Option Text
  pub listed : host.processes ≡ some procs
  pub running : (pid ≡ 0) ⊎ (runs_kubelet pid procs ≡ true)
  pub read : host.read_cmdline pid ≡ some cmdline
  pub parsed : host.parse_flags (split cmdline 0) ≡ some given
  pub flags : CrioFlags host given socket

module _ (host : NodeHost) (c : DriverConfig) where
  config_of_kubelet-CrioKubelet :
      (procs : List Process) (pid : ℕ)
      → host.processes ≡ some procs
      → find_kubelet procs ≡ (false, pid)
      → config_of_kubelet host pid ≡ ok c
      → c.runtime ≡ cri_o
      → CrioKubelet host c.runtime_socket_path
  unfolding config_of_kubelet
  config_of_kubelet-CrioKubelet procs pid listed found h e =
      elim (Option-cases (host.read_cmdline pid)) [
        | inl unread ↦ absurd (cc (rw (unread, config_of_kubelet) at h))
        | inr (cmdline, read) ↦ elim (Option-cases (host.parse_flags (split cmdline 0))) [
          | inl bad ↦ absurd (cc (rw (read, bad, config_of_kubelet) at h))
          | inr (given, parsed) ↦
              let (named, located) =
                config_of_flags-cri_o host (kubelet_flags given) c
                  (rw (read, parsed, config_of_kubelet) at h) e in
              record {
                procs = procs;
                pid = pid;
                cmdline = cmdline;
                given = given;
                listed = listed;
                running = found-runs_kubelet procs pid found;
                read = read;
                parsed = parsed;
                flags = given-CrioFlags host given c.runtime_socket_path named located;
              }
        ]
      ]

  -- The installer detects CRI-O only by a command line that gives `--container-runtime` a value
  -- other than docker, and `--container-runtime-endpoint` one that ends in crio.sock; the socket is
  -- then the path of that endpoint. The command line is that of a process `kubelet`, or of the
  -- process 0 where there is none.
  pub detect-CrioKubelet :
      detect_kubelet_process host ≡ ok c
      → c.runtime ≡ cri_o
      → CrioKubelet host c.runtime_socket_path
  unfolding detect_kubelet_process
  detect-CrioKubelet h e = elim (Option-cases host.processes) [
    | inl none_listed ↦ absurd (cc (rw (none_listed, detect_kubelet_process) at h))
    | inr (procs, listed) ↦ elim (Bool-cases (find_kubelet procs).0) [
      | inl k3s ↦
          let same = ok-injective (rw (listed, k3s, detect_kubelet_process) at h) in
          absurd (cc (ap (λ (d : DriverConfig). d.runtime) same ∙ e))
      | inr kubelet ↦
          config_of_kubelet-CrioKubelet procs (find_kubelet procs).1 listed (cc (kubelet))
            (rw (listed, kubelet, detect_kubelet_process) at h) e
    ]
  ]
