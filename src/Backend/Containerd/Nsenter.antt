-- ===== src/Backend/Containerd/Nsenter.antt =====
-- pkg/backend/containerd/nsenter_mount_linux.go: a mount in the host's mount namespace, by a copy of
-- the driver that nsenter runs there. The command, the JSON codec, mount(2) and the texts of errors
-- are parameters.
use container_image_csi_driv.Base.{
  ◌≡◌, refl, Bool, true, false, List, [], ◌∷◌, ◌++◌, Option, none, some, is_empty, if◌then◌else◌,
  All,
}
use container_image_csi_driv.Text.{Text, codes, text_eq}
use container_image_csi_driv.Strings.{split}
use container_image_csi_driv.Strings.Join.{join, lacks, split-join}
use container_image_csi_driv.Exec.{Exec, Outcome, ok, err}

-- nsenterMountRequest
pub record MountRequest : Type 0 where
  pub source : Text
  pub target : Text
  pub fs_type : Text
  pub options : List Text

pub data ChildError : Type 0 where
  decode_failed : ChildError
  mount_failed : MountRequest → Text → ChildError

-- exec.Cmd, with its whole environment
pub record Command : Type 0 where
  pub program : Text
  pub args : List Text
  pub environment : List Text
  pub stdin : Text

-- CombinedOutput: the error, if there is one, and the output.
pub record Exited : Type 0 where
  pub failure : Option Text
  pub output : Text

pub record Surroundings (S : Type 0) : Type 0 where
  -- os.Getenv("CSI_SOCKET_DIR")
  pub socket_dir : Text
  pub join_path : Text → Text → Text
  pub marshal : MountRequest → Option Text
  pub decode : Text → Option MountRequest
  pub run : Command → S → Exited × S
  -- unix.Mount in the host's namespace, without flags, of a source, target, type and data: the error,
  -- if there is one
  pub mount : Text → Text → Text → Text → S → Option Text × S
  -- what the child writes on stderr
  pub message : ChildError → Text

abbrev pub host_mount_ns : Text
host_mount_ns = codes "/host/proc/1/ns/mnt"

abbrev pub env_nsenter_mount : Text
env_nsenter_mount = codes "_CSI_NSENTER_MOUNT=1"

module _ {S : Type 0} (o : Surroundings S) where
  open o use {socket_dir, join_path, marshal, decode, run, mount, message}

  -- The child that could not do its work ends with status 1.
  abbrev failed : ChildError → Exited
  failed e = record { failure = some (codes "exit status 1"); output = message e }

  abbrev exited : MountRequest → Option Text × S → Exited × S
  exited req (none, s) = (record { failure = none; output = [] }, s)
  exited req (some e, s) = (failed (mount_failed req e), s)

  -- runNsenterMountChild, and the status of init
  unfoldable pub run_nsenter_mount_child : Text → S → Exited × S
  unfolding join
  run_nsenter_mount_child stdin s = elim (decode stdin) [
    | none ↦ (failed decode_failed, s)
    | some req ↦ exited req (mount req.source req.target req.fs_type (join req.options b',') s)
  ]

  -- os.Getenv(envNsenterMount) == "1"
  abbrev pub is_child : List Text → Bool
  is_child [] = false
  is_child (variable ∷ environment) =
      if text_eq variable env_nsenter_mount then true else is_child environment

  -- init of the driver's binary; with `none` its main goes on.
  unfoldable pub init : List Text → Text → S → Option (Exited × S)
  unfolding run_nsenter_mount_child
  init environment stdin s =
      if is_child environment then some (run_nsenter_mount_child stdin s) else none

  unfoldable pub csi_socket_dir : Text
  csi_socket_dir =
      if is_empty socket_dir
      then codes "/var/lib/kubelet/plugins/container-image.csi.k8s.io"
      else socket_dir

  unfoldable pub host_helper : Text
  unfolding csi_socket_dir
  host_helper = join_path csi_socket_dir (codes "mount-helper")

  -- nsenter, with the helper's path, its environment and its input
  abbrev pub nsenter : Text → List Text → Text → Command
  nsenter helper environment stdin = record {
    program = codes "nsenter";
    args = (codes "--mount=" ++ host_mount_ns) ∷ codes "--" ∷ helper ∷ [];
    environment = environment;
    stdin = stdin;
  }

  abbrev pub answered : Exited × S → Outcome Text Unit × S
  answered (e, s) = elim e.failure [
    | none ↦ (ok tt, s)
    | some status ↦
        (err (codes "mount failed: " ++ (status ++ (codes ", output: " ++ e.output))), s)
  ]

  abbrev pub request : Text → Text → Text → List Text → MountRequest
  request source target fs_type options = record {
    source = source;
    target = target;
    fs_type = fs_type;
    options = options;
  }

  unfoldable pub syscall_mount_in_host_namespace : Text → Text → Text → List Text → Exec S Text Unit
  unfolding host_helper
  syscall_mount_in_host_namespace source target fs_type options s =
      elim (marshal (request source target fs_type options)) [
        | none ↦ (err (codes "marshal mount request"), s)
        | some payload ↦ answered (run (nsenter host_helper (env_nsenter_mount ∷ []) payload) s)
      ]

  abbrev pub succeeds : Outcome Text Unit → Bool
  succeeds (ok _) = true
  succeeds _ = false

  abbrev pub no_error : Option Text → Bool
  no_error none = true
  no_error (some e) = false

  -- What the codec is to do for a request, and nsenter for the copy of the driver.
  pub record ReexecLaws (req : MountRequest) : Type 0 where
    pub payload : Text
    pub marshal_law : marshal req ≡ some payload
    pub decode_law : decode payload ≡ some req
    pub nsenter_law :
        (environment : List Text) (stdin : Text) (s : S) (r : Exited × S)
        → init environment stdin s ≡ some r
        → run (nsenter host_helper environment stdin) s ≡ r

  -- The one call of mount(2).
  pub record Called (source target fs_type : Text) (options : List Text) (s : S)
      (r : Outcome Text Unit × S) : Type 0 where
    pub joined : Text
    pub readable : split joined b',' ≡ options
    pub same_state : r.1 ≡ (mount source target fs_type joined s).1
    pub same_success : succeeds r.0 ≡ no_error (mount source target fs_type joined s).0

  module _ (source target fs_type opt : Text) (options : List Text) (s : S)
      (laws : ReexecLaws (request source target fs_type (opt ∷ options))) where
    open laws use {payload, marshal_law, decode_law, nsenter_law}

    abbrev joined_options : Text
    joined_options = join (opt ∷ options) b','

    Answered-Called :
        split joined_options b',' ≡ opt ∷ options
        → (m : Option Text × S) → mount source target fs_type joined_options s ≡ m
        → Called source target fs_type
            (opt ∷ options)
            s
            (answered (exited (request source target fs_type (opt ∷ options)) m))
    Answered-Called readable (none, t) e = record {
      joined = joined_options;
      readable = readable;
      same_state = rw e refl;
      same_success = rw e refl;
    }
    Answered-Called readable (some x, t) e = record {
      joined = joined_options;
      readable = readable;
      same_state = rw e refl;
      same_success = rw e refl;
    }

    -- A mount in the host's namespace is one call of mount(2) there, with the source, the target and
    -- the type that were asked, and with the options as one text that reads back as them; it succeeds
    -- exactly if that call does, and changes what that call changes. There must be an option, none may
    -- have a comma in it, the codec must read back what it writes of the request, and nsenter must run the copy of
    -- the driver with the environment and the input that it is given.
    pub syscall_mount-Called :
        lacks b',' opt ≡ true
        → All (λ p. lacks b',' p ≡ true) options
        → Called source target fs_type
            (opt ∷ options)
            s
            (syscall_mount_in_host_namespace source target fs_type (opt ∷ options) s)
    unfolding syscall_mount_in_host_namespace init run_nsenter_mount_child text_eq
    syscall_mount-Called plain all_plain =
        let ran = nsenter_law (env_nsenter_mount ∷ []) payload s _ refl in
        rw (marshal_law, syscall_mount_in_host_namespace, ran, run_nsenter_mount_child, decode_law)
          (Answered-Called (split-join b',' opt options plain all_plain) _ refl)
