-- ===== src/Backend/Containerd/Mounts.antt =====
-- pkg/backend/containerd/containerd.go: mounting a snapshot in the mount namespace of the host, and
-- what is reported of a mount that failed. The file system, the environment and the calls of mount
-- and umount are parameters.
use container_image_csi_driv.Base.{
  Bool, false, not, ◌&&◌, ◌||◌, List, [], ◌∷◌, ◌++◌, Option, none, some, if◌then◌else◌, length,
  drop, is_empty,
}
use container_image_csi_driv.Text.{Text, codes, text_eq}
use container_image_csi_driv.Strings.{has_prefix, split}
use container_image_csi_driv.Strings.Trim.{trim_space}
use container_image_csi_driv.Exec.{Exec, Outcome, ok, err, crash, ◌>>◌, pure}

-- mount.Mount
pub record Mount : Type 0 where
  pub source : Text
  pub fs_type : Text
  pub options : List Text

-- What the host answers. An error is given by its message.
pub record Host (S : Type 0) : Type 0 where
  -- os.Getenv("CSI_SELINUX_CONTEXT")
  pub context_variable : S → Text
  -- os.ReadFile("/sys/fs/selinux/enforce")
  pub enforce_file : S → Option Text
  -- os.Lstat: the error, if there is one
  pub lstat : Text → S → Option Text
  -- source, target, type, options
  pub syscall_mount : Text → Text → Text → List Text → Exec S Text Unit
  pub umount : Text → Exec S Text Unit

unfoldable pub selinux_context : Text → Text
selinux_context v = if is_empty v then codes "system_u:object_r:container_file_t:s0" else v

unfoldable pub is_selinux_enforcing : Option Text → Bool
is_selinux_enforcing none = false
is_selinux_enforcing (some b) = text_eq (trim_space b) (codes "1")

abbrev pub context_prefix : Text
context_prefix = codes "context="

-- context="…"
abbrev pub context_option : Text → Text
context_option v = context_prefix ++ (b'"' ∷ (selinux_context v ++ b'"' ∷ []))

-- Whether some option sets a context already.
unfoldable pub already_set : List Text → Bool
already_set [] = false
already_set (opt ∷ options) = has_prefix opt context_prefix || already_set options

-- The options of one mount, with a context where the host enforces one.
unfoldable pub mount_options : Bool → Text → List Text → List Text
mount_options enforcing v options =
    if enforcing && not (already_set options) then options ++ context_option v ∷ [] else options

abbrev pub prefixes : List Text
prefixes = codes "lowerdir=" ∷ codes "upperdir=" ∷ codes "workdir=" ∷ []

-- The directories of an option, by the first prefix that it has.
unfoldable pub dirs_of : List Text → Text → List Text
dirs_of [] opt = []
dirs_of (prefix ∷ rest) opt =
    let later = dirs_of rest opt in
    if has_prefix opt prefix then split (drop (length prefix) opt) b':' else later

module _ (lstat : Text → Option Text) where
  -- for _, dir := range dirs
  unfoldable pub dirs_error : List Text → Option Text
  dirs_error [] = none
  dirs_error (dir ∷ dirs) = elim (lstat dir) [ some e ↦ some e | none ↦ dirs_error dirs ]

  -- for _, opt := range m.Options
  unfoldable pub options_error : List Text → Option Text
  options_error [] = none
  options_error (opt ∷ options) = elim (dirs_error (dirs_of prefixes opt)) [
    | some e ↦ some e
    | none ↦ options_error options
  ]

  abbrev pub mount_error : Mount → Option Text
  mount_error m =
      if text_eq m.fs_type (codes "overlay") then options_error m.options else lstat m.source

  -- for _, m := range mounts
  unfoldable pub mounts_error : List Mount → Option Text
  mounts_error [] = none
  mounts_error (m ∷ mounts) = elim (mount_error m) [ some e ↦ some e | none ↦ mounts_error mounts ]

  abbrev pub target_error : Option Text → Text
  target_error none = []
  target_error (some e) = codes "mountpoint:" ++ e

  unfoldable pub describe_mounts : List Mount → Text → Text
  describe_mounts mounts target = elim (mounts_error mounts) [
    | some e ↦ codes "src:" ++ e
    | none ↦ target_error (lstat target)
  ]

module _ {S : Type 0} (host : Host S) where
  -- The loop over the mounts.
  unfoldable pub mount_each : Bool → Text → List Mount → Text → Exec S Text Unit
  mount_each enforcing v [] target = pure tt
  mount_each enforcing v (m ∷ mounts) target = do
    host.syscall_mount m.source target m.fs_type (mount_options enforcing v m.options)
    mount_each enforcing v mounts target

  unfoldable pub mount_in_host_namespace : List Mount → Text → Exec S Text Unit
  mount_in_host_namespace mounts target s =
      mount_each (is_selinux_enforcing (host.enforce_file s)) (host.context_variable s) mounts
        target s

  -- The error of a mount that failed, by what is missing, if something is.
  abbrev pub described : List Mount → Text → Outcome Text Unit × S → Outcome Text Unit × S
  described mounts target (ok _, s) = (ok tt, s)
  described mounts target (err e, s) =
      let mounts_err = describe_mounts (λ path. host.lstat path s) mounts target in
      (err (if is_empty mounts_err then e else mounts_err), s)
  described mounts target (crash, s) = (crash, s)
