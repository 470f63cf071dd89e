-- ===== src/Backend/Runtime.antt =====
-- pkg/backend/runtime.go: what the mounter calls on a container runtime, and what it relies on.
-- `err` is a returned error, `crash` the end of the process.
pub mod Leaves
use container_image_csi_driv.Base.{
  ◌≡◌, ◌≢◌, Bool, true, false, List, Option, none, ◌==◌, if◌then◌else◌,
}
use container_image_csi_driv.Text.{Text, Text-eq}
use container_image_csi_driv.Exec.{Exec, Outcome, ok, err, crash}
use container_image_csi_driv.Backend.Metadata.{SnapshotMetadata, named_by}

-- reference.Named of github.com/distribution/reference, by the two strings that are read from it.
pub record Named : Type 0 where
  pub string : Text
  pub name : Text

pub record ContainerRuntimeMounter : Type 1 where
  pub State : Type 0
  pub Error : Type 0
  -- key, target, ro
  pub mount : Text → Text → Bool → Exec State Error Unit
  pub unmount : Text → Exec State Error Unit
  pub image_exists : Named → State → Bool
  pub get_image_id_or_die : Named → Exec State Error Text
  -- imageID, key, metadata
  pub prepare_read_only_snapshot : Text → Text → SnapshotMetadata → Exec State Error Unit
  pub prepare_rw_snapshot : Text → Text → Option SnapshotMetadata → Exec State Error Unit
  pub update_snapshot_metadata : Text → SnapshotMetadata → Exec State Error Unit
  pub destroy_snapshot : Text → Exec State Error Unit
  pub list_snapshots : Exec State Error (List SnapshotMetadata)

abbrev pub no_targets : Text → Bool
no_targets u = false

-- A call that returns an error has changed nothing; of a crash nothing is said.
abbrev pub Settles : {E A B : Type 0} → Outcome E A → B → B → B → Type 0
Settles (ok a) now done before = now ≡ done
Settles (err e) now done before = now ≡ before
Settles crash now done before = Unit

-- What the mounter relies on, and those of the interface's comments that both runtimes keep: that
-- GetImageIDOrDie ends the process on a failure, and that a snapshot that is not there cannot be
-- destroyed. That a preparation returns an error where the key is taken is not among them: both take
-- a snapshot that is as they need it. `recorded s k` is the set of targets that the runtime keeps on
-- the snapshot `k` in state `s`, by membership; `present s k` tells whether it is there.
pub record RuntimeLaws (rt : ContainerRuntimeMounter) : Type 0 where
  pub recorded : rt.State → Text → Text → Bool
  pub present : rt.State → Text → Bool
  pub get_image_id_dies :
      (i : Named) (s : rt.State) (e : rt.Error) → (rt.get_image_id_or_die i s).0 ≢ err e
  pub destroy_present :
      (k : Text) (s : rt.State) → (rt.destroy_snapshot k s).0 ≡ ok tt → present s k ≡ true
  pub mount_law :
      (k t : Text) (ro : Bool) (s : rt.State) (j : Text)
      → let r = rt.mount k t ro s in Settles r.0 (recorded r.1 j) (recorded s j) (recorded s j)
  pub unmount_law :
      (t : Text) (s : rt.State) (j : Text)
      → let r = rt.unmount t s in Settles r.0 (recorded r.1 j) (recorded s j) (recorded s j)
  pub get_image_id_law :
      (i : Named) (s : rt.State) (j : Text)
      → let r = rt.get_image_id_or_die i s in
        Settles r.0 (recorded r.1 j) (recorded s j) (recorded s j)
  pub prepare_read_only_law :
      (i k : Text) (m : SnapshotMetadata) (s : rt.State)
      → ((u : Text) → recorded s k u ≡ false)
      → (j : Text)
      → let r = rt.prepare_read_only_snapshot i k m s in
        Settles r.0 (recorded r.1 j) (if k == j then named_by m else recorded s j) (recorded s j)
  pub prepare_rw_law :
      (i k : Text) (s : rt.State) (j : Text)
      → let r = rt.prepare_rw_snapshot i k none s in
        Settles r.0 (recorded r.1 j) (recorded s j) (recorded s j)
  pub update_law :
      (k : Text) (m : SnapshotMetadata) (s : rt.State) (j : Text)
      → let r = rt.update_snapshot_metadata k m s in
        Settles r.0 (recorded r.1 j) (if k == j then named_by m else recorded s j) (recorded s j)
  pub destroy_law :
      (k : Text) (s : rt.State) (j : Text)
      → let r = rt.destroy_snapshot k s in
        Settles r.0 (recorded r.1 j) (if k == j then no_targets else recorded s j) (recorded s j)
