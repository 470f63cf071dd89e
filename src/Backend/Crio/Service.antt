-- ===== src/Backend/Crio/Service.antt =====
-- pkg/backend/crio/crio.go: `snapshotMounter`, which implements the runtime interface over the store
-- of containers/storage and the mounts of the host.
pub mod Laws
pub mod Preparing
pub mod Refinement
pub mod Memory
mod Samples
use container_image_csi_driv.Base.{
  Bool, true, false, List, [], ◌∷◌, Option, none, some, if◌then◌else◌,
}
use container_image_csi_driv.Text.{Text, codes}
use container_image_csi_driv.Exec.{Exec, Outcome, ok, err, crash, continue, ◌>>=◌, ◌>>◌, or_fatal}
use container_image_csi_driv.Backend.Metadata.{SnapshotMetadata}
use container_image_csi_driv.Backend.Runtime.{Named, ContainerRuntimeMounter}
use container_image_csi_driv.Backend.Crio.{
  Container, ImageStore, CrioError, failure, prepare_snapshot, list_containers,
}

-- The calls of the store beside those that prepare, and k8smount.
pub record Storage : Type 1 where
  pub store : ImageStore
  -- the id of an image
  pub image : Text → Exec store.State store.Error Text
  -- the directory of a container
  pub mount_container : Text → Exec store.State store.Error Text
  -- whether it is still mounted
  pub unmount_container : Text → Exec store.State store.Error Bool
  pub set_metadata : Text → Text → Exec store.State store.Error Unit
  pub delete_container : Text → Exec store.State store.Error Unit
  pub containers : Exec store.State store.Error (List Container)
  -- source, target, options
  pub bind_mount : Text → Text → List Text → Exec store.State store.Error Unit
  pub unmount_target : Text → Exec store.State store.Error Unit

module _ {E A : Type 0} where
  -- if err != nil { klog.Fatalf(…) }
  abbrev pub fatal_failure : Outcome E A → Outcome (CrioError E) A
  fatal_failure (ok a) = ok a
  fatal_failure (err e) = crash
  fatal_failure crash = crash

  -- An error that is only logged.
  abbrev pub logged : Outcome E A → Outcome (CrioError E) Unit
  logged (ok a) = ok tt
  logged (err e) = ok tt
  logged crash = crash

  abbrev pub succeeds : Outcome E A → Bool
  succeeds (ok a) = true
  succeeds _ = false

abbrev pub mount_opts : Bool → List Text
mount_opts ro = if ro then codes "rbind" ∷ codes "ro" ∷ [] else codes "rbind" ∷ []

module _ (storage : Storage) where
  open storage use {store}

  abbrev pub Action : Type 0 → Type 0
  Action A = Exec store.State (CrioError store.Error) A

  abbrev pub or_error : {A : Type 0} → Exec store.State store.Error A → Action A
  or_error m s = (failure (m s).0, (m s).1)

  unfoldable pub mount_snapshot : Text → Text → Bool → Action Unit
  mount_snapshot key target ro = do
    src ← or_error (storage.mount_container key)
    or_error (storage.bind_mount src target (mount_opts ro))

  unfoldable pub get_image_id_or_die : Named → Action Text
  get_image_id_or_die image s =
      (fatal_failure (storage.image image.string s).0, (storage.image image.string s).1)

  unfoldable pub update_snapshot_metadata : Text → SnapshotMetadata → Action Unit
  update_snapshot_metadata key metadata =
      or_error (storage.set_metadata key (store.encode metadata))

  unfoldable pub destroy_snapshot : Text → Action Unit
  destroy_snapshot key = do
    λ s. (logged (storage.unmount_container key s).0, (storage.unmount_container key s).1)
    or_error (storage.delete_container key)

  unfoldable pub list_snapshots : Action (List SnapshotMetadata)
  list_snapshots = do
    containers ← or_error storage.containers
    or_fatal (list_containers store containers)

  abbrev pub crio_runtime : ContainerRuntimeMounter
  crio_runtime = record {
    State = store.State;
    Error = CrioError store.Error;
    mount = mount_snapshot;
    unmount = λ target. or_error (storage.unmount_target target);
    image_exists = λ image s. succeeds (storage.image image.string s).0;
    get_image_id_or_die = get_image_id_or_die;
    prepare_read_only_snapshot =
        λ image_id key metadata. prepare_snapshot store image_id key (some metadata) true;
    prepare_rw_snapshot =
        λ image_id key metadata. prepare_snapshot store image_id key metadata false;
    update_snapshot_metadata = update_snapshot_metadata;
    destroy_snapshot = destroy_snapshot;
    list_snapshots = list_snapshots;
  }
