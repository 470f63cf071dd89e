-- ===== src/Backend/Containerd/Service.antt =====
-- pkg/backend/containerd/containerd.go: `snapshotMounter`, which implements the runtime interface
-- over a snapshotter and an image store of containerd. An error is given by its message.
pub mod Laws
pub mod Leaves
pub mod Preparing
pub mod Refinement
pub mod Memory
pub mod Listing
pub mod Starting
mod Samples
use container_image_csi_driv.Base.{
  Bool, true, false, not, ◌&&◌, is_empty, List, [], ◌∷◌, ◌++◌, Option, none, some, if◌then◌else◌,
}
use container_image_csi_driv.Text.{Text, codes}
use container_image_csi_driv.Exec.{
  Exec, Outcome, ok, err, crash, continue, ◌>>=◌, ◌>>◌, pure, raise, gets, or_fatal, require,
}
use container_image_csi_driv.Backend.Metadata.{TargetSet, SnapshotMetadata, get_targets}
use container_image_csi_driv.Backend.Runtime.{Named, ContainerRuntimeMounter}
use container_image_csi_driv.Backend.Containerd.{
  Labels, gc_label, with_targets, update_labels, Kind, view, active, Info, Find, not_there, usable,
  different, find_snapshot, list_snapshot,
}
use container_image_csi_driv.Backend.Containerd.Mounts.{
  Mount, Host, described, mount_in_host_namespace,
}

-- snapshots.Snapshotter, client.Client, the clock and the host.
pub record Service : Type 1 where
  pub State : Type 0
  pub Image : Type 0
  pub stat : Text → Exec State Text Info
  -- key, parent, labels
  pub view_snapshot : Text → Text → Labels → Exec State Text Unit
  pub prepare_snapshot : Text → Text → Labels → Exec State Text Unit
  pub update : Info → Exec State Text Unit
  pub remove : Text → Exec State Text Unit
  -- the snapshots that Walk visits
  pub walk : Exec State Text (List Info)
  pub mounts : Text → Exec State Text (List Mount)
  pub get_image : Text → Exec State Text Image
  pub unpack : Image → Exec State Text Unit
  -- identity.ChainID of RootFS
  pub chain_id : Image → Exec State Text Text
  -- time.Now().UTC().Format(time.RFC3339)
  pub now : State → Text
  -- whether reference.ParseNamed succeeds
  pub is_named : Text → Bool
  pub host : Host State

abbrev pub default_snapshot_labels : Text → Labels
default_snapshot_labels now = (gc_label, now) ∷ []

abbrev pub labels_with : Text → Option TargetSet → Option Labels
labels_with now none = none
labels_with now (some targets) = some (with_targets (default_snapshot_labels now) targets)

-- The labels of a new snapshot; `none` is the panic of GetTargets.
abbrev pub labels_of : Text → Option SnapshotMetadata → Option Labels
labels_of now none = some (default_snapshot_labels now)
labels_of now (some metadata) = labels_with now (get_targets metadata)

-- if err != nil { klog.Fatalf(…) }
abbrev pub fatal_on_err : {A : Type 0} → Outcome Text A → Outcome Text A
fatal_on_err (ok a) = ok a
fatal_on_err (err e) = crash
fatal_on_err crash = crash

module _ {S : Type 0} where
  abbrev pub or_fatalf : {A : Type 0} → Exec S Text A → Exec S Text A
  or_fatalf m s = (fatal_on_err (m s).0, (m s).1)

  -- The result of a call, or none after an error.
  abbrev pub attempted : {A : Type 0} → Outcome Text A × S → Outcome Text (Option A) × S
  attempted (ok a, s) = (ok (some a), s)
  attempted (err e, s) = (ok none, s)
  attempted (crash, s) = (crash, s)

  -- The metadata of the snapshots that Walk visits; a slice out of range panics.
  unfoldable pub list_infos : (Text → Bool) → List Info → Exec S Text (List SnapshotMetadata)
  list_infos is_named [] = pure []
  list_infos is_named (info ∷ infos) = do
    found ← or_fatal (list_snapshot is_named info)
    later ← list_infos is_named infos
    pure (elim found [ none ↦ later | some metadata ↦ metadata ∷ later ])

module _ (service : Service) where
  open service use {State, stat}

  abbrev pub settled : Find → Exec State Text Unit → Exec State Text Unit
  settled usable create = pure tt
  settled different create = raise (codes "found existed snapshot with different configuration")
  settled not_there create = create

  -- FindSnapshot, and what is done with its answer: `create` if the snapshot could not be found.
  unfoldable pub unless_found :
      Text → Text → Kind → Labels → Exec State Text Unit → Exec State Text Unit
  unless_found key parent kind labels create = do
    found ← λ s. attempted (stat key s)
    settled (find_snapshot found parent kind labels) create

  unfoldable pub prepare_read_only_snapshot :
      Text → Text → Option SnapshotMetadata → Exec State Text Unit
  unfolding unless_found
  prepare_read_only_snapshot image_id key metadata = do
    now ← gets service.now
    labels ← or_fatal (labels_of now metadata)
    unless_found key image_id view labels (service.view_snapshot key image_id labels)

  unfoldable pub prepare_rw_snapshot : Text → Text → Option SnapshotMetadata → Exec State Text Unit
  unfolding unless_found
  prepare_rw_snapshot image_id key metadata = do
    now ← gets service.now
    labels ← or_fatal (labels_of now metadata)
    unless_found key image_id active labels (service.prepare_snapshot key image_id labels)

  -- A snapshot without labels has a nil map, to which a write panics.
  unfoldable pub updated : SnapshotMetadata → Info → Exec State Text Unit
  updated metadata info = do
    targets ← or_fatal (get_targets metadata)
    require (not (is_empty info.labels && not (is_empty targets)))
    service.update (record info { labels = update_labels info.labels targets })

  unfoldable pub update_snapshot_metadata : Text → SnapshotMetadata → Exec State Text Unit
  unfolding updated
  update_snapshot_metadata key metadata = stat key >>= updated metadata

  unfoldable pub list_snapshots : Exec State Text (List SnapshotMetadata)
  list_snapshots = do infos ← service.walk; list_infos service.is_named infos

  unfoldable pub mount_snapshot : Text → Text → Exec State Text Unit
  mount_snapshot key target = do
    mounts ← service.mounts key
    λ s. described service.host mounts target (mount_in_host_namespace service.host mounts target s)

  abbrev pub answered : {A : Type 0} → Outcome Text A → Bool
  answered (ok a) = true
  answered _ = false

  unfoldable pub get_image_id_or_die : Named → Exec State Text Text
  get_image_id_or_die image = do
    local_image ← or_fatalf (service.get_image image.string)
    or_fatalf (service.unpack local_image)
    or_fatalf (service.chain_id local_image)

  abbrev pub containerd_runtime : ContainerRuntimeMounter
  containerd_runtime = record {
    State = State;
    Error = Text;
    mount = λ key target ro. mount_snapshot key target;
    unmount = service.host.umount;
    image_exists = λ image s. answered (service.get_image image.string s).0;
    get_image_id_or_die = get_image_id_or_die;
    prepare_read_only_snapshot =
        λ image_id key metadata. prepare_read_only_snapshot image_id key (some metadata);
    prepare_rw_snapshot = prepare_rw_snapshot;
    update_snapshot_metadata = update_snapshot_metadata;
    destroy_snapshot = service.remove;
    list_snapshots = list_snapshots;
  }
