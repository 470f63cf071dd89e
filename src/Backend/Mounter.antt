-- ===== src/Backend/Mounter.antt =====
-- pkg/backend/mounter.go: `SnapshotMounter`, which shares one read-only snapshot of an image among
-- all targets that mount it, and counts them. `guard` makes `ref_ro_snapshot` and
-- `unref_ro_snapshot` atomic; the runtime is a parameter.
pub mod Contract
pub mod Invariant
pub mod Rollback
pub mod Volumes
pub mod Unmounting
pub mod Sharing
pub mod Interleaving
pub mod Life
pub mod Restart
pub mod Disk
mod Samples
use container_image_csi_driv.Base.{
  ℕ, ◌≡◌, Bool, true, false, not, ◌||◌, List, [], ◌∷◌, ◌++◌, Option, none, some, ◌==◌, ltb,
  if◌then◌else◌, length, is_empty, or_else, nat_eq,
}
use container_image_csi_driv.Text.{Text, codes, Text-eq}
use container_image_csi_driv.Dict.{Dict, get, has, put, delete}
use container_image_csi_driv.Exec.{
  Exec, Outcome, ok, err, crash, continue, ◌>>=◌, ◌>>◌, pure, fatal, gets, modify, require,
  or_fatal,
}
use container_image_csi_driv.Backend.Metadata.{
  TargetSet, SnapshotMetadata, get_snapshot_key, get_targets, copy_targets,
  create_snapshot_metadata, build_snapshot_metadata,
}
use container_image_csi_driv.Backend.Runtime.{Named, ContainerRuntimeMounter}

pub record SnapshotMounter (S : Type 0) : Type 0 where
  pub runtime : S
  -- mapping from targets to key of read-only snapshots
  pub target_ro_snapshot_map : Dict Text Text
  -- reference counter of read-only snapshots
  pub ro_snapshot_targets_map : Dict Text TargetSet

unfoldable pub gen_snapshot_key : Text → Text
gen_snapshot_key parent = codes "container-image.csi.k8s.io-" ++ parent

module _ {S : Type 0} where
  -- s.targetRoSnapshotMap[target]
  abbrev pub key_of : Text → SnapshotMounter S → Text
  key_of target s = or_else (get target s.target_ro_snapshot_map) []

  -- s.roSnapshotTargetsMap[key]
  abbrev pub targets_of : Text → SnapshotMounter S → TargetSet
  targets_of key s = or_else (get key s.ro_snapshot_targets_map) []

  abbrev set_targets_of : Text → TargetSet → SnapshotMounter S → SnapshotMounter S
  set_targets_of key ts s = record s {
    ro_snapshot_targets_map = put key ts s.ro_snapshot_targets_map;
  }

  abbrev set_key_of : Text → Text → SnapshotMounter S → SnapshotMounter S
  set_key_of target key s = record s {
    target_ro_snapshot_map = put target key s.target_ro_snapshot_map;
  }

  abbrev drop_key_of : Text → SnapshotMounter S → SnapshotMounter S
  drop_key_of target s = record s {
    target_ro_snapshot_map = delete target s.target_ro_snapshot_map;
  }

  abbrev drop_targets_of : Text → SnapshotMounter S → SnapshotMounter S
  drop_targets_of key s = record s {
    ro_snapshot_targets_map = delete key s.ro_snapshot_targets_map;
  }

  abbrev add_target : Text → Text → SnapshotMounter S → SnapshotMounter S
  add_target target key s = set_targets_of key (put target tt (targets_of key s)) s

module _ {E : Type 0} where
  -- if err := …; err != nil { klog.Fatalf(…) }
  abbrev die_on_err : {A : Type 0} → Outcome E A → Outcome E A
  die_on_err (ok a) = ok a
  die_on_err (err e) = crash
  die_on_err crash = crash

  -- A deferred clean-up runs on an error, which is returned whatever the clean-up returns.
  abbrev after_cleanup : {A B : Type 0} → E → Outcome E A → Outcome E B
  after_cleanup e (ok a) = err e
  after_cleanup e (err e') = err e
  after_cleanup e crash = crash

module _ {S E : Type 0} where
  abbrev on_runtime : {A : Type 0} → Exec S E A → Exec (SnapshotMounter S) E A
  on_runtime m s = ((m s.runtime).0, record s { runtime = (m s.runtime).1 })

  abbrev or_die : {A : Type 0} → Exec S E A → Exec S E A
  or_die m s = (die_on_err (m s).0, (m s).1)

  abbrev cleaned : {A B : Type 0} → Outcome E B → S → Exec S E A → Outcome E B × S
  cleaned (ok b) s cleanup = (ok b, s)
  cleaned (err e) s cleanup = (after_cleanup e (cleanup s).0, (cleanup s).1)
  cleaned crash s cleanup = (crash, s)

  abbrev on_error : {A B : Type 0} → Exec S E B → Exec S E A → Exec S E B
  on_error m cleanup s = cleaned (m s).0 (m s).1 cleanup

module _ (rt : ContainerRuntimeMounter) where
  abbrev pub Action : Type 0 → Type 0
  Action A = Exec (SnapshotMounter rt.State) rt.Error A

  -- The branch where other volumes use the snapshot: its metadata is updated.
  share_ro_snapshot : Text → SnapshotMetadata → Action Unit
  share_ro_snapshot key metadata = do
    targets ← gets (targets_of key)
    shared ← or_fatal (copy_targets targets metadata)
    on_runtime (rt.update_snapshot_metadata key shared)

  -- The branch where no volume uses it: it is created.
  create_ro_snapshot : Text → Text → SnapshotMetadata → Action Unit
  create_ro_snapshot image_id key metadata = do
    on_runtime (rt.prepare_read_only_snapshot image_id key metadata)
    modify (set_targets_of key [])

  unfoldable pub ref_ro_snapshot : Text → Text → Text → SnapshotMetadata → Action Unit
  unfolding share_ro_snapshot create_ro_snapshot
  ref_ro_snapshot target image_id key metadata = do
    held ← gets (key_of target)
    require (is_empty held)
    targets ← gets (targets_of key)
    if ltb 0 (length targets)
        then share_ro_snapshot key metadata
        else create_ro_snapshot image_id key metadata
    modify (add_target target key)
    modify (set_key_of target key)

  -- Other targets remain. `delete` changes the set in place, before the metadata is updated.
  leave_ro_snapshot : Text → Text → Action Bool
  leave_ro_snapshot target key = do
    targets ← gets (targets_of key)
    let rest = delete target targets
    modify (set_targets_of key rest)
    or_die (on_runtime (rt.update_snapshot_metadata key (build_snapshot_metadata rest)))
    modify (drop_key_of target)
    pure true

  -- The last target leaves.
  destroy_ro_snapshot : Text → Text → Action Bool
  destroy_ro_snapshot target key = do
    or_die (on_runtime (rt.destroy_snapshot key))
    modify (drop_targets_of key)
    modify (drop_key_of target)
    pure true

  release_ro_snapshot : Text → Text → Action Bool
  unfolding leave_ro_snapshot destroy_ro_snapshot
  release_ro_snapshot target key = do
    targets ← gets (targets_of key)
    if ltb 1 (length targets)
        then leave_ro_snapshot target key
        else if length targets == 0
        then fatal
        else destroy_ro_snapshot target key

  -- Whether the target was found.
  unfoldable pub unref_ro_snapshot : Text → Action Bool
  unfolding release_ro_snapshot
  unref_ro_snapshot target = do
    key ← gets (key_of target)
    if is_empty key then pure false else release_ro_snapshot target key

  undo_ref : Text → Action Unit
  undo_ref target = do found ← unref_ro_snapshot target; require found

  mount_ro : Text → Text → Action Unit
  unfolding undo_ref
  mount_ro target image_id = do
    require (not (is_empty image_id))
    let key = gen_snapshot_key image_id
    ref_ro_snapshot target image_id key (create_snapshot_metadata target)
    on_error (on_runtime (rt.mount key target true)) (undo_ref target)

  mount_rw : Text → Text → Text → Action Unit
  mount_rw volume_id target image_id = do
    let key = gen_snapshot_key volume_id
    on_runtime (rt.prepare_rw_snapshot image_id key none)
    on_error (on_runtime (rt.mount key target false)) (on_runtime (rt.destroy_snapshot key))

  unfoldable pub mount : Text → Text → Named → Bool → Action Unit
  unfolding mount_ro mount_rw
  mount volume_id target image ro = do
    image_id ← on_runtime (rt.get_image_id_or_die image)
    if ro then mount_ro target image_id else mount_rw volume_id target image_id

  unfoldable pub unmount : Text → Text → Action Unit
  unmount volume_id target = do
    on_runtime (rt.unmount target)
    found ← unref_ro_snapshot target
    if found then pure tt else on_runtime (rt.destroy_snapshot (gen_snapshot_key volume_id))

  unfoldable pub image_exists : Named → SnapshotMounter rt.State → Bool
  image_exists image s = rt.image_exists image s.runtime
