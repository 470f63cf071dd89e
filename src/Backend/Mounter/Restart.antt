-- ===== src/Backend/Mounter/Restart.antt =====
-- pkg/backend/mounter.go: `buildSnapshotCacheOrDie`, which rebuilds the cache from the runtime's list
-- of snapshots when the driver starts. Whether a target is a mount point is a parameter; a check that
-- fails counts as no.
pub mod Targets
pub mod Loading
pub mod Rebuilt
mod Samples
use container_image_csi_driv.Base.{
  ◌≡◌, Bool, true, false, List, [], ◌∷◌, Option, none, some, ◌==◌, nat_eq, ltb, if◌then◌else◌,
  length, is_empty, not,
}
use container_image_csi_driv.Text.{Text, Text-eq}
use container_image_csi_driv.Dict.{Dict, put}
use container_image_csi_driv.Exec.{
  Exec, Outcome, ok, err, crash, continue, ◌>>=◌, ◌>>◌, pure, gets, modify, require, or_fatal,
}
use container_image_csi_driv.Backend.Metadata.{
  TargetSet, SnapshotMetadata, get_snapshot_key, get_targets, build_snapshot_metadata,
}
use container_image_csi_driv.Backend.Runtime.{ContainerRuntimeMounter}
use container_image_csi_driv.Backend.Mounter.{
  SnapshotMounter, Action, targets_of, set_targets_of, on_runtime, or_die,
}

-- The targets that are left after the loop over them.
unfoldable pub keep_mounted : (Text → Bool) → TargetSet → TargetSet
keep_mounted mounted [] = []
keep_mounted mounted ((t, u) ∷ targets) =
    let rest = keep_mounted mounted targets in if mounted t then (t, u) ∷ rest else rest

-- s.targetRoSnapshotMap[target] = key, for each of them
unfoldable pub put_keys : Text → TargetSet → Dict Text Text → Dict Text Text
put_keys key [] m = m
put_keys key ((t, _) ∷ targets) m = put_keys key targets (put t key m)

module _ (rt : ContainerRuntimeMounter) (mounted : Text → Bool) where
  abbrev set_keys : Text → TargetSet → SnapshotMounter rt.State → SnapshotMounter rt.State
  set_keys key kept s = record s {
    target_ro_snapshot_map = put_keys key kept s.target_ro_snapshot_map;
  }

  -- Some targets are left: their snapshot joins the cache.
  adopt : Text → Bool → TargetSet → Action rt Unit
  adopt key changed kept = do
    if changed
        then or_die (on_runtime (rt.update_snapshot_metadata key (build_snapshot_metadata kept)))
        else pure tt
    modify (set_targets_of key kept)

  -- One snapshot of the list.
  unfoldable pub load_snapshot : Text → Option TargetSet → Action rt Unit
  unfolding adopt
  load_snapshot key found = do
    require (not (is_empty key))
    held ← gets (targets_of key)
    require (length held == 0)
    targets ← or_fatal found
    require (ltb 0 (length targets))
    let kept = keep_mounted mounted targets
    modify (set_keys key kept)
    if ltb 0 (length kept)
        then adopt key (not (length kept == length targets)) kept
        else or_die (on_runtime (rt.destroy_snapshot key))

  load_metadata : SnapshotMetadata → Action rt Unit
  load_metadata metadata = do
    key ← or_fatal (get_snapshot_key metadata)
    load_snapshot key (get_targets metadata)

  unfoldable pub load_all : List SnapshotMetadata → Action rt Unit
  unfolding load_metadata
  load_all [] = pure tt
  load_all (metadata ∷ snapshots) = do load_metadata metadata; load_all snapshots

  unfoldable pub build_snapshot_cache_or_die : Action rt Unit
  build_snapshot_cache_or_die = do
    snapshots ← or_die (on_runtime rt.list_snapshots)
    load_all snapshots
