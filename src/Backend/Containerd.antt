-- ===== src/Backend/Containerd.antt =====
-- pkg/backend/containerd/containerd.go: the labels in which containerd keeps the targets of a
-- snapshot, the search for a snapshot and the list of snapshots. The snapshotter and
-- `reference.ParseNamed` are parameters.
pub mod Mounts
pub mod Missing
pub mod Service
pub mod Targets
pub mod Found
pub mod Labels
pub mod Nsenter
mod Samples
use container_image_csi_driv.Base.{
  ℕ, ◌+◌, Bool, true, false, not, ◌&&◌, ◌||◌, List, [], ◌∷◌, ◌++◌, Option, none, some, or_else, ltb,
  if◌then◌else◌, length, drop, is_empty,
}
use container_image_csi_driv.Text.{Text, Text-eq, text_eq, codes}
use container_image_csi_driv.Strings.{has_prefix}
use container_image_csi_driv.Dict.{Dict, get, put}
use container_image_csi_driv.Backend.Metadata.{
  TargetSet, SnapshotMetadata, set_snapshot_key, set_targets,
}

abbrev pub label_prefix : Text
label_prefix = codes "container-image.csi.k8s.io"

abbrev pub target_label_prefix : Text
target_label_prefix = codes "container-image.csi.k8s.io/target"

abbrev pub volume_id_label_prefix : Text
volume_id_label_prefix = codes "container-image.csi.k8s.io/id"

abbrev pub gc_label : Text
gc_label = codes "containerd.io/gc.root"

abbrev pub Labels : Type 0
Labels = Dict Text Text

-- The bytes of the check mark.
abbrev check_mark : Text
check_mark = 226 ∷ 136 ∷ 154 ∷ []

abbrev pub gen_target_label : Text → Text
gen_target_label target = target_label_prefix ++ b'|' ∷ target

unfoldable pub with_targets : Labels → TargetSet → Labels
with_targets labels [] = labels
with_targets labels ((t, _) ∷ targets) =
    with_targets (put (gen_target_label t) check_mark labels) targets

-- The labels that UpdateSnapshotMetadata does not delete.
unfoldable pub without_driver_labels : Labels → Labels
without_driver_labels [] = []
without_driver_labels ((k, v) ∷ labels) =
    let rest = without_driver_labels labels in
    if has_prefix k label_prefix then rest else (k, v) ∷ rest

-- The labels that UpdateSnapshotMetadata gives to the snapshot.
unfoldable pub update_labels : Labels → TargetSet → Labels
update_labels labels targets = with_targets (without_driver_labels labels) targets

-- snapshots.Kind
pub data Kind : Type 0 where
  unknown_kind : Kind
  view : Kind
  active : Kind
  committed : Kind

abbrev pub same_kind : Kind → Kind → Bool
same_kind unknown_kind unknown_kind = true
same_kind view view = true
same_kind active active = true
same_kind committed committed = true
same_kind _ _ = false

-- snapshots.Info
pub record Info : Type 0 where
  pub name : Text
  pub kind : Kind
  pub parent : Text
  pub labels : Labels

-- Every label but the one of the garbage collector has the same value.
unfoldable pub same_labels : Labels → Labels → Bool
same_labels info [] = true
same_labels info ((k, v) ∷ labels) =
    let rest = same_labels info labels in
    if text_eq k gc_label then rest else text_eq (or_else (get k info) []) v && rest

-- The result of FindSnapshot: the snapshot is not there, is there, or is another.
pub data Find : Type 0 where
  not_there : Find
  usable : Find
  different : Find

unfoldable pub find_snapshot : Option Info → Text → Kind → Labels → Find
find_snapshot none parent kind labels = not_there
find_snapshot (some info) parent kind labels =
    if same_kind info.kind kind && text_eq info.parent parent
    then (if same_labels info.labels labels then usable else different)
    else different

-- What the walk finds in one snapshot; a slice beyond the end of a name or a label panics.
pub data Scan : Type 0 where
  panicked : Scan
  skipped : Scan
  targets_found : TargetSet → Scan

-- A label of an old version of the driver: on a read-write snapshot, or on one of a PV.
abbrev is_old : (Text → Bool) → Text → Bool
is_old is_named name =
    has_prefix (drop (length label_prefix + 1) name) (codes "csi-")
    || is_named (drop (length label_prefix + 1) name)

-- The loop over the labels.
unfoldable pub scan_labels : (Text → Bool) → Text → Labels → TargetSet → Scan
scan_labels is_named name [] targets = targets_found targets
scan_labels is_named name ((k, v) ∷ labels) targets =
    let plain = scan_labels is_named name labels targets in
    let added =
      scan_labels is_named name labels (put (drop (length target_label_prefix + 1) k) tt targets) in
    if has_prefix k volume_id_label_prefix
    then (if ltb (length name) (length label_prefix + 1)
        then panicked
        else if is_old is_named name
        then skipped
        else plain)
    else if has_prefix k target_label_prefix
    then (if ltb (length target_label_prefix) (length k) then added else panicked)
    else plain

abbrev listed : Text → TargetSet → Option SnapshotMetadata
listed name targets =
    if is_empty targets then none else some (set_targets targets (set_snapshot_key name []))

-- The metadata of one snapshot in the list; `none` outside is the panic.
unfoldable pub list_snapshot : (Text → Bool) → Info → Option (Option SnapshotMetadata)
list_snapshot is_named info =
    if is_empty info.labels
    then some none
    else elim (scan_labels is_named info.name info.labels []) [
      | panicked ↦ none
      | skipped ↦ some none
      | targets_found targets ↦ some (listed info.name targets)
    ]
