-- ===== src/Backend/Metadata.antt =====
-- pkg/backend/metadata.go: the metadata that the driver keeps on a read-only snapshot.
use container_image_csi_driv.Base.{
  ℕ, ◌≡◌, refl, Bool, true, false, ◌||◌, List, [], ◌∷◌, Option, none, some, arith, ◌==◌,
  if◌then◌else◌, nat_eq,
}
use container_image_csi_driv.Text.{Text, Text-eq}
use container_image_csi_driv.Dict.{Dict, get, has, put, get-put}

-- map[MountTarget]struct{}
abbrev pub TargetSet : Type 0
TargetSet = Dict Text Unit

-- The dynamic types of an `interface{}` that the type switches tell apart. `object` is a
-- map[string]interface{}, of which the driver reads the keys alone.
pub data MetadataValue : Type 0 where
  snapshot_key : Text → MetadataValue
  str : Text → MetadataValue
  target_map : TargetSet → MetadataValue
  object : List Text → MetadataValue
  other : MetadataValue

abbrev pub SnapshotMetadata : Type 0
SnapshotMetadata = Dict ℕ MetadataValue

abbrev pub fake_metadata_snapshot_key : ℕ
fake_metadata_snapshot_key = 0

abbrev pub metadata_key_targets : ℕ
metadata_key_targets = 1

-- `none` is the panic of the default branch.
as_snapshot_key : Option MetadataValue → Option Text
as_snapshot_key (some (snapshot_key v)) = some v
as_snapshot_key (some (str v)) = some v
as_snapshot_key _ = none

unfoldable pub get_snapshot_key : SnapshotMetadata → Option Text
unfolding as_snapshot_key
get_snapshot_key m = as_snapshot_key (get fake_metadata_snapshot_key m)

unfoldable pub set_snapshot_key : Text → SnapshotMetadata → SnapshotMetadata
set_snapshot_key key m = put fake_metadata_snapshot_key (snapshot_key key) m

unfoldable pub to_target_set : List Text → TargetSet
to_target_set [] = []
to_target_set (k ∷ ks) = put k tt (to_target_set ks)

as_targets : Option MetadataValue → Option TargetSet
as_targets (some (target_map v)) = some v
as_targets (some (object ks)) = some (to_target_set ks)
as_targets _ = none

unfoldable pub get_targets : SnapshotMetadata → Option TargetSet
unfolding as_targets to_target_set
get_targets m = as_targets (get metadata_key_targets m)

unfoldable pub set_targets : TargetSet → SnapshotMetadata → SnapshotMetadata
set_targets targets m = put metadata_key_targets (target_map targets) m

-- for target := range targets { metaTargets[target] = struct{}{} }
unfoldable pub add_targets : TargetSet → TargetSet → TargetSet
add_targets [] into = into
add_targets ((t, _) ∷ targets) into = add_targets targets (put t tt into)

as_target_map : Option MetadataValue → Option TargetSet
as_target_map (some (target_map v)) = some v
as_target_map _ = none

copy_into : Option TargetSet → TargetSet → SnapshotMetadata → Option SnapshotMetadata
copy_into none targets m = none
copy_into (some into) targets m =
    some (put metadata_key_targets (target_map (add_targets targets into)) m)

-- The assertion `.(map[MountTarget]struct{})` panics on any other type.
unfoldable pub copy_targets : TargetSet → SnapshotMetadata → Option SnapshotMetadata
unfolding copy_into as_target_map
copy_targets targets m = copy_into (as_target_map (get metadata_key_targets m)) targets m

unfoldable pub create_snapshot_metadata : Text → SnapshotMetadata
create_snapshot_metadata target = (metadata_key_targets, target_map ((target, tt) ∷ [])) ∷ []

unfoldable pub build_snapshot_metadata : TargetSet → SnapshotMetadata
build_snapshot_metadata targets = (metadata_key_targets, target_map targets) ∷ []

-- The targets that a snapshot's metadata names; none where it names no set.
abbrev pub targets_in : Option SnapshotMetadata → TargetSet
targets_in none = []
targets_in (some m) = elim (get_targets m) [ none ↦ [] | some ts ↦ ts ]

-- Membership in the targets of metadata.
abbrev pub named_by : SnapshotMetadata → Text → Bool
named_by m u = has u (targets_in (some m))

-- The targets depend on the value at their key alone.
abbrev pub value_names : Option MetadataValue → Text → Bool
value_names none u = false
value_names (some v) u = named_by ((metadata_key_targets, v) ∷ []) u

value_names_lem :
    (o : Option MetadataValue) (u : Text)
    → has u (elim (as_targets o) [ none ↦ [] | some found ↦ found ]) ≡ value_names o u
unfolding get_targets as_targets get
value_names_lem none u = refl
value_names_lem (some v) u = refl

pub named_by_lem :
    (m : SnapshotMetadata) (u : Text) → named_by m u ≡ value_names (get metadata_key_targets m) u
unfolding get_targets
named_by_lem m u = value_names_lem (get metadata_key_targets m) u

pub has-add_targets :
    (u : Text) (targets into : TargetSet)
    → has u (add_targets targets into) ≡ (has u targets || has u into)
unfolding add_targets get
has-add_targets u [] into = refl
has-add_targets u ((t, _) ∷ targets) into =
    ground (arith, has-add_targets u targets (put t tt into), get-put t u tt into)

-- The metadata of a fresh target, with the targets of the snapshot copied in.
unfoldable pub shared_metadata : Text → TargetSet → SnapshotMetadata
shared_metadata target targets =
    (metadata_key_targets, target_map (add_targets targets ((target, tt) ∷ []))) ∷ []

pub copy_targets-create :
    (target : Text) (targets : TargetSet)
    → copy_targets targets (create_snapshot_metadata target) ≡ some (shared_metadata target targets)
unfolding copy_targets create_snapshot_metadata shared_metadata get put
copy_targets-create target targets = refl

pub has-shared_metadata :
    (u target : Text) (targets : TargetSet)
    → has u (targets_in (some (shared_metadata target targets)))
      ≡ (if target == u then true else has u targets)
unfolding shared_metadata get_targets get
has-shared_metadata u target targets = ground (arith, has-add_targets u targets ((target, tt) ∷ []))

pub targets_in-create :
    (target : Text) → targets_in (some (create_snapshot_metadata target)) ≡ (target, tt) ∷ []
unfolding create_snapshot_metadata get_targets get
targets_in-create target = refl

pub targets_in-build :
    (targets : TargetSet) → targets_in (some (build_snapshot_metadata targets)) ≡ targets
unfolding build_snapshot_metadata get_targets get
targets_in-build targets = refl
