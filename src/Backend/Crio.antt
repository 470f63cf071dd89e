-- ===== src/Backend/Crio.antt =====
-- pkg/backend/crio/crio.go: the preparation of snapshots and their list. The store of containers/storage and
-- encoding/json are parameters.
pub mod Again
pub mod Listed
pub mod Service
pub mod Config
mod Samples
use container_image_csi_driv.Base.{
  ℕ, Bool, true, false, not, ◌&&◌, List, [], ◌∷◌, Option, none, some, if◌then◌else◌, is_empty,
  nat_eq,
}
use container_image_csi_driv.Text.{Text, Text-eq, text_eq}
use container_image_csi_driv.Dict.{get}
use container_image_csi_driv.Exec.{Exec, Outcome, ok, err, crash}
use container_image_csi_driv.Backend.Metadata.{
  MetadataValue, SnapshotMetadata, set_snapshot_key, get_targets,
}

-- storage.Container
pub record Container : Type 0 where
  pub id : Text
  pub image_id : Text
  pub metadata : Text

-- storage.Store, encoding/json and reflect.DeepEqual. `decode` gives whether it succeeds, and what
-- it has put into the map.
pub record ImageStore : Type 1 where
  pub State : Type 0
  pub Error : Type 0
  pub container : Text → State → Option Container
  -- id, image, metadata, whether it is read-only
  pub create_container : Text → Text → Text → Bool → Exec State Error Unit
  pub encode : SnapshotMetadata → Text
  pub decode : Text → Bool × SnapshotMetadata
  pub deep_equal : MetadataValue → Option MetadataValue → Bool

pub data CrioError (E : Type 0) : Type 0 where
  different_image : CrioError E
  without_metadata : CrioError E
  unknown_metadata : CrioError E
  different_configuration : CrioError E
  store_failed : E → CrioError E

-- An error of the store is returned.
abbrev pub failure : {E A : Type 0} → Outcome E A → Outcome (CrioError E) A
failure (ok a) = ok a
failure (err e) = err (store_failed e)
failure crash = crash

abbrev pub listed_before :
    SnapshotMetadata → Option (List SnapshotMetadata) → Option (List SnapshotMetadata)
listed_before n none = none
listed_before n (some later) = some (n ∷ later)

module _ (store : ImageStore) where
  abbrev pub meta_string : Option SnapshotMetadata → Text
  meta_string none = []
  meta_string (some m) = store.encode m

  -- The loop over the metadata that is asked for.
  unfoldable pub same_metadata : SnapshotMetadata → SnapshotMetadata → Bool
  same_metadata [] existed = true
  same_metadata ((k, v) ∷ m) existed = store.deep_equal v (get k existed) && same_metadata m existed

  -- The metadata of the container against what is asked for.
  abbrev check_metadata : SnapshotMetadata → Text → Outcome (CrioError store.Error) Unit
  check_metadata m stored =
      if is_empty stored
      then err without_metadata
      else if (store.decode stored).0
      then err unknown_metadata
      else if same_metadata m (store.decode stored).1
      then ok tt
      else err different_configuration

  -- A container that has the key.
  unfoldable pub check_container :
      Text → Option SnapshotMetadata → Container → Outcome (CrioError store.Error) Unit
  check_container image none c =
      if not (text_eq c.image_id image) then err different_image else ok tt
  check_container image (some m) c =
      if not (text_eq c.image_id image) then err different_image else check_metadata m c.metadata

  unfoldable pub prepare_snapshot :
      Text → Text → Option SnapshotMetadata → Bool → Exec store.State (CrioError store.Error) Unit
  prepare_snapshot image key metadata ro s = elim (store.container key s) [
    | some c ↦ (check_container image metadata c, s)
    | none ↦
        let r = store.create_container key image (meta_string metadata) ro s in (failure r.0, r.1)
  ]

  -- What one container adds to the list; its targets are read for the log, and without targets the
  -- code panics: `none`.
  unfoldable pub list_container :
      Container → Option (List SnapshotMetadata) → Option (List SnapshotMetadata)
  list_container c later =
      let n = set_snapshot_key c.id (store.decode c.metadata).1 in
      if is_empty c.metadata
      then later
      else if (store.decode c.metadata).0
      then elim (get_targets n) [ none ↦ none | some _ ↦ listed_before n later ]
      else later

  -- The loop over the containers.
  unfoldable pub list_containers : List Container → Option (List SnapshotMetadata)
  list_containers [] = some []
  list_containers (c ∷ containers) = list_container c (list_containers containers)
