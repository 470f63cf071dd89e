-- ===== src/Backend/Crio/Service/Laws.antt =====
-- What the driver relies on of containers/storage and of the encoding of metadata.
use container_image_csi_driv.Base.{
  ◌≡◌, Bool, true, false, List, Option, none, some, ◌==◌, if◌then◌else◌, is_empty, is_some, nat_eq,
}
use container_image_csi_driv.Text.{Text, Text-eq}
use container_image_csi_driv.Exec.{ok}
use container_image_csi_driv.Backend.Metadata.{
  MetadataValue, SnapshotMetadata, named_by, value_names,
}
use container_image_csi_driv.Backend.Runtime.{Settles, no_targets}
use container_image_csi_driv.Backend.Crio.{Container, ImageStore}
use container_image_csi_driv.Backend.Crio.Service.{Storage}

abbrev pub with_metadata : Text → Option Container → Option Container
with_metadata meta none = none
with_metadata meta (some c) = some (record c { metadata = meta })

-- The targets that the metadata of a container names, as far as it can be decoded.
abbrev pub recorded_in : ImageStore → Option Container → Text → Bool
recorded_in store none = no_targets
recorded_in store (some c) =
    if is_empty c.metadata then no_targets else named_by (store.decode c.metadata).1

-- JSON keeps the targets of metadata, for paths in UTF-8; what reflect.DeepEqual takes for equal has
-- the same targets.
pub record StorageLaws (storage : Storage) : Type 0 where
  pub create_law :
      (key image meta : Text) (ro : Bool) (s : storage.store.State) (j : Text)
      → let r = storage.store.create_container key image meta ro s in
        Settles r.0
          (storage.store.container j r.1)
          (if key == j
            then some (record { id = key; image_id = image; metadata = meta })
            else storage.store.container j s)
          (storage.store.container j s)
  pub set_metadata_law :
      (key meta : Text) (s : storage.store.State) (j : Text)
      → let r = storage.set_metadata key meta s in
        Settles r.0
          (storage.store.container j r.1)
          (if key == j
            then with_metadata meta (storage.store.container j s)
            else storage.store.container j s)
          (storage.store.container j s)
  pub set_metadata_known :
      (key meta : Text) (s : storage.store.State)
      → (storage.set_metadata key meta s).0 ≡ ok tt
      → is_some (storage.store.container key s) ≡ true
  pub delete_law :
      (key : Text) (s : storage.store.State) (j : Text)
      → let r = storage.delete_container key s in
        Settles r.0
          (storage.store.container j r.1)
          (if key == j then none else storage.store.container j s)
          (storage.store.container j s)
  -- What is not there cannot be deleted.
  pub delete_known :
      (key : Text) (s : storage.store.State)
      → (storage.delete_container key s).0 ≡ ok tt
      → is_some (storage.store.container key s) ≡ true
  pub image_keeps :
      (image : Text) (s : storage.store.State) (j : Text)
      → storage.store.container j (storage.image image s).1 ≡ storage.store.container j s
  pub mount_container_keeps :
      (key : Text) (s : storage.store.State) (j : Text)
      → storage.store.container j (storage.mount_container key s).1 ≡ storage.store.container j s
  pub unmount_container_keeps :
      (key : Text) (s : storage.store.State) (j : Text)
      → storage.store.container j (storage.unmount_container key s).1 ≡ storage.store.container j s
  pub bind_mount_keeps :
      (source target : Text) (options : List Text) (s : storage.store.State) (j : Text)
      → storage.store.container j (storage.bind_mount source target options s).1
        ≡ storage.store.container j s
  pub unmount_target_keeps :
      (target : Text) (s : storage.store.State) (j : Text)
      → storage.store.container j (storage.unmount_target target s).1 ≡ storage.store.container j s
  pub decode_law :
      (m : SnapshotMetadata)
      → (is_empty (storage.store.encode m) ≡ false)
        × ((u : Text) → named_by (storage.store.decode (storage.store.encode m)).1 u ≡ named_by m u)
  pub deep_equal_law :
      (v : MetadataValue) (o : Option MetadataValue)
      → storage.store.deep_equal v o ≡ true
      → (u : Text) → value_names o u ≡ value_names (some v) u
