-- ===== src/Backend/Crio/Again.antt =====
-- The preparation of a snapshot that is there already.
use container_image_csi_driv.Base.{◌≡◌, ◌∙◌, refl, Bool, true, false, Option, none, some, is_empty}
use container_image_csi_driv.Text.{Text, Text-eq, text_eq_iff}
use container_image_csi_driv.Exec.{Outcome, ok, err, crash}
use container_image_csi_driv.Backend.Metadata.{SnapshotMetadata}
use container_image_csi_driv.Backend.Crio.{
  Container, ImageStore, CrioError, unknown_metadata, meta_string, check_container, failure,
  prepare_snapshot,
}

pub failure-ok : {E : Type 0} (o : Outcome E Unit) → failure o ≡ ok tt → o ≡ ok tt
failure-ok (ok tt) h = refl
failure-ok (err e) h = cc
failure-ok crash h = cc

-- A container that was created is found, with its image and its metadata.
abbrev pub Creates : ImageStore → Type 0
Creates store =
    (key image meta : Text) (ro : Bool) (s : store.State)
    → (store.create_container key image meta ro s).0 ≡ ok tt
    → store.container key (store.create_container key image meta ro s).1
      ≡ some (record { id = key; image_id = image; metadata = meta })

-- What was encoded is not empty and can be decoded.
abbrev pub Decodes : ImageStore → Type 0
Decodes store =
    (m : SnapshotMetadata)
    → (is_empty (store.encode m) ≡ false) × ((store.decode (store.encode m)).0 ≡ true)

module _ (store : ImageStore) (creates : Creates store) (decodes : Decodes store) where
  abbrev pub second : Option SnapshotMetadata → Outcome (CrioError store.Error) Unit
  second none = ok tt
  second (some _) = err unknown_metadata

  check-own :
      (key image : Text) (metadata : Option SnapshotMetadata)
      → check_container store image metadata
          (record { id = key; image_id = image; metadata = meta_string store metadata })
        ≡ second metadata
  unfolding check_container
  check-own key image none = rw ((text_eq_iff image image).1 refl) refl
  check-own key image (some m) =
      rw ((text_eq_iff image image).1 refl, (decodes m).0, (decodes m).1) refl

  prepare-absent :
      (image key : Text) (metadata : Option SnapshotMetadata) (ro : Bool) (s : store.State)
      → store.container key s ≡ none
      → let r = store.create_container key image (meta_string store metadata) ro s in
        prepare_snapshot store image key metadata ro s ≡ (failure r.0, r.1)
  unfolding prepare_snapshot
  prepare-absent image key metadata ro s h = rw (h, prepare_snapshot) refl

  prepare-present :
      (image key : Text) (metadata : Option SnapshotMetadata) (ro : Bool) (s : store.State)
      (c : Container)
      → store.container key s ≡ some c
      → prepare_snapshot store image key metadata ro s ≡ (check_container store image metadata c, s)
  unfolding prepare_snapshot
  prepare-present image key metadata ro s c h = rw (h, prepare_snapshot) refl

  -- Once a snapshot was created, a second preparation with the same arguments changes nothing. It
  -- succeeds without metadata, as for a read-write snapshot; with metadata, as for a read-only one,
  -- it is refused as having unknown metadata, although that metadata is what the first one wrote.
  pub prepare_again :
      (image key : Text) (metadata : Option SnapshotMetadata) (ro : Bool) (s : store.State)
      → store.container key s ≡ none
      → (prepare_snapshot store image key metadata ro s).0 ≡ ok tt
      → let s' = (prepare_snapshot store image key metadata ro s).1 in
        prepare_snapshot store image key metadata ro s' ≡ (second metadata, s')
  prepare_again image key metadata ro s absent =
      rw (prepare-absent image key metadata ro s absent) (λ h.
        prepare-present image key metadata ro _ _
          (creates key image (meta_string store metadata) ro s (failure-ok _ h))
        ∙ rw (check-own key image metadata) refl)
