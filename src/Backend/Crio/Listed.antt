-- ===== src/Backend/Crio/Listed.antt =====
-- What the list of snapshots reads back from the containers that the driver created.
use container_image_csi_driv.Base.{
  ◌≡◌, ◌∙◌, refl, ap, true, false, List, [], ◌∷◌, Option, none, some, is_empty, All, nat_eq,
}
use container_image_csi_driv.Text.{Text, Text-eq}
use container_image_csi_driv.Dict.{has, get-put}
use container_image_csi_driv.Backend.Metadata.{
  SnapshotMetadata, TargetSet, snapshot_key, set_snapshot_key, get_snapshot_key, get_targets,
  targets_in,
}
use container_image_csi_driv.Backend.Crio.{
  Container, ImageStore, meta_string, list_container, list_containers,
}

-- The key, the image and the metadata of a snapshot.
abbrev pub Prepared : Type 0
Prepared = Text × Text × Option SnapshotMetadata

abbrev pub SameTargets : SnapshotMetadata → SnapshotMetadata → Type 0
SameTargets n m = (u : Text) → has u (targets_in (some n)) ≡ has u (targets_in (some m))

get_snapshot_key-set :
    (key : Text) (m : SnapshotMetadata) → get_snapshot_key (set_snapshot_key key m) ≡ some key
unfolding get_snapshot_key set_snapshot_key
get_snapshot_key-set key m = rw (get-put 0 0 (snapshot_key key) m) refl

get_targets-set :
    (key : Text) (m : SnapshotMetadata) → get_targets (set_snapshot_key key m) ≡ get_targets m
unfolding get_targets set_snapshot_key
get_targets-set key m = rw (get-put 0 1 (snapshot_key key) m) refl

set-SameTargets :
    (key : Text) (n m : SnapshotMetadata) → SameTargets n m → SameTargets (set_snapshot_key key n) m
set-SameTargets key n m h u =
    ap (λ ts. has u (elim ts [ none ↦ [] | some found ↦ found ])) (get_targets-set key n) ∙ h u

module _ (store : ImageStore) where
  abbrev pub container_of : Prepared → Container
  container_of (key, image, metadata) = record {
    id = key;
    image_id = image;
    metadata = meta_string store metadata;
  }

  abbrev pub containers_of : List Prepared → List Container
  containers_of [] = []
  containers_of (p ∷ ps) = container_of p ∷ containers_of ps

  -- What was encoded is not empty, and decodes to metadata with targets, those that it had.
  abbrev pub Readable : Prepared → Type 0
  Readable (key, image, none) = Unit
  Readable (key, image, some m) =
      (is_empty (store.encode m) ≡ false)
      × ((store.decode (store.encode m)).0 ≡ true)
      × ((ts : TargetSet) × (get_targets (store.decode (store.encode m)).1 ≡ some ts))
      × SameTargets (store.decode (store.encode m)).1 m

  -- The list has the key and the targets of each snapshot that has metadata, in their order.
  abbrev pub Listed : List Prepared → List SnapshotMetadata → Type 0
  Listed [] [] = Unit
  Listed [] (n ∷ ns) = ⊥
  Listed ((key, image, none) ∷ ps) ns = Listed ps ns
  Listed ((key, image, some m) ∷ ps) [] = ⊥
  Listed ((key, image, some m) ∷ ps) (n ∷ ns) =
      (get_snapshot_key n ≡ some key) × SameTargets n m × Listed ps ns

  -- From the containers of prepared snapshots whose metadata can be decoded with its targets, the
  -- list is made without a panic, and reads back, in their order, the keys and the targets of those
  -- that have metadata; the others are left out.
  pub list_containers-Listed :
      (ps : List Prepared)
      → All Readable ps
      → (ns : List SnapshotMetadata) × (list_containers store (containers_of ps) ≡ some ns)
        × Listed ps ns
  unfolding list_containers list_container
  list_containers-Listed [] h = ([], refl, tt)
  list_containers-Listed ((key, image, none) ∷ ps) h = list_containers-Listed ps h.1
  list_containers-Listed ((key, image, some m) ∷ ps) ((full, decodes, (ts, targets), same), h) =
      let n = (store.decode (store.encode m)).1 in
      let (ns, listed, l) = list_containers-Listed ps h in
      (
        set_snapshot_key key n ∷ ns,
        rw (list_containers, list_container, full, decodes, get_targets-set key n, targets, listed)
            refl,
        (get_snapshot_key-set key n, set-SameTargets key n m same, l),
      )
