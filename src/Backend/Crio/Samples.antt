-- ===== src/Backend/Crio/Samples.antt =====
-- Stores of containers: a read-only snapshot that is prepared twice, and a list of snapshots.
use container_image_csi_driv.Base.{
  List, ◌∷◌, drop, All, ◌≡◌, ◌∙◌, refl, true, false, not, [], none, some, is_empty,
}
use container_image_csi_driv.Text.{Text, Text-eq, codes}
use container_image_csi_driv.Dict.{Dict, get, put, get-put}
use container_image_csi_driv.Exec.{ok, err}
use container_image_csi_driv.Backend.Metadata.{
  SnapshotMetadata, TargetSet, create_snapshot_metadata, targets_in, metadata_key_targets, object,
  get_targets,
}
use container_image_csi_driv.Backend.Crio.{
  Container, ImageStore, unknown_metadata, prepare_snapshot, list_containers,
}
use container_image_csi_driv.Backend.Crio.Listed.{
  Prepared, Readable, Listed, containers_of, list_containers-Listed,
}
use container_image_csi_driv.Backend.Crio.Again.{Creates, Decodes, prepare_again}

abbrev store : ImageStore
store = record {
  State = Dict Text Container;
  Error = Unit;
  container = get;
  create_container = λ key image meta ro s.
      (ok tt, put key (record { id = key; image_id = image; metadata = meta }) s);
  encode = λ m. codes "{}";
  decode = λ t. (not (is_empty t), []);
  deep_equal = λ v w. false;
}

store-Creates : Creates store
store-Creates key image meta ro s h =
    let c : Container = record { id = key; image_id = image; metadata = meta } in
    get-put key key c s ∙ rw ((Text-eq.matches_iff key key).1 refl) refl

store-Decodes : Decodes store
store-Decodes m = (refl, refl)

abbrev target_metadata : SnapshotMetadata
target_metadata = create_snapshot_metadata (codes "/pods/a")

absent : store.container (codes "k") [] ≡ none
unfolding get
absent = refl

prepared : (prepare_snapshot store (codes "i") (codes "k") (some target_metadata) true []).0 ≡ ok tt
unfolding prepare_snapshot get
prepared = refl

prepare_again_example :
    let s' = (prepare_snapshot store (codes "i") (codes "k") (some target_metadata) true []).1 in
    prepare_snapshot store (codes "i") (codes "k") (some target_metadata) true s'
    ≡ (err unknown_metadata, s')
prepare_again_example =
    prepare_again store store-Creates store-Decodes (codes "i") (codes "k") (some target_metadata)
      true [] absent prepared

abbrev first : TargetSet → Text
first [] = []
first ((t, _) ∷ ts) = t

-- An encoding for metadata with one target.
abbrev one_target : ImageStore
one_target = record store {
  encode = λ m. b'{' ∷ first (targets_in (some m));
  decode = λ t. (true, (metadata_key_targets, object (drop 1 t ∷ [])) ∷ []);
}

abbrev two_prepared : List Prepared
two_prepared =
    (codes "a", codes "i", some (create_snapshot_metadata (codes "/pods/a")))
    ∷ (codes "b", codes "i", none)
    ∷ []

two_prepared-Readable : All (Readable one_target) two_prepared
unfolding create_snapshot_metadata get_targets get put
two_prepared-Readable = ((refl, refl, (_, refl), λ u. refl), (tt, tt))

list_containers-Listed_example :
    (ns : List SnapshotMetadata) × (list_containers one_target
        (containers_of one_target two_prepared)
      ≡ some ns)
    × Listed one_target two_prepared ns
list_containers-Listed_example =
    list_containers-Listed one_target two_prepared two_prepared-Readable
