-- ===== src/Backend/Mounter/Restart/Samples.antt =====
-- A driver that starts with one snapshot, mounted at one of its two targets.
use container_image_csi_driv.Base.{
  ◌≡◌, refl, ap, Bool, true, false, List, [], ◌∷◌, some, some-injective, arith, nat_eq, subst,
}
use container_image_csi_driv.Text.{Text, Text-eq, text_eq, text_eq_iff}
use container_image_csi_driv.Dict.{get, put}
use container_image_csi_driv.Exec.{Outcome, ok}
use container_image_csi_driv.Backend.Metadata.{
  TargetSet, SnapshotMetadata, set_snapshot_key, build_snapshot_metadata, get_snapshot_key,
  get_targets,
}
use container_image_csi_driv.Backend.Runtime.{ContainerRuntimeMounter, RuntimeLaws}
use container_image_csi_driv.Backend.Mounter.Contract.{Ends}
use container_image_csi_driv.Backend.Mounter.Disk.{
  Disk, disk_runtime, shared_key, pod_a, pod_b, disk_mount, recorded_in, recorded-put,
  recorded-delete,
}
use container_image_csi_driv.Backend.Mounter.Restart.{build_snapshot_cache_or_die}
use container_image_csi_driv.Backend.Mounter.Restart.Loading.{Listed}
use container_image_csi_driv.Backend.Mounter.Restart.Rebuilt.{
  AllListed, Apart, Rest, Rebuilt, empty_cache, build_snapshot_cache-Rebuilt,
}

abbrev both : TargetSet
both = (pod_a, tt) ∷ (pod_b, tt) ∷ []

abbrev listed : SnapshotMetadata
listed = set_snapshot_key shared_key (build_snapshot_metadata both)

abbrev lister : ContainerRuntimeMounter
lister = record disk_runtime { list_snapshots = λ d. (ok (listed ∷ []), d) }

lister_laws : RuntimeLaws lister
unfolding disk_mount
lister_laws = record {
  recorded = λ d k. recorded_in (get k d.snapshots);
  present = λ d k. true;
  get_image_id_dies = λ i d e h. cc;
  destroy_present = λ k d h. refl;
  mount_law = λ k t ro d j. ground arith;
  unmount_law = λ t d j. refl;
  get_image_id_law = λ i d j. refl;
  prepare_read_only_law = λ i k m d unnamed j. recorded-put k j m d.snapshots;
  prepare_rw_law = λ i k d j. refl;
  update_law = λ k m d j. recorded-put k j m d.snapshots;
  destroy_law = λ k d j. recorded-delete k j d.snapshots;
}

abbrev only_a : Text → Bool
only_a target = text_eq target pod_a

abbrev disk : Disk
disk = record { snapshots = (shared_key, listed) ∷ []; broken = false }

-- The snapshot is mounted wherever something is.
abbrev owner : Text → Text
owner target = shared_key

abbrev ListedAs : Text → TargetSet → Type 0
ListedAs = Listed lister_laws only_a owner (empty_cache disk)

both-Listed : ListedAs shared_key both
unfolding get_targets set_snapshot_key build_snapshot_metadata get put text_eq lister_laws
both-Listed = record {
  once = (refl, (refl, tt));
  recorded_as = λ u. refl;
  owned = λ t listed_there there. refl;
}

listed-Listed :
    (k : Text) (ts : TargetSet)
    → get_snapshot_key listed ≡ some k
    → get_targets listed ≡ some ts
    → ListedAs k ts
unfolding get_snapshot_key get_targets set_snapshot_key build_snapshot_metadata get put
listed-Listed k ts e h =
    subst (ListedAs k) (some-injective both ts h)
      (subst (λ j. ListedAs j both) (some-injective shared_key k e) both-Listed)

listed-Rest : Rest lister_laws only_a owner (listed ∷ []) (empty_cache disk)
unfolding get get_snapshot_key set_snapshot_key build_snapshot_metadata put lister_laws
listed-Rest j u h (other, _) =
    ground (arith, text_eq_iff shared_key j, λ (e : shared_key ≡ j). other (ap some e))

abbrev listing_of : Outcome Text (List SnapshotMetadata) → List SnapshotMetadata
listing_of (ok snapshots) = snapshots
listing_of _ = []

listing_truthful :
    (snapshots : List SnapshotMetadata) (d : Disk)
    → lister.list_snapshots disk ≡ (ok snapshots, d)
    → Apart lister_laws only_a owner snapshots
      × AllListed lister_laws only_a owner (empty_cache d) snapshots
      × Rest lister_laws only_a owner snapshots (empty_cache d)
listing_truthful snapshots d e =
    let same : listed ∷ [] ≡ snapshots = ap (λ p. listing_of p.0) e in
    let same_disk : disk ≡ d = ap (λ p. p.1) e in
    subst
      (λ x.
        Apart lister_laws only_a owner snapshots
        × AllListed lister_laws only_a owner (empty_cache x) snapshots
        × Rest lister_laws only_a owner snapshots (empty_cache x))
      same_disk
      (subst
        (λ x.
          Apart lister_laws only_a owner x
          × AllListed lister_laws only_a owner (empty_cache disk) x
          × Rest lister_laws only_a owner x (empty_cache disk))
        same ((tt, tt), (listed-Listed, tt), listed-Rest))

build_snapshot_cache-Rebuilt_example :
    Ends
      (λ _. Rebuilt lister_laws only_a owner)
      (λ _ _. ⊥)
      (build_snapshot_cache_or_die lister only_a (empty_cache disk))
build_snapshot_cache-Rebuilt_example =
    build_snapshot_cache-Rebuilt lister_laws only_a owner disk listing_truthful
