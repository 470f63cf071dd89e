-- ===== src/Backend/Crio/Service/Refinement.antt =====
-- The runtime over CRI-O's storage meets the laws that the mounter relies on.
use container_image_csi_driv.Base.{
  ◌≡◌, refl, subst, ap, ◌∙◌, Bool, true, Option, none, some, ◌==◌, if◌then◌else◌, is_some, ◌≢◌,
  Bool-cases, inl, inr, nat_eq,
}
use container_image_csi_driv.Text.{Text, Text-eq, text_eq, text_eq_iff}
use container_image_csi_driv.Exec.{Outcome, ok, err, crash, continue}
use container_image_csi_driv.Backend.Metadata.{SnapshotMetadata, named_by}
use container_image_csi_driv.Backend.Runtime.{Named, RuntimeLaws, Settles, no_targets}
use container_image_csi_driv.Backend.Runtime.Leaves.{Leaves, bind-Leaves, Settles-same}
use container_image_csi_driv.Backend.Crio.{Container, CrioError, failure}
use container_image_csi_driv.Backend.Crio.Again.{failure-ok}
use container_image_csi_driv.Backend.Crio.Service.{
  Storage, or_error, fatal_failure, logged, mount_opts, mount_snapshot, get_image_id_or_die,
  update_snapshot_metadata, destroy_snapshot, crio_runtime,
}
use container_image_csi_driv.Backend.Crio.Service.Laws.{StorageLaws, with_metadata, recorded_in}
use container_image_csi_driv.Backend.Crio.Service.Preparing.{
  recorded, put-Settles, encoded-recorded, prepare_ro-Settles, prepare_rw-Settles,
}

module _ {storage : Storage} (laws : StorageLaws storage) where
  open storage use {store}

  mount-Leaves :
      (key target : Text) (ro : Bool) (j : Text)
      → Leaves (λ s. recorded laws s j) (mount_snapshot storage key target ro)
  unfolding mount_snapshot
  mount-Leaves key target ro j =
      bind-Leaves (λ s. recorded laws s j) (or_error storage (storage.mount_container key))
        (λ src. or_error storage (storage.bind_mount src target (mount_opts ro)))
        (λ s. ap (recorded_in store) (laws.mount_container_keeps key s j))
        (λ src s. ap (recorded_in store) (laws.bind_mount_keeps src target (mount_opts ro) s j))

  with_metadata-recorded :
      (key : Text) (m : SnapshotMetadata) (o : Option Container)
      → is_some o ≡ true
      → (o' : Option Container) → o' ≡ with_metadata (store.encode m) o
      → recorded_in store o' ≡ named_by m
  with_metadata-recorded key m none known o' e = absurd cc
  with_metadata-recorded key m (some c) known o' e =
      ap (recorded_in store) e ∙ encoded-recorded laws c.id c.image_id m

  set-Settles :
      (key : Text) (m : SnapshotMetadata) (s : store.State) (j : Text)
      (o : Outcome store.Error Unit) (r : store.State)
      → (o ≡ ok tt → is_some (store.container key s) ≡ true)
      → Settles o
          (store.container j r)
          (if key == j
            then with_metadata (store.encode m) (store.container j s)
            else store.container j s)
          (store.container j s)
      → Settles
          (failure o)
          (recorded laws r j)
          (if key == j then named_by m else recorded laws s j)
          (recorded laws s j)
  set-Settles key m s j (ok tt) r known law = elim (Bool-cases (text_eq key j)) [
    | inr other ↦ rw other (ap (recorded_in store) (rw other at law))
    | inl here ↦ rw here (
        with_metadata-recorded key m (store.container j s)
          (rw ((text_eq_iff key j).0 here) at (known refl)) (store.container j r) (rw here at law))
  ]
  set-Settles key m s j (err e) r known law = ap (recorded_in store) law
  set-Settles key m s j crash r known law = tt

  update-Settles :
      (key : Text) (m : SnapshotMetadata) (s : store.State) (j : Text)
      → let r = update_snapshot_metadata storage key m s in
        Settles r.0
          (recorded laws r.1 j)
          (if key == j then named_by m else recorded laws s j)
          (recorded laws s j)
  unfolding update_snapshot_metadata
  update-Settles key m s j =
      let r = storage.set_metadata key (store.encode m) s in
      set-Settles key m s j r.0 r.1 (laws.set_metadata_known key (store.encode m) s)
        (laws.set_metadata_law key (store.encode m) s j)

  deleted-Settles :
      (key : Text) (s : store.State) (j : Text) (s' : store.State)
      → store.container j s' ≡ store.container j s
      → let r = storage.delete_container key s' in
        Settles
          (failure r.0)
          (recorded laws r.1 j)
          (if key == j then no_targets else recorded laws s j)
          (recorded laws s j)
  deleted-Settles key s j s' keeps =
      let r = storage.delete_container key s' in
      subst
        (λ set.
          Settles (failure r.0) (recorded laws r.1 j) (if key == j then no_targets else set) set)
        (ap (recorded_in store) keeps)
        (put-Settles laws r.0 r.1 s' key none no_targets j refl (laws.delete_law key s' j))

  destroy-Settles :
      (key : Text) (s : store.State) (j : Text) (o : Outcome store.Error Bool) (s' : store.State)
      → ((k : Text) → store.container k s' ≡ store.container k s)
      → let r = continue (logged o) s' (λ _. or_error storage (storage.delete_container key)) in
        Settles r.0
          (recorded laws r.1 j)
          (if key == j then no_targets else recorded laws s j)
          (recorded laws s j)
  destroy-Settles key s j (ok a) s' keeps = deleted-Settles key s j s' (keeps j)
  destroy-Settles key s j (err e) s' keeps = deleted-Settles key s j s' (keeps j)
  destroy-Settles key s j crash s' keeps = tt

  destroyed-Settles :
      (key : Text) (s : store.State) (j : Text)
      → let r = destroy_snapshot storage key s in
        Settles r.0
          (recorded laws r.1 j)
          (if key == j then no_targets else recorded laws s j)
          (recorded laws s j)
  unfolding destroy_snapshot
  destroyed-Settles key s j =
      let r = storage.unmount_container key s in
      destroy-Settles key s j r.0 r.1 (laws.unmount_container_keeps key s)

  image-Settles :
      (image : Named) (s : store.State) (j : Text)
      → let r = get_image_id_or_die storage image s in
        Settles r.0 (recorded laws r.1 j) (recorded laws s j) (recorded laws s j)
  unfolding get_image_id_or_die
  image-Settles image s j =
      Settles-same (fatal_failure (storage.image image.string s).0)
        (ap (recorded_in store) (laws.image_keeps image.string s j))

  image-dies :
      (image : Named) (s : store.State) (e : CrioError store.Error)
      → (get_image_id_or_die storage image s).0 ≢ err e
  unfolding get_image_id_or_die
  image-dies image s e = dies (storage.image image.string s).0
    where
      dies : (o : Outcome store.Error Text) → fatal_failure o ≢ err e
      dies (ok a) h = cc
      dies (err x) h = cc
      dies crash h = cc

  deleted-present :
      (key : Text) (o : Outcome store.Error Bool) (s' : store.State)
      → (continue (logged o) s' (λ _. or_error storage (storage.delete_container key))).0 ≡ ok tt
      → is_some (store.container key s') ≡ true
  deleted-present key (ok a) s' h = laws.delete_known key s' (failure-ok _ h)
  deleted-present key (err e) s' h = laws.delete_known key s' (failure-ok _ h)
  deleted-present key crash s' h = absurd cc

  destroy-present :
      (key : Text) (s : store.State)
      → (destroy_snapshot storage key s).0 ≡ ok tt
      → is_some (store.container key s) ≡ true
  unfolding destroy_snapshot
  destroy-present key s h =
      let r = storage.unmount_container key s in
      subst (λ o. is_some o ≡ true) (laws.unmount_container_keeps key s key)
        (deleted-present key r.0 r.1 h)

  pub crio_laws : RuntimeLaws (crio_runtime storage)
  crio_laws = record {
    recorded = recorded laws;
    present = λ s k. is_some (store.container k s);
    get_image_id_dies = image-dies;
    destroy_present = destroy-present;
    mount_law = λ key target ro s j.
        Settles-same (mount_snapshot storage key target ro s).0 (mount-Leaves key target ro j s);
    unmount_law = λ target s j.
        Settles-same (or_error storage (storage.unmount_target target) s).0
          (ap (recorded_in store) (laws.unmount_target_keeps target s j));
    get_image_id_law = image-Settles;
    prepare_read_only_law = prepare_ro-Settles laws;
    prepare_rw_law = prepare_rw-Settles laws;
    update_law = update-Settles;
    destroy_law = destroyed-Settles;
  }

  -- Over a storage that keeps its promises, the runtime meets the laws that the mounter relies on, with
  -- the targets in the metadata of each container as what is recorded, and the containers as the snapshots that are
  -- present.
  pub crio-Refines :
      (met : RuntimeLaws (crio_runtime storage)) × ((s : store.State) (j : Text)
        → (met.recorded s j ≡ recorded_in store (store.container j s))
          × (met.present s j ≡ is_some (store.container j s)))
  unfolding crio_laws
  crio-Refines = (crio_laws, λ s j. (refl, refl))
