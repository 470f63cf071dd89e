-- ===== src/Backend/Containerd/Service/Refinement.antt =====
-- The runtime over containerd meets the laws that the mounter relies on.
use mathlib.Core.Path.{fun_ext}
use container_image_csi_driv.Base.{
  ◌≡◌, refl, sym, subst, ap, ◌∙◌, Bool, not, ◌&&◌, Option, none, some, ◌==◌, if◌then◌else◌,
  is_empty, is_some, ◌≢◌, Bool-cases, inl, inr,
}
use container_image_csi_driv.Text.{Text, Text-eq}
use container_image_csi_driv.Exec.{Exec, Outcome, ok, err, crash, continue}
use container_image_csi_driv.Backend.Metadata.{TargetSet, SnapshotMetadata, get_targets, named_by}
use container_image_csi_driv.Backend.Runtime.{Named, RuntimeLaws, Settles, no_targets}
use container_image_csi_driv.Backend.Runtime.Leaves.{Settles-same}
use container_image_csi_driv.Backend.Containerd.{Info, update_labels}
use container_image_csi_driv.Backend.Containerd.Service.{
  Service, fatal_on_err, updated, update_snapshot_metadata, mount_snapshot, get_image_id_or_die,
  containerd_runtime,
}
use container_image_csi_driv.Backend.Containerd.Service.Laws.{
  ServiceLaws, recorded, put-Settles, named_by-some,
}
use container_image_csi_driv.Backend.Containerd.Service.Leaves.{mount-Leaves, image-Leaves}
use container_image_csi_driv.Backend.Containerd.Service.Preparing.{
  prepare_ro-Settles, prepare_rw-Settles,
}
use container_image_csi_driv.Backend.Containerd.Targets.{recorded_of, labelled-update}

module _ {service : Service} (laws : ServiceLaws service) where
  open service use {State, stat}
  open laws use {info}

  module _ (key : Text) (m : SnapshotMetadata) (s : State) (j : Text) where
    abbrev renamed : Text → Bool
    renamed = if key == j then named_by m else recorded laws s j

    stated-Settles :
        (o : Outcome Text Info) (s' : State)
        → ((i : Info) → o ≡ ok i → i.name ≡ key)
        → ((k : Text) → info s' k ≡ info s k)
        → (found : Option TargetSet) → get_targets m ≡ found
        → let r = continue o s' (updated service m) in
          Settles r.0 (recorded laws r.1 j) renamed (recorded laws s j)
    unfolding updated
    stated-Settles (ok i) s' is_key keeps none e = rw e tt
    stated-Settles (ok i) s' is_key keeps (some ts) e =
        rw e (elim (Bool-cases (not (is_empty i.labels && not (is_empty ts)))) [
          | inr nil_map ↦ rw nil_map tt
          | inl writable ↦ rw writable (
              let i' : Info = record i { labels = update_labels i.labels ts } in
              let r = service.update i' s' in
              put-Settles laws r.0 r.1 s' s key (some i') (named_by m) j
                (fun_ext λ u. labelled-update u i.labels ts ∙ sym (named_by-some laws m ts u e))
                (keeps j)
                (subst
                  (λ k.
                    Settles r.0 (info r.1 j) (if k == j then some i' else info s' j) (info s' j))
                  (is_key i refl) (laws.update_law i' s' j)))
        ])
    stated-Settles (err x) s' is_key keeps found e = ap recorded_of (keeps j)
    stated-Settles crash s' is_key keeps found e = tt

    pub update-Settles :
        let r = update_snapshot_metadata service key m s in
        Settles r.0 (recorded laws r.1 j) renamed (recorded laws s j)
    unfolding update_snapshot_metadata
    update-Settles =
        stated-Settles (stat key s).0 (stat key s).1 (λ i e. (laws.stat_law key s i e).1)
          (laws.stat_keeps key s) (get_targets m) refl

  fatal-dies : {A : Type 0} (o : Outcome Text A) (e : Text) → fatal_on_err o ≢ err e
  fatal-dies (ok a) e h = cc
  fatal-dies (err x) e h = cc
  fatal-dies crash e h = cc

  continue-dies :
      {A B : Type 0} (o : Outcome Text A) (s : State) (f : A → Exec State Text B) (e : Text)
      → ((x : Text) → o ≢ err x)
      → ((a : A) → (f a s).0 ≢ err e)
      → (continue o s f).0 ≢ err e
  continue-dies (ok a) s f e h k = k a
  continue-dies (err x) s f e h k = absurd (h x refl)
  continue-dies crash s f e h k = λ l. cc

  pub image-dies :
      (image : Named) (s : State) (e : Text) → (get_image_id_or_die service image s).0 ≢ err e
  unfolding get_image_id_or_die
  image-dies image s e =
      continue-dies _ _ _ e (fatal-dies (service.get_image image.string s).0) λ i.
        continue-dies _ _ _ e (fatal-dies (service.unpack i (service.get_image image.string s).1).0)
          λ _. fatal-dies _ e

  unfoldable pub containerd_laws : RuntimeLaws (containerd_runtime service)
  containerd_laws = record {
    recorded = recorded laws;
    present = λ s k. is_some (info s k);
    get_image_id_dies = image-dies;
    destroy_present = laws.remove_known;
    mount_law = λ key target ro s j.
        Settles-same (mount_snapshot service key target s).0 (mount-Leaves laws key target j s);
    unmount_law = λ target s j.
        Settles-same (service.host.umount target s).0
          (ap recorded_of (laws.umount_keeps target s j));
    get_image_id_law = λ image s j.
        Settles-same (get_image_id_or_die service image s).0 (image-Leaves laws image j s);
    prepare_read_only_law = λ image_id key m s unnamed j.
        prepare_ro-Settles laws image_id key m s unnamed j (get_targets m) refl;
    prepare_rw_law = prepare_rw-Settles laws;
    update_law = update-Settles;
    destroy_law = λ key s j.
        let r = service.remove key s in
        put-Settles laws r.0 r.1 s s key none no_targets j refl refl (laws.remove_law key s j);
  }

  -- Over a containerd that keeps the promises of its interfaces, the runtime meets the laws that the
  -- mounter relies on, with the targets that the labels of each snapshot name as what is recorded, and the snapshots of
  -- its table as those that are present.
  pub containerd-Refines :
      (met : RuntimeLaws (containerd_runtime service)) × ((s : State) (j : Text)
        → (met.recorded s j ≡ recorded_of (info s j)) × (met.present s j ≡ is_some (info s j)))
  unfolding containerd_laws
  containerd-Refines = (containerd_laws, λ s j. (refl, refl))
