-- ===== src/Backend/Mounter/Life.antt =====
-- Any number of calls of `Mount` and `Unmount`, one after the other, by volumes of any kind. The ids
-- of images are told apart from those of volumes, so that a volume's own snapshot never has the key
-- of a read-only one.
use container_image_csi_driv.Base.{
  ◌≡◌, ap, sym, subst, ◌∙◌, inl, inr, Bool, true, false, arith, ◌==◌, drop, Bool-cases,
}
use container_image_csi_driv.Text.{Text, Text-eq, text_eq_iff}
use container_image_csi_driv.Dict.{has}
use container_image_csi_driv.Exec.{Outcome, ok, err, crash}
use container_image_csi_driv.Backend.Runtime.{Named, ContainerRuntimeMounter, RuntimeLaws}
use container_image_csi_driv.Backend.Mounter.{SnapshotMounter, gen_snapshot_key, mount, unmount}
use container_image_csi_driv.Backend.Mounter.Contract.{Ends, Ends-map, Released}
use container_image_csi_driv.Backend.Mounter.Invariant.{Inv, Referred-Inv}
use container_image_csi_driv.Backend.Mounter.Rollback.{Restored}
use container_image_csi_driv.Backend.Mounter.Volumes.{
  gen_snapshot_key-named, Mounted, mount_ro-Ends,
}
use container_image_csi_driv.Backend.Mounter.Unmounting.{Untouched, Unmounted, unmount-Ends}
use container_image_csi_driv.Backend.Mounter.Sharing.{mount_rw-Ends}
use container_image_csi_driv.Backend.Mounter.Interleaving.{Lives}

gen_snapshot_key-injective : (a b : Text) → gen_snapshot_key a ≡ gen_snapshot_key b → a ≡ b
unfolding gen_snapshot_key
gen_snapshot_key-injective a b e = ap (drop 27) e

module _ {rt : ContainerRuntimeMounter} (laws : RuntimeLaws rt) (IsImage : Text → Type 0) where
  -- If the runtime gives an id to the image, it is one of an image.
  abbrev pub Identified : Named → rt.State → Type 0
  Identified image r = (id : Text) → (rt.get_image_id_or_die image r).0 ≡ ok id → IsImage id

  -- The key is that of an image.
  abbrev pub OfImage : Text → Type 0
  OfImage k = (id : Text) × IsImage id × (k ≡ gen_snapshot_key id)

  -- The cache is well formed, and its keys are those of images.
  pub record Good (s : SnapshotMounter rt.State) : Type 0 where
    pub inv : Inv laws s
    pub keys : (k : Text) → has k s.ro_snapshot_targets_map ≡ true → OfImage k

  separate :
      (volume_id : Text) (s : SnapshotMounter rt.State)
      → (IsImage volume_id → ⊥)
      → Good s
      → has (gen_snapshot_key volume_id) s.ro_snapshot_targets_map ≡ false
  separate volume_id s other g =
      elim (Bool-cases (has (gen_snapshot_key volume_id) s.ro_snapshot_targets_map)) [
        | inl there ↦
            let (id, is_image, e) = g.keys (gen_snapshot_key volume_id) there in
            absurd
              (other (subst IsImage (sym (gen_snapshot_key-injective volume_id id e)) is_image))
        | inr absent ↦ absent
      ]

  Mounted-Good :
      (image : Named) (target : Text) (s s' : SnapshotMounter rt.State)
      → Identified image s.runtime
      → Good s
      → Mounted laws image target s s'
      → Good s'
  Mounted-Good image target s s' identified g m =
      let key = gen_snapshot_key m.image_id in
      record {
        inv =
            Referred-Inv laws target key s s' (gen_snapshot_key-named m.image_id) g.inv
              m.referred_by;
        keys = λ k there. elim (Bool-cases (key == k)) [
          | inl same ↦
              (m.image_id, identified m.image_id m.identified, sym ((text_eq_iff key k).0 same))
          | inr other ↦ g.keys k (ground (arith, m.referred_by.sets k))
        ];
      }

  Restored-Good : (s s' : SnapshotMounter rt.State) → Good s → Restored s s' × Inv laws s' → Good s'
  Restored-Good s s' g (r, i) = record {
    inv = i;
    keys = λ k there. g.keys k (sym (r.kept k) ∙ there);
  }

  Untouched-Good : (s s' : SnapshotMounter rt.State) → Good s → Untouched laws s s' → Good s'
  Untouched-Good s s' g (c, i) = record {
    inv = i;
    keys = λ k there. g.keys k (ground (arith, c.sets));
  }

  mount-Good :
      (volume_id target : Text) (image : Named) (ro : Bool) (s : SnapshotMounter rt.State)
      → (IsImage volume_id → ⊥)
      → Identified image s.runtime
      → Good s
      → Ends (λ _. Good) (λ _. Good) (mount rt volume_id target image ro s)
  mount-Good volume_id target image true s other identified g =
      Ends-map {P = λ _. Mounted laws image target s} {P' = λ _. Good}
        {Q = λ _ s'. Restored s s' × Inv laws s'} {Q' = λ _. Good} _
        (λ _ s' m. Mounted-Good image target s s' identified g m) (λ _ s' k. Restored-Good s s' g k)
        (mount_ro-Ends laws volume_id target image s g.inv)
  mount-Good volume_id target image false s other identified g =
      Ends-map {P = λ _. Untouched laws s} {P' = λ _. Good} {Q = λ _. Untouched laws s}
        {Q' = λ _. Good} _ (λ _ s' k. Untouched-Good s s' g k) (λ _ s' k. Untouched-Good s s' g k)
        (mount_rw-Ends laws volume_id target s g.inv (separate volume_id s other g) image)

  Released-key :
      (target : Text) (s s' : SnapshotMounter rt.State) (k : Text)
      → Released laws target s s'
      → has k s'.ro_snapshot_targets_map ≡ true
      → has k s.ro_snapshot_targets_map ≡ true
  Released-key target s s' k r there = ground (arith, r.sets k)

  Unmounted-Good :
      (target : Text) (s s' : SnapshotMounter rt.State)
      → Good s
      → Unmounted laws target s s' × Inv laws s'
      → Good s'
  Unmounted-Good target s s' g (inl (free, c), i) = Untouched-Good s s' g (c, i)
  Unmounted-Good target s s' g (inr r, i) = record {
    inv = i;
    keys = λ k there. g.keys k (Released-key target s s' k r there);
  }

  unmount-Good :
      (volume_id target : Text) (s : SnapshotMounter rt.State)
      → (IsImage volume_id → ⊥)
      → Good s
      → Ends (λ _. Good) (λ _. Good) (unmount rt volume_id target s)
  unmount-Good volume_id target s other g =
      Ends-map {P = λ _ s'. Unmounted laws target s s' × Inv laws s'} {P' = λ _. Good}
        {Q = λ _. Untouched laws s} {Q' = λ _. Good} _ (λ _ s' k. Unmounted-Good target s s' g k)
        (λ _ s' k. Untouched-Good s s' g k)
        (unmount-Ends laws volume_id target s g.inv (λ _. separate volume_id s other g))

  -- Calls of `Mount` and `Unmount` that succeed or return an error, by volumes whose ids are not
  -- those of images.
  pub data Calls (s : SnapshotMounter rt.State) : SnapshotMounter rt.State → Type 0 where
    no_calls : Calls s s
    mounts :
        {t u : SnapshotMounter rt.State}
        → Calls s t
        → (volume_id target : Text) (image : Named) (ro : Bool) (o : Outcome rt.Error Unit)
        → (IsImage volume_id → ⊥)
        → Identified image t.runtime
        → mount rt volume_id target image ro t ≡ (o, u)
        → Lives o
        → Calls s u
    unmounts :
        {t u : SnapshotMounter rt.State}
        → Calls s t
        → (volume_id target : Text) (o : Outcome rt.Error Unit) → (IsImage volume_id → ⊥)
        → unmount rt volume_id target t ≡ (o, u)
        → Lives o
        → Calls s u

  Lives-Good :
      (o : Outcome rt.Error Unit) (s : SnapshotMounter rt.State)
      → Lives o
      → Ends {A = Unit {0}} (λ _. Good) (λ _. Good) (o, s)
      → Good s
  Lives-Good (ok a) s l g = g
  Lives-Good (err e) s l g = g
  Lives-Good crash s l g = absurd l

  -- Over a runtime that meets the laws that the mounter relies on: from a well-formed cache whose
  -- keys are those of images, any number of mounts and unmounts of read-only and read-write
  -- volumes, one after the other, successful or with an error, leads to such a cache again, where
  -- no volume's id is that of an image and each id that the runtime gives to an image that is
  -- mounted is one.
  pub Calls-Good : {s s' : SnapshotMounter rt.State} → Good s → Calls s s' → Good s'
  Calls-Good g no_calls = g
  Calls-Good {s} {s'} g (mounts {t} calls volume_id target image ro o other identified e l) =
      Lives-Good o s' l
        (rw e at (mount-Good volume_id target image ro t other identified (Calls-Good g calls)))
  Calls-Good {s} {s'} g (unmounts {t} calls volume_id target o other e l) =
      Lives-Good o s' l (rw e at (unmount-Good volume_id target t other (Calls-Good g calls)))
