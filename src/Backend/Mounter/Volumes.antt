-- ===== src/Backend/Mounter/Volumes.antt =====
-- `Mount` and `Unmount` of the mounter, on every outcome.
use container_image_csi_driv.Base.{◌≡◌, refl, Bool, true, false, [], inl, inr, is_empty, Bool-cases}
use container_image_csi_driv.Text.{Text, Text-eq}
use container_image_csi_driv.Exec.{Outcome, ok, err, crash, continue, require}
use container_image_csi_driv.Backend.Metadata.{create_snapshot_metadata}
use container_image_csi_driv.Backend.Runtime.{Named, ContainerRuntimeMounter, RuntimeLaws, Settles}
use container_image_csi_driv.Backend.Mounter.{
  SnapshotMounter, gen_snapshot_key, on_runtime, on_error, cleaned, undo_ref, after_cleanup,
  ref_ro_snapshot, mount_ro, mount,
}
use container_image_csi_driv.Backend.Mounter.Contract.{
  Ends, Ends-map, Unchanged, Referred, Unreferred, ref-Ends, unref-Ends,
}
use container_image_csi_driv.Backend.Mounter.Invariant.{
  Inv, Inv-Fresh, Unchanged-Inv, Referred-Inv, Released-Inv,
}
use container_image_csi_driv.Backend.Mounter.Rollback.{
  Restored, Unchanged-Restored, Referred-before, Referred-after, Inv-runtime, ref_release-Restored,
}

pub gen_snapshot_key-named : (parent : Text) → is_empty (gen_snapshot_key parent) ≡ false
unfolding gen_snapshot_key
gen_snapshot_key-named parent = refl

module _ {rt : ContainerRuntimeMounter} (laws : RuntimeLaws rt) where
  open laws use {recorded}

  -- A state that differs from `s` by nothing that the clients see, and is well formed.
  abbrev Kept : SnapshotMounter rt.State → SnapshotMounter rt.State → Type 0
  Kept s s' = Restored s s' × Inv laws s'

  module _ (target key : Text) (s : SnapshotMounter rt.State) (named : is_empty key ≡ false)
      (i : Inv laws s) where
    undone :
        (e : rt.Error) (s1 : SnapshotMounter rt.State)
        → Referred laws target key s s1
        → (u : Outcome rt.Error Bool × SnapshotMounter rt.State)
        → Ends (Unreferred laws target s1) (λ _ _. ⊥) u
        → let m = continue u.0 u.1 require in
          Ends {A = Unit {0}}
            (λ _. Referred laws target key s)
            (λ _. Kept s)
            (after_cleanup e m.0, m.1)
    undone e s1 f (ok true, s2) r = (
      ref_release-Restored laws target key s s1 s2 named i f r,
      Released-Inv laws target s1 s2 (Referred-Inv laws target key s s1 named i f) r,
    )
    undone e s1 f (ok false, s2) r = tt
    undone e s1 f (err e', s2) r = absurd r
    undone e s1 f (crash, s2) r = tt

    mounted :
        (s1 : SnapshotMounter rt.State)
        → Referred laws target key s s1
        → (m : Outcome rt.Error Unit × rt.State)
        → ((j : Text)
            → Settles m.0 (recorded m.1 j) (recorded s1.runtime j) (recorded s1.runtime j))
        → Ends
            (λ _. Referred laws target key s)
            (λ _. Kept s)
            (cleaned m.0 (record s1 { runtime = m.1 }) (undo_ref rt target))
    unfolding undo_ref
    mounted s1 f (ok _, r) law = Referred-after laws target key s s1 r law f
    mounted s1 f (err e, r) law =
        undone e (record s1 { runtime = r }) (Referred-after laws target key s s1 r law f) _
          (unref-Ends laws target (record s1 { runtime = r }))
    mounted s1 f (crash, r) law = tt

    referred :
        (f : Outcome rt.Error Unit × SnapshotMounter rt.State)
        → Ends (λ _. Referred laws target key s) (λ _. Unchanged laws s) f
        → Ends
            (λ _. Referred laws target key s)
            (λ _. Kept s)
            (continue f.0 f.1
              (λ _. on_error (on_runtime (rt.mount key target true)) (undo_ref rt target)))
    referred (ok _, s1) f =
        mounted s1 f (rt.mount key target true s1.runtime)
          (laws.mount_law key target true s1.runtime)
    referred (err e, s1) c = (Unchanged-Restored laws s s1 c, Unchanged-Inv laws s s1 c i)
    referred (crash, s1) c = tt

  -- The snapshot that a read-only mount of `image` takes, if the runtime gives an id.
  pub record Mounted (image : Named) (target : Text) (s s' : SnapshotMounter rt.State)
      : Type 0 where
    pub image_id : Text
    pub identified : (rt.get_image_id_or_die image s.runtime).0 ≡ ok image_id
    pub referred_by : Referred laws target (gen_snapshot_key image_id) s s'

  identified-Ends :
      (image : Named) (target : Text) (s : SnapshotMounter rt.State)
      → Inv laws s
      → (g : Outcome rt.Error Text × rt.State) → (rt.get_image_id_or_die image s.runtime).0 ≡ g.0
      → ((j : Text) → Settles g.0 (recorded g.1 j) (recorded s.runtime j) (recorded s.runtime j))
      → Ends
          (λ _. Mounted image target s)
          (λ _. Kept s)
          (continue g.0 (record s { runtime = g.1 }) (mount_ro rt target))
  unfolding mount_ro
  identified-Ends image target s i (ok image_id, r) e law = elim (Bool-cases (is_empty image_id)) [
    | inl nameless ↦ rw (nameless, mount_ro) tt
    | inr id ↦
        let s0 : SnapshotMounter rt.State = record s { runtime = r } in
        let key = gen_snapshot_key image_id in
        rw (id, mount_ro)
          (Ends-map {P = λ _. Referred laws target key s0} {P' = λ _. Mounted image target s}
            {Q = λ _. Kept s0} {Q' = λ _. Kept s} _
            (λ _ s' f. record {
              image_id = image_id;
              identified = e;
              referred_by = Referred-before laws target key s s' r law f;
            })
            (λ _ s' k. (record { keys = k.0.keys; sets = k.0.sets; kept = k.0.kept }, k.1))
            (referred target key s0 (gen_snapshot_key-named image_id)
              (Inv-runtime laws target key s s r law i)
              (ref_ro_snapshot rt target image_id key (create_snapshot_metadata target) s0)
              (ref-Ends laws target image_id key s0
                (Inv-Fresh laws key s0 (Inv-runtime laws target key s s r law i)))))
  ]
  identified-Ends image target s i (err _, r) e law = (
    record { keys = λ u. refl; sets = λ j u. refl; kept = λ j. refl },
    Inv-runtime laws [] [] s s r law i,
  )
  identified-Ends image target s i (crash, r) e law = tt

  -- Over a runtime that meets the laws that the mounter relies on, from a well-formed cache: a
  -- read-only mount that succeeds makes the target refer to the snapshot of the image and be
  -- counted with it; one that returns an error leaves the cache as it was and well formed.
  pub mount_ro-Ends :
      (volume_id target : Text) (image : Named) (s : SnapshotMounter rt.State)
      → Inv laws s
      → Ends (λ _. Mounted image target s) (λ _. Kept s) (mount rt volume_id target image true s)
  unfolding mount
  mount_ro-Ends volume_id target image s i =
      identified-Ends image target s i (rt.get_image_id_or_die image s.runtime) refl
        (laws.get_image_id_law image s.runtime)
