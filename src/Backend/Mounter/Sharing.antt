-- ===== src/Backend/Mounter/Sharing.antt =====
-- The properties of `Mount` and `Unmount` that the volumes of a node rely on.
use container_image_csi_driv.Base.{
  ◌≡◌, refl, subst, ◌∙◌, ◌≢◌, Bool, true, false, [], none, inl, inr, arith, is_empty,
}
use container_image_csi_driv.Text.{Text, Text-eq, text_eq_iff}
use container_image_csi_driv.Dict.{has, get-nil}
use container_image_csi_driv.Exec.{Outcome, ok, err, crash, continue}
use container_image_csi_driv.Backend.Runtime.{Named, ContainerRuntimeMounter, RuntimeLaws, Settles}
use container_image_csi_driv.Backend.Mounter.{
  SnapshotMounter, gen_snapshot_key, key_of, on_runtime, on_error, cleaned, after_cleanup, mount_rw,
  mount, unmount,
}
use container_image_csi_driv.Backend.Mounter.Contract.{Ends, Ends-map, names}
use container_image_csi_driv.Backend.Mounter.Invariant.{Inv, Referred-Inv}
use container_image_csi_driv.Backend.Mounter.Rollback.{
  Restored, SameRecords, Inv-runtime, ref_release-Restored,
}
use container_image_csi_driv.Backend.Mounter.Volumes.{
  gen_snapshot_key-named, Mounted, mount_ro-Ends,
}
use container_image_csi_driv.Backend.Mounter.Unmounting.{
  SameCache, Untouched, destroyed-Untouched, Unmounted, IsSeparate, unmount-Ends,
}

module _ {rt : ContainerRuntimeMounter} (laws : RuntimeLaws rt) where
  open laws use {recorded}

  -- The outcome of a clean-up is dropped, seen from a state with the same maps.
  after_cleanup-Ends :
      (s : SnapshotMounter rt.State) (r : rt.State) (e : rt.Error)
      (d : Outcome rt.Error Unit × SnapshotMounter rt.State)
      → let same = Untouched laws (record s { runtime = r }) in
        Ends (λ _. same) (λ _. same) d
        → Ends {A = Unit {0}}
            (λ _. Untouched laws s)
            (λ _. Untouched laws s)
            (after_cleanup e d.0, d.1)
  after_cleanup-Ends s r e (ok a, s1) k = (record { keys = k.0.keys; sets = k.0.sets }, k.1)
  after_cleanup-Ends s r e (err e', s1) k = (record { keys = k.0.keys; sets = k.0.sets }, k.1)
  after_cleanup-Ends s r e (crash, s1) k = tt

  module _ (volume_id target : Text) (s : SnapshotMounter rt.State) (i : Inv laws s)
      (outside : has (gen_snapshot_key volume_id) s.ro_snapshot_targets_map ≡ false) where
    abbrev rw_key : Text
    rw_key = gen_snapshot_key volume_id

    rw_mounted :
        (r : rt.State)
        → SameRecords laws s.runtime r
        → (m : Outcome rt.Error Unit × rt.State)
        → ((j : Text) → Settles m.0 (recorded m.1 j) (recorded r j) (recorded r j))
        → Ends
            (λ _. Untouched laws s)
            (λ _. Untouched laws s)
            (cleaned m.0 (record s { runtime = m.1 }) (on_runtime (rt.destroy_snapshot rw_key)))
    rw_mounted r same (ok _, r') law = (
      record { keys = refl; sets = refl },
      Inv-runtime laws target target s s r' (λ j. law j ∙ same j) i,
    )
    rw_mounted r same (err e, r') law =
        let s1 : SnapshotMounter rt.State = record s { runtime = r' } in
        after_cleanup-Ends s r' e _ (
          destroyed-Untouched laws rw_key s1 outside
            (Inv-runtime laws target target s s r' (λ j. law j ∙ same j) i)
            (rt.destroy_snapshot rw_key r') (laws.destroy_law rw_key r'))
    rw_mounted r same (crash, r') law = tt

    rw_prepared :
        (image_id : Text) (r : rt.State)
        → SameRecords laws s.runtime r
        → (p : Outcome rt.Error Unit × rt.State)
        → ((j : Text) → Settles p.0 (recorded p.1 j) (recorded r j) (recorded r j))
        → Ends
            (λ _. Untouched laws s)
            (λ _. Untouched laws s)
            (continue p.0
              (record s { runtime = p.1 })
              (λ _.
                on_error
                  (on_runtime (rt.mount rw_key target false))
                  (on_runtime (rt.destroy_snapshot rw_key))))
    rw_prepared image_id r same (ok _, r') law =
        rw_mounted r' (λ j. law j ∙ same j) (rt.mount rw_key target false r')
          (laws.mount_law rw_key target false r')
    rw_prepared image_id r same (err e, r') law = (
      record { keys = refl; sets = refl },
      Inv-runtime laws target target s s r' (λ j. law j ∙ same j) i,
    )
    rw_prepared image_id r same (crash, r') law = tt

    rw_identified :
        (g : Outcome rt.Error Text × rt.State)
        → ((j : Text) → Settles g.0 (recorded g.1 j) (recorded s.runtime j) (recorded s.runtime j))
        → Ends
            (λ _. Untouched laws s)
            (λ _. Untouched laws s)
            (continue g.0 (record s { runtime = g.1 }) (mount_rw rt volume_id target))
    unfolding mount_rw
    rw_identified (ok image_id, r) law =
        rw_prepared image_id r law (rt.prepare_rw_snapshot image_id rw_key none r)
          (laws.prepare_rw_law image_id rw_key r)
    rw_identified (err e, r) law =
        (record { keys = refl; sets = refl }, Inv-runtime laws target target s s r law i)
    rw_identified (crash, r) law = tt

    -- A read-write mount leaves the cache of read-only snapshots alone, failed or not.
    pub mount_rw-Ends :
        (image : Named)
        → Ends
            (λ _. Untouched laws s)
            (λ _. Untouched laws s)
            (mount rt volume_id target image false s)
    unfolding mount
    mount_rw-Ends image =
        rw_identified (rt.get_image_id_or_die image s.runtime)
          (laws.get_image_id_law image s.runtime)

  -- Over a runtime that meets the laws that the mounter relies on: a mount, read-only or not, keeps
  -- the cache well formed, whether it succeeds or returns an error, if the key of the volume's own
  -- snapshot is not the key of a read-only snapshot in the cache.
  pub mount-Inv :
      (volume_id target : Text) (image : Named) (ro : Bool) (s : SnapshotMounter rt.State)
      → Inv laws s
      → has (gen_snapshot_key volume_id) s.ro_snapshot_targets_map ≡ false
      → Ends (λ _. Inv laws) (λ _. Inv laws) (mount rt volume_id target image ro s)
  mount-Inv volume_id target image true s i outside =
      Ends-map {P = λ _. Mounted laws image target s} {P' = λ _. Inv laws}
        {Q = λ _ s'. Restored s s' × Inv laws s'} {Q' = λ _. Inv laws} _
        (λ _ s' m.
          Referred-Inv laws target (gen_snapshot_key m.image_id) s s'
            (gen_snapshot_key-named m.image_id) i m.referred_by)
        (λ _ _ k. k.1) (mount_ro-Ends laws volume_id target image s i)
  mount-Inv volume_id target image false s i outside =
      Ends-map {P = λ _. Untouched laws s} {P' = λ _. Inv laws} {Q = λ _. Untouched laws s}
        {Q' = λ _. Inv laws} _ (λ _ _ k. k.1) (λ _ _ k. k.1)
        (mount_rw-Ends volume_id target s i outside image)

  -- A target that holds a snapshot is named in the runtime's metadata of that snapshot.
  pub held-names :
      (t : Text) (s : SnapshotMounter rt.State)
      → Inv laws s
      → is_empty (key_of t s) ≡ false
      → names laws s.runtime (key_of t s) t ≡ true
  held-names t s i busy = ground (
    arith,
    i.linked t (key_of t s) busy,
    i.synced (key_of t s) t,
    text_eq_iff (key_of t s) (key_of t s),
    get-nil {V = Unit {0}} t,
  )

  -- `other` holds the snapshot that it held, and the runtime's metadata of that snapshot names it.
  abbrev pub StillHeld : Text → SnapshotMounter rt.State → SnapshotMounter rt.State → Type 0
  StillHeld other s s' =
      (key_of other s' ≡ key_of other s) × (names laws s'.runtime (key_of other s) other ≡ true)

  module _ (other : Text) (s s' : SnapshotMounter rt.State) (i' : Inv laws s')
      (busy : is_empty (key_of other s) ≡ false) where
    same_key-StillHeld : key_of other s' ≡ key_of other s → StillHeld other s s'
    same_key-StillHeld e = (e, rw e at (held-names other s' i' (rw e busy)))

    Unmounted-StillHeld :
        (target : Text) → other ≢ target → Unmounted laws target s s' → StillHeld other s s'
    Unmounted-StillHeld target differ (inl (_, c)) = same_key-StillHeld (ground (arith, c.keys))
    Unmounted-StillHeld target differ (inr r) =
        same_key-StillHeld (ground (arith, r.keys other, text_eq_iff target other))

  -- Over a runtime that meets the laws that the mounter relies on, from a well-formed cache:
  -- unmounting one target, with success or an error, leaves every other target that holds a
  -- snapshot with it. The cache still gives its key, and the runtime's metadata of the snapshot
  -- still names the target. If the target itself has no snapshot, the key of the volume's own must
  -- not be one in the cache.
  pub unmount-keeps_others :
      (volume_id target other : Text) (s : SnapshotMounter rt.State)
      → Inv laws s
      → IsSeparate volume_id target s
      → other ≢ target
      → is_empty (key_of other s) ≡ false
      → Ends (λ _. StillHeld other s) (λ _. StillHeld other s) (unmount rt volume_id target s)
  unmount-keeps_others volume_id target other s i outside differ busy =
      Ends-map {P = λ _ s'. Unmounted laws target s s' × Inv laws s'} {Q = λ _. Untouched laws s} _
        (λ _ s' u. Unmounted-StillHeld other s s' u.1 busy target differ u.0)
        (λ _ s' u. same_key-StillHeld other s s' u.1 busy (ground (arith, u.0.keys)))
        (unmount-Ends laws volume_id target s i outside)

  Mounted-held :
      (image : Named) (target : Text) (s s1 : SnapshotMounter rt.State)
      → Mounted laws image target s s1
      → key_of target s1 ≢ []
  Mounted-held image target s s1 m free = ground (
    arith,
    m.referred_by.keys target,
    gen_snapshot_key-named m.image_id,
    text_eq_iff target target,
  )

  Mounted-released :
      (image : Named) (target : Text) (s s1 s2 : SnapshotMounter rt.State)
      → Inv laws s
      → Mounted laws image target s s1
      → Unmounted laws target s1 s2
      → Restored s s2
  Mounted-released image target s s1 s2 i m (inl (free, c)) =
      absurd (Mounted-held image target s s1 m free)
  Mounted-released image target s s1 s2 i m (inr r) =
      ref_release-Restored laws target (gen_snapshot_key m.image_id) s s1 s2
        (gen_snapshot_key-named m.image_id) i m.referred_by r

  -- Over a runtime that meets the laws that the mounter relies on, from a well-formed cache: after
  -- a read-only mount that succeeded, an unmount that succeeds leaves the cache as it was before
  -- the mount, and one that returns an error leaves it as it was after the mount.
  pub unmount-mount :
      (volume_id other_id target : Text) (image : Named) (s s1 : SnapshotMounter rt.State)
      → Inv laws s
      → mount rt volume_id target image true s ≡ (ok tt, s1)
      → Ends (λ _. Restored s) (λ _. SameCache s1) (unmount rt other_id target s1)
  unmount-mount volume_id other_id target image s s1 i e =
      let m : Mounted laws image target s s1 =
        subst (Ends (λ _. Mounted laws image target s) (λ _ s'. Restored s s' × Inv laws s')) e
          (mount_ro-Ends laws volume_id target image s i) in
      let key = gen_snapshot_key m.image_id in
      let i1 =
        Referred-Inv laws target key s s1 (gen_snapshot_key-named m.image_id) i m.referred_by in
      Ends-map {P = λ _ s'. Unmounted laws target s1 s' × Inv laws s'} {Q = λ _. Untouched laws s1}
        _ (λ _ s2 u. Mounted-released image target s s1 s2 i m u.0) (λ _ s2 u. u.0)
        (unmount-Ends laws other_id target s1 i1
          (λ free. absurd (Mounted-held image target s s1 m free)))
