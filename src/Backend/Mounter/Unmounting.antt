-- ===== src/Backend/Mounter/Unmounting.antt =====
-- `Mount` of a read-write volume, `Unmount`, and what they leave of the other volumes.
use container_image_csi_driv.Base.{
  ◌≡◌, refl, ap, ◌∙◌, ◌⊎◌, Bool, true, false, [], inl, inr, arith, ◌==◌, if◌then◌else◌,
}
use container_image_csi_driv.Text.{Text, Text-eq, text_eq_iff}
use container_image_csi_driv.Dict.{has}
use container_image_csi_driv.Exec.{Outcome, ok, err, crash, continue, pure, ◌>>=◌}
use container_image_csi_driv.Backend.Runtime.{
  ContainerRuntimeMounter, RuntimeLaws, Settles, no_targets,
}
use container_image_csi_driv.Backend.Mounter.{
  SnapshotMounter, gen_snapshot_key, key_of, on_runtime, unref_ro_snapshot, unmount,
}
use container_image_csi_driv.Backend.Mounter.Contract.{
  Ends, Ends-map, Released, Unreferred, unref-Ends,
}
use container_image_csi_driv.Backend.Mounter.Invariant.{Inv, Unchanged-Inv, Released-Inv}
use container_image_csi_driv.Backend.Mounter.Rollback.{SameRecords, Inv-runtime}

-- The maps of the cache are untouched.
pub record SameCache {S : Type 0} (s s' : SnapshotMounter S) : Type 0 where
  pub keys : s'.target_ro_snapshot_map ≡ s.target_ro_snapshot_map
  pub sets : s'.ro_snapshot_targets_map ≡ s.ro_snapshot_targets_map

-- The volume's own key names no read-only snapshot, where the target holds none.
abbrev pub IsSeparate : {S : Type 0} → Text → Text → SnapshotMounter S → Type 0
IsSeparate volume_id target s =
    key_of target s ≡ [] → has (gen_snapshot_key volume_id) s.ro_snapshot_targets_map ≡ false

module _ {rt : ContainerRuntimeMounter} (laws : RuntimeLaws rt) where
  open laws use {recorded}

  abbrev pub Untouched : SnapshotMounter rt.State → SnapshotMounter rt.State → Type 0
  Untouched s s' = SameCache s s' × Inv laws s'

  -- Destroying a snapshot that is not in the cache keeps the invariant.
  pub destroyed-Untouched :
      (key : Text) (s : SnapshotMounter rt.State)
      → has key s.ro_snapshot_targets_map ≡ false
      → Inv laws s
      → (d : Outcome rt.Error Unit × rt.State)
      → ((j : Text)
          → Settles d.0
              (recorded d.1 j)
              (if key == j then no_targets else recorded s.runtime j)
              (recorded s.runtime j))
      → Ends (λ _. Untouched s) (λ _. Untouched s) (d.0, record s { runtime = d.1 })
  destroyed-Untouched key s outside i (ok _, r') law = (
    record { keys = refl; sets = refl },
    record {
      linked = i.linked;
      distinct = i.distinct;
      occupied = i.occupied;
      keyed = i.keyed;
      synced = λ k u h.
          ground (arith, i.synced k u h, ap (λ g. g u) (law k), outside, text_eq_iff key k);
      fresh = λ k u h. ground (arith, i.fresh k u h, ap (λ g. g u) (law k));
    },
  )
  destroyed-Untouched key s outside i (err e, r') law =
      (record { keys = refl; sets = refl }, Inv-runtime laws key key s s r' law i)
  destroyed-Untouched key s outside i (crash, r') law = tt

  -- What `Unmount` finds: a read-only volume, which it releases, or a read-write volume.
  abbrev pub Unmounted : Text → SnapshotMounter rt.State → SnapshotMounter rt.State → Type 0
  Unmounted target s s' = ((key_of target s ≡ []) × SameCache s s') ⊎ Released laws target s s'

  Released-before :
      (target : Text) (s s' : SnapshotMounter rt.State) (r : rt.State)
      → SameRecords laws s.runtime r
      → Released laws target (record s { runtime = r }) s'
      → Released laws target s s'
  Released-before target s s' r same f = record {
    held = f.held;
    counted = f.counted;
    keys = f.keys;
    sets = f.sets;
    records = λ j. ground (arith, f.records j, same j);
  }

  module _ (volume_id target : Text) (s : SnapshotMounter rt.State) (i : Inv laws s) where
    abbrev volume_key : Text
    volume_key = gen_snapshot_key volume_id

    module _ (outside : IsSeparate volume_id target s) (r : rt.State)
        (law : SameRecords laws s.runtime r) where
      released :
          (u : Outcome rt.Error Bool × SnapshotMounter rt.State)
          → Ends (Unreferred laws target (record s { runtime = r })) (λ _ _. ⊥) u
          → Ends
              (λ _ s'. Unmounted target s s' × Inv laws s')
              (λ _. Untouched s)
              (continue u.0 u.1
                (λ found. if found then pure tt else on_runtime (rt.destroy_snapshot volume_key)))
      released (ok true, s2) f =
          let f' = Released-before target s s2 r law f in
          (inr f', Released-Inv laws target s s2 i f')
      released (ok false, s2) (free, c) =
          let keeps : (s' : SnapshotMounter rt.State) → Untouched s2 s' → Untouched s s' =
            λ s' k. (record { keys = k.0.keys ∙ c.keys; sets = k.0.sets ∙ c.sets }, k.1) in
          Ends-map {P = λ _. Untouched s2} {P' = λ _ s'. Unmounted target s s' × Inv laws s'}
            {Q = λ _. Untouched s2} {Q' = λ _. Untouched s} _
            (λ _ s' k. let k' = keeps s' k in (inl (free, k'.0), k'.1)) (λ _ s' k. keeps s' k)
            (destroyed-Untouched volume_key s2 (ground (arith, c.sets, outside free))
              (Unchanged-Inv laws (record s { runtime = r }) s2 c
                (Inv-runtime laws target target s s r law i))
              (rt.destroy_snapshot volume_key s2.runtime) (laws.destroy_law volume_key s2.runtime))
      released (err e, s2) f = absurd f
      released (crash, s2) f = tt

    unmount_from :
        (m : Outcome rt.Error Unit × rt.State)
        → IsSeparate volume_id target s
        → ((j : Text) → Settles m.0 (recorded m.1 j) (recorded s.runtime j) (recorded s.runtime j))
        → Ends
            (λ _ s'. Unmounted target s s' × Inv laws s')
            (λ _. Untouched s)
            (continue m.0
              (record s { runtime = m.1 })
              (λ _. unref_ro_snapshot rt target >>= λ found.
                if found then pure tt else on_runtime (rt.destroy_snapshot volume_key)))
    unmount_from (ok _, r) outside law =
        released outside r law (unref_ro_snapshot rt target (record s { runtime = r }))
          (unref-Ends laws target (record s { runtime = r }))
    unmount_from (err e, r) outside law =
        (record { keys = refl; sets = refl }, Inv-runtime laws target target s s r law i)
    unmount_from (crash, r) outside law = tt

    -- `Unmount` releases the target's read-only snapshot, or leaves the cache alone.
    pub unmount-Ends :
        IsSeparate volume_id target s
        → Ends
            (λ _ s'. Unmounted target s s' × Inv laws s')
            (λ _. Untouched s)
            (unmount rt volume_id target s)
    unfolding unmount
    unmount-Ends outside =
        unmount_from (rt.unmount target s.runtime) outside (laws.unmount_law target s.runtime)
