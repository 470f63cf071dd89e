-- ===== src/Backend/Mounter/Restart/Loading.antt =====
-- One snapshot of the runtime's list joins the cache, or is destroyed.
use container_image_csi_driv.Base.{
  ◌<◌, ◌≡◌, ◌≢◌, refl, sym, ap, ◌∙◌, Bool, true, false, ◌&&◌, [], ◌∷◌, Option, none, some, inl, inr,
  arith, nat_eq, ◌==◌, ltb, if◌then◌else◌, length, is_empty, Bool-cases,
}
use container_image_csi_driv.Text.{Text, Text-eq, text_eq, text_eq_iff}
use container_image_csi_driv.Dict.{Distinct, get, has, get-put, get-nil}
use container_image_csi_driv.Exec.{Outcome, ok, err, crash, continue}
use container_image_csi_driv.Backend.Metadata.{
  TargetSet, get_targets, build_snapshot_metadata, targets_in, named_by,
}
use container_image_csi_driv.Backend.Runtime.{
  ContainerRuntimeMounter, RuntimeLaws, Settles, no_targets,
}
use container_image_csi_driv.Backend.Mounter.{
  SnapshotMounter, key_of, targets_of, set_targets_of, die_on_err,
}
use container_image_csi_driv.Backend.Mounter.Contract.{Ends, names}
use container_image_csi_driv.Backend.Mounter.Restart.{
  keep_mounted, put_keys, set_keys, adopt, load_snapshot,
}
use container_image_csi_driv.Backend.Mounter.Restart.Targets.{
  has-keep_mounted, keep_mounted-Distinct, keep_mounted_all, get-put_keys,
}

module _ {rt : ContainerRuntimeMounter} (laws : RuntimeLaws rt) (mounted : Text → Bool)
    (owner : Text → Text) where
  open laws use {recorded}

  -- The invariant but for the snapshots that are not loaded yet.
  pub record Core (s : SnapshotMounter rt.State) : Type 0 where
    pub linked : (t k : Text) → is_empty k ≡ false → has t (targets_of k s) ≡ (key_of t s == k)
    pub distinct : (k : Text) → Distinct (targets_of k s)
    pub occupied : (k : Text) → has k s.ro_snapshot_targets_map ≡ true → 0 < length (targets_of k s)
    pub keyed : has [] s.ro_snapshot_targets_map ≡ false
    pub synced :
        (k u : Text)
        → has k s.ro_snapshot_targets_map ≡ true
        → names laws s.runtime k u ≡ has u (targets_of k s)

  -- Each target of the cache has the snapshot that is mounted there.
  abbrev pub Owned : SnapshotMounter rt.State → Type 0
  Owned s = (t : Text) → is_empty (key_of t s) ≡ false → key_of t s ≡ owner t

  abbrev pub Loaded : SnapshotMounter rt.State → Type 0
  Loaded s = Core s × Owned s

  -- What the list says of one snapshot: its targets are those of its metadata, and the snapshot is
  -- the one mounted at each of them that is a mount point.
  pub record Listed (s : SnapshotMounter rt.State) (k : Text) (ts : TargetSet) : Type 0 where
    pub once : Distinct ts
    pub recorded_as : (u : Text) → names laws s.runtime k u ≡ has u ts
    pub owned : (t : Text) → has t ts ≡ true → mounted t ≡ true → owner t ≡ k

  abbrev pub Elsewhere : Text → SnapshotMounter rt.State → SnapshotMounter rt.State → Type 0
  Elsewhere k s s' = (j u : Text) → j ≢ k → names laws s'.runtime j u ≡ names laws s.runtime j u

  module _ (s : SnapshotMounter rt.State) (k : Text) (ts kept : TargetSet) (r : rt.State)
      (i : Loaded s) (l : Listed s k ts) (named : is_empty k ≡ false) (free : targets_of k s ≡ [])
      (left : (u : Text) → has u kept ≡ (has u ts && mounted u)) (once : Distinct kept)
      (elsewhere : Elsewhere k s (record s { runtime = r })) where
    abbrev adopted : SnapshotMounter rt.State
    adopted = set_targets_of k kept (set_keys rt mounted k kept (record s { runtime = r }))

    targets-adopted : (j : Text) → targets_of j adopted ≡ (if k == j then kept else targets_of j s)
    targets-adopted j = ground (arith, get-put k j kept s.ro_snapshot_targets_map)

    key-adopted : (t : Text) → key_of t adopted ≡ (if has t kept then k else key_of t s)
    key-adopted t = ground (arith, get-put_keys k t kept s.target_ro_snapshot_map)

    linked-adopted :
        (t j : Text) → is_empty j ≡ false → has t (targets_of j adopted) ≡ (key_of t adopted == j)
    linked-adopted t j h = ground (
      arith,
      targets-adopted j,
      key-adopted t,
      left t,
      l.owned t,
      i.0.linked t j h,
      i.0.linked t k named,
      i.1 t,
      free,
      get-nil {V = Unit {0}} t,
      text_eq_iff k j,
      text_eq_iff (key_of t s) j,
      text_eq_iff (key_of t s) k,
    )

    adopted-Loaded : ((u : Text) → names laws r k u ≡ has u kept) → 0 < length kept → Loaded adopted
    adopted-Loaded names_kept some_left = (
      record {
        linked = linked-adopted;
        distinct = λ j. ground (arith, targets-adopted j, once, i.0.distinct j);
        occupied =
            λ j h. ground (arith, get-put k j kept s.ro_snapshot_targets_map, i.0.occupied j);
        keyed =
            ground
              (arith, get-put k [] kept s.ro_snapshot_targets_map, i.0.keyed, text_eq_iff k []);
        synced = λ j u h. elim (Bool-cases (text_eq k j)) [
          | inl here ↦ ground (arith, targets-adopted j, names_kept u, text_eq_iff k j, here)
          | inr apart ↦ ground (
            arith,
            targets-adopted j,
            apart,
            text_eq_iff k j,
            elsewhere j u,
            i.0.synced j u,
            get-put k j kept s.ro_snapshot_targets_map,
          )
        ];
      },
      λ t h. ground (arith, key-adopted t, i.1 t, left t, l.owned t),
    )

    dropped-Loaded : Loaded (record s { runtime = r })
    dropped-Loaded = (
      record {
        linked = i.0.linked;
        distinct = i.0.distinct;
        occupied = i.0.occupied;
        keyed = i.0.keyed;
        synced = λ j u h. ground (arith, elsewhere j u, i.0.synced j u, i.0.occupied j, free);
      },
      i.1,
    )

  -- A snapshot that is not in the cache afterwards was not before, and `k` has no target then.
  abbrev pub Gone : Text → SnapshotMounter rt.State → SnapshotMounter rt.State → Type 0
  Gone k s s' =
      (j u : Text)
      → has j s'.ro_snapshot_targets_map ≡ false
      → (text_eq k j ≡ true → names laws s'.runtime j u ≡ false)
        × (text_eq k j ≡ false → has j s.ro_snapshot_targets_map ≡ false)

  -- What a loaded snapshot leaves for the rest of the list.
  abbrev pub After : Text → SnapshotMounter rt.State → SnapshotMounter rt.State → Type 0
  After k s s' = Loaded s' × Elsewhere k s s' × Gone k s s'

  module _ (s : SnapshotMounter rt.State) (k : Text) (set : Text → Bool) (r : rt.State)
      (law : (j : Text) → recorded r j ≡ (if k == j then set else recorded s.runtime j)) where
    moved-Elsewhere : Elsewhere k s (record s { runtime = r })
    moved-Elsewhere j u apart =
        let e : recorded r j ≡ recorded s.runtime j =
          ground (arith, law j, text_eq_iff k j, apart) in
        ap (λ f. f u) e

    moved_names : (u : Text) → names laws r k u ≡ set u
    moved_names u =
        let e : recorded r k ≡ set = ground (arith, law k, text_eq_iff k k) in ap (λ f. f u) e

  adopted-Gone :
      (s : SnapshotMounter rt.State) (k : Text) (kept : TargetSet) (r : rt.State)
      → Gone k s (set_targets_of k kept (set_keys rt mounted k kept (record s { runtime = r })))
  adopted-Gone s k kept r j u h = (
    λ e. ground (arith, get-put k j kept s.ro_snapshot_targets_map),
    λ e. ground (arith, get-put k j kept s.ro_snapshot_targets_map),
  )

  targets_in-build : (ts : TargetSet) → targets_in (some (build_snapshot_metadata ts)) ≡ ts
  unfolding get_targets build_snapshot_metadata get
  targets_in-build ts = refl

  empty_of_length : (ts : TargetSet) → ltb 0 (length ts) ≡ false → ts ≡ []
  empty_of_length [] h = refl
  empty_of_length (t ∷ ts) h = absurd (ground arith)

  module _ (s : SnapshotMounter rt.State) (k : Text) (ts : TargetSet) (i : Loaded s)
      (l : Listed s k ts) (named : is_empty k ≡ false) (free : targets_of k s ≡ []) where
    abbrev kept : TargetSet
    kept = keep_mounted mounted ts

    updated :
        (o : Outcome rt.Error Unit × rt.State)
        → ((j : Text)
            → Settles o.0
                (recorded o.1 j)
                (if k == j then named_by (build_snapshot_metadata kept) else recorded s.runtime j)
                (recorded s.runtime j))
        → ltb 0 (length kept) ≡ true
        → Ends
            (λ _. After k s)
            (λ _ _. ⊥)
            (continue
              (die_on_err o.0)
              (set_keys rt mounted k kept (record s { runtime = o.1 }))
              (λ _ s'. (ok tt, set_targets_of k kept s')))
    updated (ok _, r) law some_left = (
      adopted-Loaded s k ts kept r i l named free (λ u. has-keep_mounted mounted u ts)
          (keep_mounted-Distinct mounted ts l.once)
          (moved-Elsewhere s k (named_by (build_snapshot_metadata kept)) r law)
          (λ u.
            rw (targets_in-build kept) at
              (moved_names s k (named_by (build_snapshot_metadata kept)) r law u))
          (ground (arith, some_left)),
      moved-Elsewhere s k (named_by (build_snapshot_metadata kept)) r law,
      adopted-Gone s k kept r,
    )
    updated (err e, r) law some_left = tt
    updated (crash, r) law some_left = tt

    destroyed :
        (o : Outcome rt.Error Unit × rt.State)
        → ((j : Text)
            → Settles o.0
                (recorded o.1 j)
                (if k == j then no_targets else recorded s.runtime j)
                (recorded s.runtime j))
        → Ends (λ _. After k s) (λ _ _. ⊥) (die_on_err o.0, record s { runtime = o.1 })
    destroyed (ok _, r) law = (
      dropped-Loaded s k ts kept r i l named free (λ u. has-keep_mounted mounted u ts)
          (keep_mounted-Distinct mounted ts l.once) (moved-Elsewhere s k no_targets r law),
      moved-Elsewhere s k no_targets r law,
      λ j u h. (λ e. ground (arith, e, ap (λ f. f u) (law j)), λ e. h),
    )
    destroyed (err e, r) law = tt
    destroyed (crash, r) law = tt

    -- Nothing was left out, so that the metadata stays.
    unchanged :
        length kept ≡ length ts
        → ltb 0 (length kept) ≡ true
        → After k s (set_targets_of k kept (set_keys rt mounted k kept s))
    unchanged same some_left = (
      adopted-Loaded s k ts kept s.runtime i l named free (λ u. has-keep_mounted mounted u ts)
          (keep_mounted-Distinct mounted ts l.once) (λ j u apart. refl)
          (λ u. l.recorded_as u ∙ ap (has u) (sym (keep_mounted_all mounted ts same)))
          (ground (arith, some_left)),
      λ j u apart. refl,
      adopted-Gone s k kept s.runtime,
    )

  length_zero : (ts : TargetSet) → (length ts == 0) ≡ true → ts ≡ []
  length_zero [] h = refl
  length_zero (t ∷ ts) h = absurd (ground arith)

  pub load_snapshot-Ends :
      (k : Text) (found : Option TargetSet) (s : SnapshotMounter rt.State)
      → Loaded s
      → ((ts : TargetSet) → found ≡ some ts → Listed s k ts)
      → Ends (λ _. After k s) (λ _ _. ⊥) (load_snapshot rt mounted k found s)
  unfolding load_snapshot adopt put_keys
  load_snapshot-Ends k none s i l = elim (Bool-cases (is_empty k)) [
    | inl e ↦ rw e tt
    | inr named ↦ rw named (elim (Bool-cases (length (targets_of k s) == 0)) [
      | inr held ↦ rw held tt
      | inl free ↦ rw free tt
    ])
  ]
  load_snapshot-Ends k (some ts) s i l = elim (Bool-cases (is_empty k)) [
    | inl e ↦ rw e tt
    | inr named ↦ rw named (elim (Bool-cases (length (targets_of k s) == 0)) [
      | inr held ↦ rw held tt
      | inl free ↦ rw free (elim (Bool-cases (ltb 0 (length ts))) [
        | inr none_listed ↦ rw none_listed tt
        | inl listed ↦ rw listed (elim (Bool-cases (ltb 0 (length (keep_mounted mounted ts)))) [
          | inr none_left ↦ rw none_left (
              rw (empty_of_length (keep_mounted mounted ts) none_left) (
                destroyed s k ts i (l ts refl) named (length_zero (targets_of k s) free)
                  (rt.destroy_snapshot k s.runtime) (laws.destroy_law k s.runtime)))
          | inl some_left ↦
              rw some_left (elim (Bool-cases (length (keep_mounted mounted ts) == length ts)) [
                | inl same ↦ rw same (
                    unchanged s k ts i (l ts refl) named (length_zero (targets_of k s) free)
                      (ground (arith, same)) some_left)
                | inr fewer ↦ rw fewer (
                    updated s k ts i (l ts refl) named (length_zero (targets_of k s) free)
                      (rt.update_snapshot_metadata k
                        (build_snapshot_metadata (keep_mounted mounted ts)) s.runtime)
                      (laws.update_law k (build_snapshot_metadata (keep_mounted mounted ts))
                        s.runtime)
                      some_left)
              ])
        ])
      ])
    ])
  ]
