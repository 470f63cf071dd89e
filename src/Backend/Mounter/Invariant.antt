-- ===== src/Backend/Mounter/Invariant.antt =====
-- The well-formedness of the snapshot cache, and that counting and releasing a reference keep it.
use container_image_csi_driv.Base.{
  ◌<◌, ◌≡◌, ap, true, false, [], none, arith, ◌==◌, if◌then◌else◌, length, is_empty,
}
use container_image_csi_driv.Text.{Text, Text-eq, text_eq_iff}
use container_image_csi_driv.Dict.{
  get, has, delete, Distinct, get-put, get-delete, put-Distinct, delete-Distinct, length-delete,
  length-put-pos, delete_sole, get-nil,
}
use container_image_csi_driv.Backend.Metadata.{targets_in-build}
use container_image_csi_driv.Backend.Runtime.{ContainerRuntimeMounter, RuntimeLaws}
use container_image_csi_driv.Backend.Mounter.{SnapshotMounter, key_of, targets_of}
use container_image_csi_driv.Backend.Mounter.Contract.{names, Fresh, Unchanged, Referred, Released}

module _ {rt : ContainerRuntimeMounter} (laws : RuntimeLaws rt) where
  -- linked: the two maps agree, on which target holds which snapshot;
  -- occupied: no snapshot is kept without a target; keyed: none has the empty key;
  -- synced: the runtime's metadata names exactly the targets of each snapshot in the cache;
  -- fresh: it names no target of any other snapshot.
  pub record Inv (s : SnapshotMounter rt.State) : Type 0 where
    pub linked : (t k : Text) → is_empty k ≡ false → has t (targets_of k s) ≡ (key_of t s == k)
    pub distinct : (k : Text) → Distinct (targets_of k s)
    pub occupied : (k : Text) → has k s.ro_snapshot_targets_map ≡ true → 0 < length (targets_of k s)
    pub keyed : has [] s.ro_snapshot_targets_map ≡ false
    pub synced :
        (k u : Text)
        → has k s.ro_snapshot_targets_map ≡ true
        → names laws s.runtime k u ≡ has u (targets_of k s)
    pub fresh :
        (k u : Text) → has k s.ro_snapshot_targets_map ≡ false → names laws s.runtime k u ≡ false

  pub Inv-Fresh : (key : Text) (s : SnapshotMounter rt.State) → Inv s → Fresh laws key s
  Inv-Fresh key s i none_yet u = ground (arith, i.fresh key u, i.occupied key)

  pub Unchanged-Inv : (s s' : SnapshotMounter rt.State) → Unchanged laws s s' → Inv s → Inv s'
  Unchanged-Inv s s' c i = record {
    linked = λ t k h. ground (arith, c.keys, c.sets, i.linked t k h);
    distinct = λ k. ground (arith, c.sets, i.distinct k);
    occupied = λ k h. ground (arith, c.sets, i.occupied k);
    keyed = ground (arith, c.sets, i.keyed);
    synced = λ k u h. ground (arith, c.sets, ap (λ f. f u) (c.records k), i.synced k u);
    fresh = λ k u h. ground (arith, c.sets, ap (λ f. f u) (c.records k), i.fresh k u);
  }

  pub Referred-Inv :
      (target key : Text) (s s' : SnapshotMounter rt.State)
      → is_empty key ≡ false
      → Inv s
      → Referred laws target key s s'
      → Inv s'
  Referred-Inv target key s s' named i r = record {
    linked = λ t k h. ground (
      arith,
      r.sets k,
      r.keys t,
      r.free,
      i.linked t k h,
      get-put target t tt (targets_of key s),
      text_eq_iff key k,
      text_eq_iff target t,
      text_eq_iff (key_of t s) k,
    );
    distinct = λ k.
        ground (
          arith,
          r.sets k,
          i.distinct k,
          put-Distinct target tt (targets_of key s) (i.distinct key),
        );
    occupied =
        λ k h. ground (arith, r.sets k, i.occupied k, length-put-pos target tt (targets_of key s));
    keyed = ground (arith, r.sets [], i.keyed, text_eq_iff key []);
    synced = λ k u h.
        ground
          (arith, r.sets k, r.records k u, i.synced k u, get-put target u tt (targets_of key s));
    fresh = λ k u h. ground (arith, r.sets k, r.records k u, i.fresh k u);
  }

  module _ (target : Text) (s s' : SnapshotMounter rt.State) (i : Inv s)
      (r : Released laws target s s') where
    abbrev freed : Text
    freed = key_of target s

    has-freed : has target (targets_of freed s) ≡ true
    has-freed = ground (arith, i.linked target freed r.held, text_eq_iff freed freed)

    -- What is left of a set after the release, whether the snapshot stays or goes.
    pub get-released :
        (k u : Text)
        → get u (targets_of k s') ≡ (
            if freed == k
            then (if target == u then none else get u (targets_of k s))
            else get u (targets_of k s))
    get-released k u = ground (
      arith,
      r.sets k,
      get-delete target u (targets_of k s),
      get-nil u,
      has-freed,
      delete_sole target (targets_of k s) (i.distinct k),
      text_eq_iff freed k,
    )

    pub Released-Inv : Inv s'
    Released-Inv = record {
      linked = λ t k h. ground (
        arith,
        get-released k t,
        r.keys t,
        i.linked t k h,
        text_eq_iff freed k,
        text_eq_iff target t,
        text_eq_iff [] k,
        text_eq_iff (key_of t s) k,
      );
      distinct = λ k.
          ground
            (arith, r.sets k, i.distinct k, delete-Distinct target (targets_of k s) (i.distinct k));
      occupied = λ k h. ground (
        arith,
        r.sets k,
        i.occupied k,
        length-delete target (targets_of k s) (i.distinct k),
        has-freed,
        text_eq_iff freed k,
      );
      keyed = ground (arith, r.sets [], i.keyed, r.held, text_eq_iff freed []);
      synced = λ k u h. ground (
        arith,
        r.sets k,
        ap (λ f. f u) (r.records k),
        i.synced k u,
        targets_in-build (delete target (targets_of k s)),
      );
      fresh = λ k u h. ground (arith, r.sets k, ap (λ f. f u) (r.records k), i.fresh k u);
    }
