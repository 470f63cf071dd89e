-- ===== src/Backend/Mounter/Rollback.antt =====
-- A reference that is counted and released again leaves the cache as it was.
use container_image_csi_driv.Base.{◌≡◌, ap, false, [], arith, is_empty}
use container_image_csi_driv.Text.{Text, Text-eq, text_eq_iff}
use container_image_csi_driv.Dict.{has, get-put, length-put_absent}
use container_image_csi_driv.Backend.Runtime.{ContainerRuntimeMounter, RuntimeLaws}
use container_image_csi_driv.Backend.Mounter.{SnapshotMounter, key_of, targets_of}
use container_image_csi_driv.Backend.Mounter.Contract.{Unchanged, Referred, Released}
use container_image_csi_driv.Backend.Mounter.Invariant.{Inv, Referred-Inv, get-released}

-- The same targets hold the same snapshots, and the same snapshots are kept.
pub record Restored {S : Type 0} (s s' : SnapshotMounter S) : Type 0 where
  pub keys : (u : Text) → key_of u s' ≡ key_of u s
  pub sets : (j u : Text) → has u (targets_of j s') ≡ has u (targets_of j s)
  pub kept : (j : Text) → has j s'.ro_snapshot_targets_map ≡ has j s.ro_snapshot_targets_map

module _ {rt : ContainerRuntimeMounter} (laws : RuntimeLaws rt) where
  open laws use {recorded}

  pub Unchanged-Restored : (s s' : SnapshotMounter rt.State) → Unchanged laws s s' → Restored s s'
  Unchanged-Restored s s' c = record {
    keys = λ u. ground (arith, c.keys);
    sets = λ j u. ground (arith, c.sets);
    kept = λ j. ground (arith, c.sets);
  }

  -- A change of the runtime that keeps its metadata does not show.
  abbrev pub SameRecords : rt.State → rt.State → Type 0
  SameRecords r r' = (j : Text) → recorded r' j ≡ recorded r j

  module _ (target key : Text) (s s' : SnapshotMounter rt.State) (r : rt.State) where
    pub Referred-before :
        SameRecords s.runtime r
        → Referred laws target key (record s { runtime = r }) s'
        → Referred laws target key s s'
    Referred-before same f = record {
      free = f.free;
      keys = f.keys;
      sets = f.sets;
      records = λ j u. ground (arith, f.records j u, ap (λ g. g u) (same j));
    }

    pub Referred-after :
        SameRecords s'.runtime r
        → Referred laws target key s s'
        → Referred laws target key s (record s' { runtime = r })
    Referred-after same f = record {
      free = f.free;
      keys = f.keys;
      sets = f.sets;
      records = λ j u. ground (arith, f.records j u, ap (λ g. g u) (same j));
    }

    pub Inv-runtime : SameRecords s.runtime r → Inv laws s → Inv laws (record s { runtime = r })
    Inv-runtime same i = record {
      linked = i.linked;
      distinct = i.distinct;
      occupied = i.occupied;
      keyed = i.keyed;
      synced = λ k u h. ground (arith, i.synced k u h, ap (λ g. g u) (same k));
      fresh = λ k u h. ground (arith, i.fresh k u h, ap (λ g. g u) (same k));
    }

  module _ (target key : Text) (s s' s'' : SnapshotMounter rt.State) (named : is_empty key ≡ false)
      (i : Inv laws s) (f : Referred laws target key s s') (r : Released laws target s' s'') where
    freed-key : key_of target s' ≡ key
    freed-key = ground (arith, f.keys target, text_eq_iff target target)

    absent : has target (targets_of key s) ≡ false
    absent = ground (arith, i.linked target key named, f.free, text_eq_iff [] key)

    -- Referred, then released.
    pub ref_release-Restored : Restored s s''
    ref_release-Restored = record {
      keys = λ u. ground (arith, r.keys u, f.keys u, f.free, text_eq_iff target u);
      sets = λ j u. ground (
        arith,
        get-released laws target s' s'' (Referred-Inv laws target key s s' named i f) r j u,
        f.sets j,
        get-put target u tt (targets_of key s),
        freed-key,
        absent,
        text_eq_iff key j,
        text_eq_iff target u,
      );
      kept = λ j. ground (
        arith,
        r.sets j,
        f.sets j,
        freed-key,
        length-put_absent target tt (targets_of key s) absent,
        i.occupied key,
        text_eq_iff key j,
      );
    }
