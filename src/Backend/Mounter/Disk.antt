-- ===== src/Backend/Mounter/Disk.antt =====
-- A runtime in memory that meets the laws that the mounter relies on, and states of the mounter over it.
use container_image_csi_driv.Base.{
  ◌≡◌, refl, Bool, true, false, [], ◌∷◌, Option, none, some, arith, ◌==◌, if◌then◌else◌, is_empty,
}
use container_image_csi_driv.Text.{Text, codes, Text-eq, text_eq}
use container_image_csi_driv.Dict.{Dict, get, put, delete, get-put, get-delete}
use container_image_csi_driv.Exec.{Outcome, ok, err}
use container_image_csi_driv.Backend.Metadata.{
  SnapshotMetadata, named_by, create_snapshot_metadata, build_snapshot_metadata, copy_targets,
  add_targets,
}
use container_image_csi_driv.Backend.Runtime.{
  Named, ContainerRuntimeMounter, RuntimeLaws, no_targets,
}
use container_image_csi_driv.Backend.Mounter.{
  SnapshotMounter, gen_snapshot_key, mount, ref_ro_snapshot, unref_ro_snapshot,
}
use container_image_csi_driv.Backend.Mounter.Invariant.{Inv}
use container_image_csi_driv.Backend.Mounter.Sharing.{mount-Inv}

pub record Disk : Type 0 where
  pub snapshots : Dict Text SnapshotMetadata
  pub broken : Bool

unfoldable pub disk_mount : Disk → Outcome Text Unit
disk_mount d = if d.broken then err (codes "EINVAL") else ok tt

abbrev pub disk_runtime : ContainerRuntimeMounter
disk_runtime = record {
  State = Disk;
  Error = Text;
  mount = λ k t ro d. (disk_mount d, d);
  unmount = λ t d. (ok tt, d);
  image_exists = λ i d. true;
  get_image_id_or_die = λ i d. (ok i.name, d);
  prepare_read_only_snapshot = λ i k m d. (ok tt, record d { snapshots = put k m d.snapshots });
  prepare_rw_snapshot = λ i k m d. (ok tt, d);
  update_snapshot_metadata = λ k m d. (ok tt, record d { snapshots = put k m d.snapshots });
  destroy_snapshot = λ k d. (ok tt, record d { snapshots = delete k d.snapshots });
  list_snapshots = λ d. (ok [], d);
}

abbrev pub recorded_in : Option SnapshotMetadata → Text → Bool
recorded_in none = no_targets
recorded_in (some m) = named_by m

pub recorded-put :
    (k j : Text) (m : SnapshotMetadata) (d : Dict Text SnapshotMetadata)
    → recorded_in (get j (put k m d)) ≡ (if k == j then named_by m else recorded_in (get j d))
recorded-put k j m d = ground (arith, get-put k j m d)

pub recorded-delete :
    (k j : Text) (d : Dict Text SnapshotMetadata)
    → recorded_in (get j (delete k d)) ≡ (if k == j then no_targets else recorded_in (get j d))
recorded-delete k j d = ground (arith, get-delete k j d)

pub disk_laws : RuntimeLaws disk_runtime
unfolding disk_mount
disk_laws = record {
  recorded = λ d k. recorded_in (get k d.snapshots);
  present = λ d k. true;
  get_image_id_dies = λ i d e h. cc;
  destroy_present = λ k d h. refl;
  mount_law = λ k t ro d j. ground arith;
  unmount_law = λ t d j. refl;
  get_image_id_law = λ i d j. refl;
  prepare_read_only_law = λ i k m d unnamed j. recorded-put k j m d.snapshots;
  prepare_rw_law = λ i k d j. refl;
  update_law = λ k m d j. recorded-put k j m d.snapshots;
  destroy_law = λ k d j. recorded-delete k j d.snapshots;
}

abbrev pub nginx : Named
nginx = record { string = codes "nginx:1"; name = codes "nginx" }

abbrev pub pod_a : Text
pod_a = codes "/pods/a"

abbrev pub pod_b : Text
pod_b = codes "/pods/b"

abbrev pub idle : SnapshotMounter Disk
idle = record {
  runtime = record { snapshots = []; broken = false };
  target_ro_snapshot_map = [];
  ro_snapshot_targets_map = [];
}

empty_key : (k : Text) → is_empty k ≡ false → false ≡ text_eq [] k
unfolding text_eq
empty_key [] h = cc
empty_key (x ∷ k) h = refl

pub idle-Inv : Inv disk_laws idle
unfolding get text_eq disk_laws
idle-Inv = record {
  linked = λ t k h. empty_key k h;
  distinct = λ k. tt;
  occupied = λ k h. ground arith;
  keyed = refl;
  synced = λ k u h. ground arith;
  fresh = λ k u h. refl;
}

-- One volume, then two, of the same image.
abbrev pub shared_key : Text
shared_key = codes "container-image.csi.k8s.io-nginx"

abbrev pub one_volume : SnapshotMounter Disk
one_volume = record {
  runtime = record {
    snapshots = (shared_key, create_snapshot_metadata pod_a) ∷ [];
    broken = false;
  };
  target_ro_snapshot_map = (pod_a, shared_key) ∷ [];
  ro_snapshot_targets_map = (shared_key, (pod_a, tt) ∷ []) ∷ [];
}

pub mount_first : mount disk_runtime (codes "v1") pod_a nginx true idle ≡ (ok tt, one_volume)
unfolding mount ref_ro_snapshot unref_ro_snapshot gen_snapshot_key get put disk_mount text_eq
mount_first = refl

abbrev pub two_volumes : SnapshotMounter Disk
two_volumes = record {
  runtime = record {
    snapshots = (shared_key, build_snapshot_metadata ((pod_b, tt) ∷ (pod_a, tt) ∷ [])) ∷ [];
    broken = false;
  };
  target_ro_snapshot_map = (pod_a, shared_key) ∷ (pod_b, shared_key) ∷ [];
  ro_snapshot_targets_map = (shared_key, (pod_a, tt) ∷ (pod_b, tt) ∷ []) ∷ [];
}

pub mount_second :
    mount disk_runtime (codes "v2") pod_b nginx true one_volume ≡ (ok tt, two_volumes)
unfolding mount ref_ro_snapshot unref_ro_snapshot gen_snapshot_key get put disk_mount text_eq
    copy_targets create_snapshot_metadata build_snapshot_metadata add_targets
mount_second = refl

pub one_volume-Inv : Inv disk_laws one_volume
unfolding get
one_volume-Inv =
    rw mount_first at (mount-Inv disk_laws (codes "v1") pod_a nginx true idle idle-Inv refl)

pub two_volumes-Inv : Inv disk_laws two_volumes
unfolding get text_eq gen_snapshot_key
two_volumes-Inv =
    rw mount_second at
      (mount-Inv disk_laws (codes "v2") pod_b nginx true one_volume one_volume-Inv refl)
