-- ===== src/Backend/Containerd/Service/Samples.antt =====
-- A driver that starts over a containerd with one snapshot, and a mount that fails.
use container_image_csi_driv.Base.{
  is_some, ◌≡◌, ◌↔◌, refl, ap, subst, ◌∙◌, sym, true, [], ◌∷◌, Option, none, some, some-injective,
  inl, inr, arith, All, Bool-cases, if◌then◌else◌,
}
use container_image_csi_driv.Text.{Text, codes, Text-eq, text_eq, text_eq_iff}
use container_image_csi_driv.Strings.{has_prefix}
use container_image_csi_driv.Dict.{get}
use container_image_csi_driv.Backend.Runtime.{RuntimeLaws}
use container_image_csi_driv.Backend.Mounter.Contract.{Ends}
use container_image_csi_driv.Backend.Mounter.Restart.{build_snapshot_cache_or_die}
use container_image_csi_driv.Backend.Mounter.Restart.Rebuilt.{Rebuilt, empty_cache}
use container_image_csi_driv.Backend.Containerd.{gc_label, gen_target_label, check_mark, view, Info}
use container_image_csi_driv.Backend.Containerd.Labels.{Known}
use container_image_csi_driv.Backend.Containerd.Targets.{recorded_of}
use container_image_csi_driv.Backend.Containerd.Mounts.{Mount, describe_mounts}
use container_image_csi_driv.Backend.Containerd.Missing.{Present, MountPresent, describe_mounts_iff}
use container_image_csi_driv.Backend.Containerd.Service.{containerd_runtime}
use container_image_csi_driv.Backend.Containerd.Service.Memory.{
  Table, memory, memory_laws, memory_laws-info,
}
use container_image_csi_driv.Backend.Containerd.Service.Refinement.{
  containerd_laws, containerd-Refines,
}
use container_image_csi_driv.Backend.Containerd.Service.Starting.{
  NoneOld, AllOwned, containerd-Rebuilt,
}

containerd-Refines_example :
    (met : RuntimeLaws (containerd_runtime memory)) × ((s : Table) (j : Text)
      → (met.recorded s j ≡ recorded_of (memory_laws.info s j))
        × (met.present s j ≡ is_some (memory_laws.info s j)))
containerd-Refines_example = containerd-Refines memory_laws

abbrev key : Text
key = codes "container-image.csi.k8s.io-sha256:1"

abbrev pod : Text
pod = codes "/pods/a"

abbrev stored : Info
stored = record {
  name = key;
  kind = view;
  parent = codes "sha256:1";
  labels = (gc_label, codes "2024") ∷ (gen_target_label pod, check_mark) ∷ [];
}

abbrev table : Table
table = (key, stored) ∷ []

info-table :
    (k : Text)
    → memory_laws.info table k ≡ (if text_eq key k then some (record stored { name = k }) else none)
unfolding get
info-table k = memory_laws-info table k ∙ ground arith

stored-Known : All Known stored.labels
unfolding has_prefix
stored-Known = (inl refl, (inr (pod, refl), tt))

table-NoneOld : NoneOld memory_laws (λ target. true) (λ target. key) table
table-NoneOld k i e = elim (Bool-cases (text_eq key k)) [
  | inr other ↦ absurd (cc (rw other at (sym (info-table k) ∙ e)))
  | inl here ↦
      subst (λ (x : Info). All Known x.labels)
        (some-injective (record stored { name = k }) i (rw here at (sym (info-table k) ∙ e)))
        stored-Known
]

table-AllOwned : AllOwned memory_laws (λ target. true) (λ target. key) table
table-AllOwned k t named there = elim (Bool-cases (text_eq key k)) [
  | inl here ↦ (text_eq_iff key k).0 here
  | inr other ↦
      let e : memory_laws.info table k ≡ none = info-table k ∙ rw other refl in
      absurd (cc (sym (ap (λ o. recorded_of o t) e) ∙ named))
]

containerd-Rebuilt_example :
    Ends
      (λ _. Rebuilt (containerd_laws memory_laws) (λ target. true) (λ target. key))
      (λ _ _. ⊥)
      (build_snapshot_cache_or_die (containerd_runtime memory) (λ target. true) (empty_cache table))
containerd-Rebuilt_example =
    containerd-Rebuilt memory_laws (λ target. true) (λ target. key) table table-NoneOld
      table-AllOwned

abbrev overlay : Mount
overlay = record {
  source = codes "overlay";
  fs_type = codes "overlay";
  options = codes "lowerdir=/a:/b" ∷ codes "ro" ∷ [];
}

abbrev only_a : Text → Option Text
only_a path = if text_eq path (codes "/a") then none else some (codes "ENOENT")

describe_mounts_iff_example :
    (describe_mounts only_a (overlay ∷ []) pod ≡ [])
    ↔ (All (MountPresent only_a) (overlay ∷ []) × Present only_a pod)
describe_mounts_iff_example = describe_mounts_iff only_a (overlay ∷ []) pod
