-- ===== src/Backend/Containerd/Samples.antt =====
-- The labels of a snapshot that had another target, and the search for it.
use container_image_csi_driv.Base.{
  ℕ, suc, ◌≡◌, ◌↔◌, refl, inl, inr, Bool, false, List, [], ◌∷◌, ◌++◌, none, some, some-injective,
  All, Bool-cases,
}
use container_image_csi_driv.Text.{Text, Text-eq, codes}
use container_image_csi_driv.Dict.{has}
use container_image_csi_driv.Backend.Metadata.{TargetSet}
use container_image_csi_driv.Backend.Containerd.{
  Labels, gc_label, gen_target_label, update_labels, scan_labels, targets_found, view, Info, usable,
  find_snapshot,
}
use container_image_csi_driv.Backend.Containerd.Labels.{scan-update_labels}
use container_image_csi_driv.Backend.Containerd.Nsenter.{
  MountRequest, Exited, Surroundings, ReexecLaws, Called, init, is_child, run_nsenter_mount_child,
  syscall_mount_in_host_namespace, syscall_mount-Called,
}
use container_image_csi_driv.Backend.Containerd.Found.{Agrees, find_snapshot_iff}

abbrev old_labels : Labels
old_labels = (gc_label, codes "2024") ∷ (gen_target_label (codes "/pods/a"), codes "v") ∷ []

abbrev new_targets : TargetSet
new_targets = (codes "/pods/b", tt) ∷ []

abbrev unnamed : Text → Bool
unnamed name = false

scan-update_labels_example :
    (found : TargetSet) × (scan_labels unnamed (codes "s") (update_labels old_labels new_targets) []
      ≡ targets_found found)
    × ((u : Text) → has u found ≡ has u new_targets)
scan-update_labels_example = scan-update_labels unnamed (codes "s") old_labels new_targets

abbrev stored : Info
stored = record { name = codes "s"; kind = view; parent = codes "p"; labels = old_labels }

abbrev asked : Labels
asked = (gc_label, codes "2025") ∷ (gen_target_label (codes "/pods/a"), codes "v") ∷ []

find_snapshot_iff_example :
    (find_snapshot (some stored) (codes "p") view asked ≡ usable)
    ↔ ((view ≡ view) × (codes "p" ≡ codes "p") × All (Agrees old_labels) asked)
find_snapshot_iff_example = find_snapshot_iff stored (codes "p") view asked

-- A host that counts its mounts, and a codec that knows one request.
abbrev overlay : MountRequest
overlay = record {
  source = codes "overlay";
  target = codes "/pods/a";
  fs_type = codes "overlay";
  options = codes "lowerdir=/l" ∷ codes "ro" ∷ [];
}

abbrev counting : Surroundings ℕ
counting = record {
  socket_dir = [];
  join_path = λ dir name. dir ++ (b'/' ∷ name);
  marshal = λ req. some (codes "overlay");
  decode = λ text. some overlay;
  run = λ cmd n. (record { failure = none; output = [] }, suc n);
  mount = λ source target fs_type joined n. (none, suc n);
  message = λ e. [];
}

ran : (n : ℕ) → Exited × ℕ
ran n = (record { failure = none; output = [] }, suc n)

child_ran :
    (environment : List Text) (stdin : Text) (n : ℕ) (r : Exited × ℕ)
    → init counting environment stdin n ≡ some r
    → ran n ≡ r
unfolding init ran run_nsenter_mount_child
child_ran environment stdin n r h = elim (Bool-cases (is_child counting environment)) [
  | inl child ↦ some-injective _ r (rw (child, init) at h)
  | inr other ↦ absurd (cc (rw (other, init) at h))
]

counting_laws : ReexecLaws counting overlay
unfolding ran
counting_laws = record {
  payload = codes "overlay";
  marshal_law = refl;
  decode_law = refl;
  nsenter_law = child_ran;
}

syscall_mount-Called_example :
    Called counting (codes "overlay") (codes "/pods/a") (codes "overlay") overlay.options 0 (
      syscall_mount_in_host_namespace counting
        (codes "overlay")
        (codes "/pods/a")
        (codes "overlay")
        overlay.options
        0)
syscall_mount-Called_example =
    syscall_mount-Called counting (codes "overlay") (codes "/pods/a") (codes "overlay")
      (codes "lowerdir=/l") (codes "ro" ∷ []) 0 counting_laws refl (refl, tt)
