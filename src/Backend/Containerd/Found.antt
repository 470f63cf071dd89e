-- ===== src/Backend/Containerd/Found.antt =====
-- When FindSnapshot takes the snapshot that is there.
use container_image_csi_driv.Base.{◌≡◌, ◌↔◌, ◌⊎◌, refl, true, [], ◌∷◌, some, or_else, arith, All}
use container_image_csi_driv.Text.{Text, Text-eq, text_eq_iff}
use container_image_csi_driv.Dict.{get}
use container_image_csi_driv.Backend.Containerd.{
  Labels, gc_label, Kind, unknown_kind, view, active, committed, same_kind, Info, same_labels,
  usable, find_snapshot,
}

-- The snapshot has the label, or it is the one of the garbage collector.
abbrev pub Agrees : Labels → Text × Text → Type 0
Agrees present label = (label.0 ≡ gc_label) ⊎ (or_else (get label.0 present) [] ≡ label.1)

same_kind_iff : (a b : Kind) → (same_kind a b ≡ true) ↔ (a ≡ b)
same_kind_iff unknown_kind b = ground arith
same_kind_iff view b = ground arith
same_kind_iff active b = ground arith
same_kind_iff committed b = ground arith

same_labels_iff :
    (present labels : Labels) → (same_labels present labels ≡ true) ↔ All (Agrees present) labels
unfolding same_labels
same_labels_iff present [] = (λ _. tt, λ _. refl)
same_labels_iff present ((k, v) ∷ labels) = ground (
  arith,
  text_eq_iff k gc_label,
  text_eq_iff (or_else (get k present) []) v,
  same_labels_iff present labels,
)

-- FindSnapshot takes the snapshot that is there exactly if it has the kind and the parent that are
-- asked for, and the value of every label that is asked for but the label of the garbage collector.
pub find_snapshot_iff :
    (info : Info) (parent : Text) (kind : Kind) (labels : Labels)
    → (find_snapshot (some info) parent kind labels ≡ usable)
      ↔ ((info.kind ≡ kind) × (info.parent ≡ parent) × All (Agrees info.labels) labels)
unfolding find_snapshot
find_snapshot_iff info parent kind labels = ground (
  arith,
  same_kind_iff info.kind kind,
  text_eq_iff info.parent parent,
  same_labels_iff info.labels labels,
)
