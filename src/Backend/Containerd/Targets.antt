-- ===== src/Backend/Containerd/Targets.antt =====
-- The targets that the labels of a snapshot name.
use container_image_csi_driv.Base.{
  ◌≡◌, refl, ◌∙◌, Bool, true, false, [], ◌∷◌, Option, none, some, or_else, arith, if◌then◌else◌,
}
use container_image_csi_driv.Text.{Text, Text-eq, text_eq, text_eq_iff}
use container_image_csi_driv.Dict.{get, has, put, get-put}
use container_image_csi_driv.Backend.Metadata.{TargetSet}
use container_image_csi_driv.Backend.Runtime.{no_targets}
use container_image_csi_driv.Backend.Containerd.{
  Labels, gc_label, check_mark, gen_target_label, with_targets, without_driver_labels,
  update_labels, Info, same_labels,
}
use container_image_csi_driv.Backend.Containerd.Labels.{gen_target_label_eq, has-without}
use container_image_csi_driv.Backend.Containerd.Service.{default_snapshot_labels}

-- The snapshot has a label for the target.
abbrev pub labelled : Labels → Text → Bool
labelled labels u = has (gen_target_label u) labels

abbrev pub recorded_of : Option Info → Text → Bool
recorded_of none = no_targets
recorded_of (some info) = labelled info.labels

get-with_targets :
    (u : Text) (m : Labels) (ts : TargetSet)
    → get (gen_target_label u) (with_targets m ts)
      ≡ (if has u ts then some check_mark else get (gen_target_label u) m)
unfolding with_targets get
get-with_targets u m [] = refl
get-with_targets u m ((t, x) ∷ ts) = ground (
  arith,
  get-with_targets u (put (gen_target_label t) check_mark m) ts,
  get-put (gen_target_label t) (gen_target_label u) check_mark m,
  gen_target_label_eq t u,
)

gc-gen : (u : Text) → text_eq gc_label (gen_target_label u) ≡ false
unfolding text_eq
gc-gen u = refl

get-default : (u now : Text) → get (gen_target_label u) (default_snapshot_labels now) ≡ none
unfolding get
get-default u now = rw (gc-gen u) refl

-- A new snapshot names the targets that it is made for.
pub labelled-new :
    (u now : Text) (ts : TargetSet)
    → labelled (with_targets (default_snapshot_labels now) ts) u ≡ has u ts
labelled-new u now ts =
    ground (arith, get-with_targets u (default_snapshot_labels now) ts, get-default u now)

pub labelled-default : (u now : Text) → labelled (default_snapshot_labels now) u ≡ false
labelled-default u now = rw (get-default u now) refl

pub labelled-update :
    (u : Text) (labels : Labels) (ts : TargetSet) → labelled (update_labels labels ts) u ≡ has u ts
unfolding update_labels
labelled-update u labels ts =
    ground (arith, get-with_targets u (without_driver_labels labels) ts, has-without u labels)

-- A label that is asked for, but the one of the garbage collector, has its value on the snapshot.
same_labels-get :
    (k v : Text) (present asked : Labels)
    → same_labels present asked ≡ true
    → get k asked ≡ some v
    → text_eq k gc_label ≡ false
    → or_else (get k present) [] ≡ v
unfolding same_labels get
same_labels-get k v present [] same e n = cc
same_labels-get k v present ((j, w) ∷ asked) same e n = ground (
  arith,
  text_eq_iff j k,
  text_eq_iff (or_else (get j present) []) w,
  same_labels-get k v present asked,
)

gen-gc : (u : Text) → text_eq (gen_target_label u) gc_label ≡ false
unfolding text_eq
gen-gc u = refl

-- A snapshot that is used although it was there has all targets that are asked for.
pub labelled-found :
    (u now : Text) (ts : TargetSet) (present : Labels)
    → same_labels present (with_targets (default_snapshot_labels now) ts) ≡ true
    → has u ts ≡ true
    → labelled present u ≡ true
labelled-found u now ts present same h =
    let asked = with_targets (default_snapshot_labels now) ts in
    let e : get (gen_target_label u) asked ≡ some check_mark =
      get-with_targets u (default_snapshot_labels now) ts ∙ rw h refl in
    ground (arith, same_labels-get (gen_target_label u) check_mark present asked same e (gen-gc u))
