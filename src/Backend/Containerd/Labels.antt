-- ===== src/Backend/Containerd/Labels.antt =====
-- The targets that the list reads back from the labels of an update.
use container_image_csi_driv.Base.{
  ◌≡◌, refl, ap, ◌∙◌, ◌⊎◌, inl, inr, Bool, true, false, ◌||◌, [], ◌∷◌, All, arith, Bool-cases,
}
use container_image_csi_driv.Text.{Text, Text-eq, text_eq, text_eq_iff}
use container_image_csi_driv.Strings.{has_prefix, has_prefix_trans}
use container_image_csi_driv.Dict.{get, has, put, Distinct, get-put, get-nil, put-Distinct}
use container_image_csi_driv.Backend.Metadata.{TargetSet}
use container_image_csi_driv.Backend.Containerd.{
  Labels, label_prefix, target_label_prefix, volume_id_label_prefix, check_mark, gen_target_label,
  with_targets, without_driver_labels, update_labels, Scan, targets_found, scan_labels,
}

-- A label of somebody else, or one of a target.
abbrev pub Known : Text × Text → Type 0
Known label =
    (has_prefix label.0 label_prefix ≡ false) ⊎ ((t : Text) × (label.0 ≡ gen_target_label t))

pub gen_target_label_eq :
    (t u : Text) → text_eq (gen_target_label t) (gen_target_label u) ≡ text_eq t u
unfolding text_eq
gen_target_label_eq t u = refl

put-Known : (k v : Text) (m : Labels) → Known (k, v) → All Known m → All Known (put k v m)
unfolding put
put-Known k v [] h a = (h, tt)
put-Known k v ((j, w) ∷ m) h a = elim (Bool-cases (text_eq j k)) [
  | inl e ↦ rw e (h, a.1)
  | inr n ↦ rw n (a.0, put-Known k v m h a.1)
]

with_targets-Known : (m : Labels) (ts : TargetSet) → All Known m → All Known (with_targets m ts)
unfolding with_targets
with_targets-Known m [] a = a
with_targets-Known m ((t, x) ∷ ts) a =
    with_targets-Known (put (gen_target_label t) check_mark m) ts
      (put-Known (gen_target_label t) check_mark m (inr (t, refl)) a)

without-Known : (m : Labels) → All Known (without_driver_labels m)
unfolding without_driver_labels
without-Known [] = tt
without-Known ((k, v) ∷ m) = elim (Bool-cases (has_prefix k label_prefix)) [
  | inl e ↦ rw e (without-Known m)
  | inr n ↦ rw n (inl n, without-Known m)
]

gen-has_prefix : (t : Text) → has_prefix (gen_target_label t) label_prefix ≡ true
unfolding has_prefix
gen-has_prefix t = refl

pub has-without :
    (u : Text) (m : Labels) → has (gen_target_label u) (without_driver_labels m) ≡ false
unfolding without_driver_labels get
has-without u [] = refl
has-without u ((k, v) ∷ m) =
    ground (arith, has-without u m, gen-has_prefix u, text_eq_iff k (gen_target_label u))

has-with_targets :
    (u : Text) (m : Labels) (ts : TargetSet)
    → has (gen_target_label u) (with_targets m ts) ≡ (has u ts || has (gen_target_label u) m)
unfolding with_targets get
has-with_targets u m [] = refl
has-with_targets u m ((t, x) ∷ ts) = ground (
  arith,
  has-with_targets u (put (gen_target_label t) check_mark m) ts,
  get-put (gen_target_label t) (gen_target_label u) check_mark m,
  gen_target_label_eq t u,
)

id_prefix : has_prefix volume_id_label_prefix label_prefix ≡ true
unfolding has_prefix
id_prefix = refl

target_prefix : has_prefix target_label_prefix label_prefix ≡ true
unfolding has_prefix
target_prefix = refl

-- No label of somebody else is one of the driver's.
foreign_label :
    (k p : Text)
    → has_prefix k label_prefix ≡ false
    → has_prefix p label_prefix ≡ true
    → has_prefix k p ≡ false
foreign_label k p h in_prefix =
    ground (arith, has_prefix_trans k p label_prefix, Bool-cases (has_prefix k p))

module _ (is_named : Text → Bool) (name : Text) where
  -- The loop ends, and a target is among those found if it was before or has a label; none is found
  -- twice.
  abbrev pub Scanned : Labels → TargetSet → Scan → Type 0
  Scanned m found s =
      (ts : TargetSet) × (s ≡ targets_found ts)
      × ((u : Text) → has u ts ≡ (has (gen_target_label u) m || has u found))
      × (Distinct found → Distinct ts)

  scan_foreign :
      (k v : Text) (m : Labels) (found : TargetSet)
      → has_prefix k label_prefix ≡ false
      → scan_labels is_named name ((k, v) ∷ m) found ≡ scan_labels is_named name m found
  unfolding scan_labels
  scan_foreign k v m found h =
      rw
        (
          foreign_label k volume_id_label_prefix h id_prefix,
          foreign_label k target_label_prefix h target_prefix,
        )
        refl

  scan_target :
      (t v : Text) (m : Labels) (found : TargetSet)
      → scan_labels is_named name ((gen_target_label t, v) ∷ m) found
        ≡ scan_labels is_named name m (put t tt found)
  unfolding scan_labels has_prefix
  scan_target t v m found = ground arith

  pub scan-Scanned :
      (m : Labels) (found : TargetSet)
      → All Known m
      → Scanned m found (scan_labels is_named name m found)
  unfolding get scan_labels
  scan-Scanned [] found a = (found, refl, λ u. refl, λ d. d)
  scan-Scanned ((k, v) ∷ m) found (inl foreign, a) =
      let (ts, e, h, once) = scan-Scanned m found a in
      (
        ts,
        scan_foreign k v m found foreign ∙ e,
        λ u. ground (arith, h u, gen-has_prefix u, text_eq_iff k (gen_target_label u)),
        once,
      )
  scan-Scanned ((k, v) ∷ m) found (inr (t, same), a) =
      let (ts, e, h, once) = scan-Scanned m (put t tt found) a in
      (
        ts,
        ap (λ key. scan_labels is_named name ((key, v) ∷ m) found) same
            ∙ scan_target t v m found
            ∙ e,
        λ u. ground (arith, h u, same, gen_target_label_eq t u, get-put t u tt found),
        λ d. once (put-Distinct t tt found d),
      )

  -- After an update of a snapshot's labels to a set of targets, whatever its labels were and whatever
  -- its name is: the list reads back just these targets, and neither panics at the snapshot nor skips
  -- it as one of an old version.
  pub scan-update_labels :
      (labels : Labels) (targets : TargetSet)
      → (found : TargetSet) × (scan_labels is_named name (update_labels labels targets) []
          ≡ targets_found found)
        × ((u : Text) → has u found ≡ has u targets)
  unfolding update_labels
  scan-update_labels labels targets =
      let plain = without_driver_labels labels in
      let (found, e, h, _) =
        scan-Scanned (with_targets plain targets) []
          (with_targets-Known plain targets (without-Known labels)) in
      (
        found,
        e,
        λ u. ground (
          arith,
          h u,
          has-with_targets u plain targets,
          has-without u labels,
          get-nil {V = Unit {0}} u,
        ),
      )
