-- ===== src/Backend/Mounter/Restart/Targets.antt =====
-- The targets of a snapshot that are mount points.
use container_image_csi_driv.Base.{
  ◌≤◌, ◌≡◌, refl, Bool, ◌&&◌, [], ◌∷◌, some, arith, nat_eq, if◌then◌else◌, length, Bool-cases,
}
use container_image_csi_driv.Text.{Text, Text-eq, text_eq_iff}
use container_image_csi_driv.Dict.{Dict, Distinct, get, has, put, get-put}
use container_image_csi_driv.Backend.Metadata.{TargetSet}
use container_image_csi_driv.Backend.Mounter.Restart.{keep_mounted, put_keys}

module _ (mounted : Text → Bool) where
  pub has-keep_mounted :
      (u : Text) (ts : TargetSet) → has u (keep_mounted mounted ts) ≡ (has u ts && mounted u)
  unfolding keep_mounted get
  has-keep_mounted u [] = refl
  has-keep_mounted u ((t, x) ∷ ts) =
      ground (arith, has-keep_mounted u ts, text_eq_iff t u, Bool-cases (mounted t))

  pub keep_mounted-Distinct : (ts : TargetSet) → Distinct ts → Distinct (keep_mounted mounted ts)
  unfolding keep_mounted get
  keep_mounted-Distinct [] d = tt
  keep_mounted-Distinct ((t, x) ∷ ts) d =
      ground (arith, keep_mounted-Distinct ts d.1, has-keep_mounted t ts)

  keep_mounted_le : (ts : TargetSet) → length (keep_mounted mounted ts) ≤ length ts
  unfolding keep_mounted
  keep_mounted_le [] = omega arith
  keep_mounted_le ((t, x) ∷ ts) = ground (arith, keep_mounted_le ts)

  -- If none is left out, the set is the same.
  pub keep_mounted_all :
      (ts : TargetSet) → length (keep_mounted mounted ts) ≡ length ts → keep_mounted mounted ts ≡ ts
  unfolding keep_mounted
  keep_mounted_all [] e = refl
  keep_mounted_all ((t, x) ∷ ts) e = ground (arith, keep_mounted_le ts, keep_mounted_all ts)

pub get-put_keys :
    (key u : Text) (ts : TargetSet) (m : Dict Text Text)
    → get u (put_keys key ts m) ≡ (if has u ts then some key else get u m)
unfolding put_keys get
get-put_keys key u [] m = refl
get-put_keys key u ((t, x) ∷ ts) m =
    ground (arith, get-put_keys key u ts (put t key m), get-put t u key m)
