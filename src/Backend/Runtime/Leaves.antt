-- ===== src/Backend/Runtime/Leaves.antt =====
-- How an implementation of the interface shows its laws: calls that leave a part of the state alone,
-- and outcomes seen through a reading of the state.
use container_image_csi_driv.Base.{◌≡◌, refl, ap, ◌∙◌}
use container_image_csi_driv.Exec.{Exec, Outcome, ok, err, crash, continue, ◌>>=◌}
use container_image_csi_driv.Backend.Runtime.{Settles}

-- A call that leaves what `g` reads of the state.
abbrev pub Leaves : {S E A X : Type 0} → (S → X) → Exec S E A → Type 0
Leaves g m = (s : _) → g (m s).1 ≡ g s

module _ {S X E : Type 0} (g : S → X) where
  continue-Leaves :
      {A B : Type 0} (o : Outcome E A) (s : S) (f : A → Exec S E B)
      → ((a : A) → Leaves g (f a))
      → g (continue o s f).1 ≡ g s
  continue-Leaves (ok a) s f h = h a s
  continue-Leaves (err e) s f h = refl
  continue-Leaves crash s f h = refl

  pub bind-Leaves :
      {A B : Type 0} (m : Exec S E A) (f : A → Exec S E B)
      → Leaves g m
      → ((a : A) → Leaves g (f a))
      → Leaves g (m >>= f)
  bind-Leaves m f hm hf s = continue-Leaves (m s).0 (m s).1 f hf ∙ hm s

pub Settles-same : {E A B : Type 0} (o : Outcome E A) {x y : B} → x ≡ y → Settles o x y y
Settles-same (ok a) h = h
Settles-same (err e) h = h
Settles-same crash h = tt

pub Settles-map :
    {E A B C : Type 0} (o : Outcome E A) (f : B → C) (x y z : B) {y' z' : C}
    → f y ≡ y'
    → f z ≡ z'
    → Settles o x y z
    → Settles o (f x) y' z'
Settles-map (ok a) f x y z hy hz h = ap f h ∙ hy
Settles-map (err e) f x y z hy hz h = ap f h ∙ hz
Settles-map crash f x y z hy hz h = tt
