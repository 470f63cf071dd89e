-- ===== src/Exec.antt =====
-- Go code that changes state, may return an error, and may end the process (klog.Fatalf, panic).
-- What was written before an error stays written, so the state comes back on every outcome.
use container_image_csi_driv.Base.{◌≡◌, refl, ◌⊎◌, inl, inr, Bool, true, false, Option, none, some}

pub data Outcome {ℓ} (E A : Type ℓ) : Type ℓ where
  ok : A → Outcome E A
  err : E → Outcome E A
  crash : Outcome E A

pub ok-injective {ℓ} : {E A : Type ℓ} {a b : A} → ◌≡◌ {A = Outcome E A} (ok a) (ok b) → a ≡ b
ok-injective h = cc

-- To split on a computed outcome and keep the equation.
pub Outcome-cases {ℓ} :
    {E A : Type ℓ} (o : Outcome E A)
    → ((a : A) × (o ≡ ok a)) ⊎ (((e : E) × (o ≡ err e)) ⊎ (o ≡ crash))
Outcome-cases (ok a) = inl (a, refl)
Outcome-cases (err e) = inr (inl (e, refl))
Outcome-cases crash = inr (inr refl)

abbrev pub Exec {ℓ} : Type ℓ → Type ℓ → Type ℓ → Type ℓ
Exec S E A = S → Outcome E A × S

module _ {ℓ} {S E A B : Type ℓ} where
  abbrev pub continue : Outcome E A → S → (A → Exec S E B) → Outcome E B × S
  continue (ok a) s f = f a s
  continue (err e) s f = (err e, s)
  continue crash s f = (crash, s)

  infixl 5 ◌>>=◌ ◌>>◌
  abbrev pub ◌>>=◌ : Exec S E A → (A → Exec S E B) → Exec S E B
  ◌>>=◌ m f s = continue (m s).0 (m s).1 f

  abbrev pub ◌>>◌ : Exec S E A → Exec S E B → Exec S E B
  ◌>>◌ m n s = continue (m s).0 (m s).1 (λ _. n)

module _ {ℓ} {S E A : Type ℓ} where
  abbrev pub pure : A → Exec S E A
  pure a s = (ok a, s)

  abbrev pub raise : E → Exec S E A
  raise e s = (err e, s)

  abbrev pub fatal : Exec S E A
  fatal s = (crash, s)

  abbrev pub gets : (S → A) → Exec S E A
  gets f s = (ok (f s), s)

  -- `none` is a value that a type switch or an assertion does not accept.
  abbrev pub or_fatal : Option A → Exec S E A
  or_fatal none = fatal
  or_fatal (some a) = pure a

module _ {S E : Type 0} where
  abbrev pub modify : (S → S) → Exec S E Unit
  modify f s = (ok tt, f s)

  abbrev pub require : Bool → Exec S E Unit
  require true s = (ok tt, s)
  require false s = (crash, s)
