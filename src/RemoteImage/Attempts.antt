-- ===== src/RemoteImage/Attempts.antt =====
-- Which attempts a pull makes, and how it ends.
use container_image_csi_driv.Base.{
  ℕ, suc, ◌≡◌, refl, Bool, true, false, List, [], ◌∷◌, Option, none, some, is_empty, not, ◌||◌,
}
use container_image_csi_driv.Text.{Text}
use container_image_csi_driv.Exec.{Outcome, ok, err, crash}
use container_image_csi_driv.Secret.Auth.{AuthConfig}
use container_image_csi_driv.Secret.Keyring.{Found}
use container_image_csi_driv.RemoteImage.{
  ImageService, PullError, no_credentials, all_options, Puller, option_result, try_options,
  aggregate, try_credentials, with_credentials, after_first, pull,
}

module _ (svc : ImageService) (image : Text) where
  open svc use {State, Error, pull_image}

  -- The attempts with the credentials, in order and numbered, from one state to another: all fail
  -- with these errors, or those before one that succeeds.
  pub data AllFail (s' : State) : ℕ → List AuthConfig → State → List (ℕ × Error) → Type 0 where
    no_more : {n : ℕ} → AllFail s' n [] s' []
    fails :
        {n : ℕ} {auth : AuthConfig} {auths : List AuthConfig} {s t : State} {e : Error}
        {errs : List (ℕ × Error)}
        → pull_image image (some auth) s ≡ (some e, t)
        → AllFail s' (suc n) auths t errs
        → AllFail s' n (auth ∷ auths) s ((n, e) ∷ errs)

  pub data OneSucceeds (s' : State) : List AuthConfig → State → Type 0 where
    succeeds :
        {auth : AuthConfig} {auths : List AuthConfig} {s : State}
        → pull_image image (some auth) s ≡ (none, s')
        → OneSucceeds s' (auth ∷ auths) s
    passes :
        {auth : AuthConfig} {auths : List AuthConfig} {s t : State} {e : Error}
        → pull_image image (some auth) s ≡ (some e, t)
        → OneSucceeds s' auths t
        → OneSucceeds s' (auth ∷ auths) s

  -- What the loop over the options means.
  abbrev Tried : ℕ → List AuthConfig → State → List (ℕ × Error) × Bool × State → Type 0
  Tried n auths s (errs, true, s') = OneSucceeds s' auths s
  Tried n auths s (errs, false, s') = AllFail s' n auths s errs

  option-Tried :
      (n : ℕ) (auth : AuthConfig) (auths : List AuthConfig) (s : State) (r : Option Error × State)
      → pull_image image (some auth) s ≡ r
      → ((t : State) → Tried (suc n) auths t (try_options svc image (suc n) auths t))
      → Tried n (auth ∷ auths) s (option_result svc n r (try_options svc image (suc n) auths))
  option-Tried n auth auths s (none, t) e rest = succeeds e
  option-Tried n auth auths s (some x, t) e rest =
      next-Tried (try_options svc image (suc n) auths t) (rest t)
    where
      next-Tried :
          (o : List (ℕ × Error) × Bool × State)
          → Tried (suc n) auths t o
          → Tried n (auth ∷ auths) s ((n, x) ∷ o.0, o.1, o.2)
      next-Tried (errs, true, s') h = passes e h
      next-Tried (errs, false, s') h = fails e h

  try_options-Tried :
      (n : ℕ) (auths : List AuthConfig) (s : State)
      → Tried n auths s (try_options svc image n auths s)
  unfolding try_options
  try_options-Tried n [] s = no_more
  try_options-Tried n (auth ∷ auths) s =
      option-Tried n auth auths s (pull_image image (some auth) s) refl
        (try_options-Tried (suc n) auths)

module _ (svc : ImageService) (p : Puller) (lookup : Text → Found) where
  open svc use {State, Error, pull_image}

  -- How a pull from one state ends.
  pub data Pulled (s : State) : Outcome (PullError Error) Unit × State → Type 0 where
    anonymous :
        {s' : State} → pull_image p.image_with_tag none s ≡ (none, s') → Pulled s (ok tt, s')
    authorised :
        {t s' : State} {e : Error} {auths : List AuthConfig}
        → pull_image p.image_with_tag none s ≡ (some e, t)
        → lookup p.image_without_tag ≡ some (auths, true)
        → OneSucceeds svc p.image_with_tag s' auths t
        → Pulled s (ok tt, s')
    unauthorised :
        {t : State} {e : Error} {auths : List AuthConfig} {found : Bool}
        → pull_image p.image_with_tag none s ≡ (some e, t)
        → lookup p.image_without_tag ≡ some (auths, found)
        → (not found || is_empty auths) ≡ true
        → Pulled s (err (no_credentials e), t)
    refused :
        {t s' : State} {e : Error} {auths : List AuthConfig} {errs : List (ℕ × Error)}
        → pull_image p.image_with_tag none s ≡ (some e, t)
        → lookup p.image_without_tag ≡ some (auths, true)
        → AllFail svc p.image_with_tag s' 1 auths t errs
        → Pulled s (err (all_options errs), s')
    panics :
        {t : State} {e : Error}
        → pull_image p.image_with_tag none s ≡ (some e, t)
        → lookup p.image_without_tag ≡ none
        → Pulled s (crash, t)

  module _ (s t : State) (e : Error)
      (first : pull_image p.image_with_tag none s ≡ (some e, t)) where
    tried :
        (auths : List AuthConfig)
        → lookup p.image_without_tag ≡ some (auths, true)
        → (o : List (ℕ × Error) × Bool × State) → Tried svc p.image_with_tag 1 auths t o
        → Pulled s (aggregate svc o)
    tried auths found (errs, true, s') h = authorised first found h
    tried auths found (errs, false, s') h = refused first found h

    looked_up :
        (r : Found)
        → lookup p.image_without_tag ≡ r
        → Pulled s (with_credentials svc p.image_with_tag e r t)
    unfolding with_credentials try_credentials
    looked_up none found = panics first found
    looked_up (some (auths, false)) found = unauthorised first found refl
    looked_up (some ([], true)) found = unauthorised first found refl
    looked_up (some (a ∷ auths, true)) found =
        tried (a ∷ auths) found (try_options svc p.image_with_tag 1 (a ∷ auths) t)
          (try_options-Tried svc p.image_with_tag 1 (a ∷ auths) t)

  after_first-Pulled :
      (s : State) (r : Option Error × State)
      → pull_image p.image_with_tag none s ≡ r
      → Pulled s (after_first svc p lookup r)
  unfolding after_first
  after_first-Pulled s (none, t) first = anonymous first
  after_first-Pulled s (some e, t) first = looked_up s t e first (lookup p.image_without_tag) refl

  -- A pull asks without credentials first. If that fails, it tries the credentials that the keyring
  -- has for the image, in their order, up to the first that succeeds. It returns an error only if
  -- there are none or all fail, with the errors of all options in order; it panics only where the
  -- lookup does.
  pub pull-Pulled : (s : State) → Pulled s (pull svc p lookup s)
  unfolding pull
  pull-Pulled s = after_first-Pulled s (pull_image p.image_with_tag none s) refl
