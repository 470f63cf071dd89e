-- ===== src/Dict.antt =====
-- Go maps as association lists. Go ranges over a map in an order that it does not promise; here a
-- range goes through the list, so a statement about every list covers every order.
use container_image_csi_driv.Base.{
  suc, ◌<◌, ◌≡◌, refl, Bool, true, false, List, [], ◌∷◌, Option, none, some, arith, MapKey, ◌==◌,
  if◌then◌else◌, length, is_some,
}

abbrev pub Dict {ℓ} : Type ℓ → Type ℓ → Type ℓ
Dict K V = List (K × V)

module _ {ℓ} {K V : Type ℓ} ⦃e : MapKey K⦄ where
  -- v, ok := m[k]
  unfoldable pub get : K → Dict K V → Option V
  get k [] = none
  get k ((j, v) ∷ m) = if j == k then some v else get k m

  -- _, ok := m[k]
  abbrev pub has : K → Dict K V → Bool
  has k m = is_some (get k m)

  -- m[k] = v
  unfoldable pub put : K → V → Dict K V → Dict K V
  put k v [] = (k, v) ∷ []
  put k v ((key, old) ∷ rest) = if key == k then (k, v) ∷ rest else (key, old) ∷ put k v rest

  -- delete(m, k)
  unfoldable pub delete : K → Dict K V → Dict K V
  delete k [] = []
  delete k ((j, w) ∷ m) = let rest = delete k m in if j == k then rest else (j, w) ∷ rest

  -- The keys are pairwise different, as in every Go map.
  abbrev pub Distinct : Dict K V → Type ℓ
  Distinct [] = Unit
  Distinct ((k, v) ∷ m) = (has k m ≡ false) × Distinct m

  pub get-put :
      (k j : K) (v : V) (m : Dict K V) → get j (put k v m) ≡ (if k == j then some v else get j m)
  unfolding get put
  get-put k j v [] = refl
  get-put k j v ((i, w) ∷ m) =
      ground (arith, e.matches_iff k j, e.matches_iff i k, e.matches_iff i j, get-put k j v m)

  pub get-delete :
      (k j : K) (m : Dict K V) → get j (delete k m) ≡ (if k == j then none else get j m)
  unfolding get delete
  get-delete k j [] = ground arith
  get-delete k j ((i, w) ∷ m) =
      ground (arith, e.matches_iff k j, e.matches_iff i k, e.matches_iff i j, get-delete k j m)

  pub put-Distinct : (k : K) (v : V) (m : Dict K V) → Distinct m → Distinct (put k v m)
  unfolding get put
  put-Distinct k v [] d = ground arith
  put-Distinct k v ((i, w) ∷ m) d =
      ground (arith, e.matches_iff i k, e.matches_iff k i, get-put k i v m, put-Distinct k v m)

  pub delete-Distinct : (k : K) (m : Dict K V) → Distinct m → Distinct (delete k m)
  unfolding get delete
  delete-Distinct k [] d = ground arith
  delete-Distinct k ((i, w) ∷ m) d =
      ground (arith, e.matches_iff k i, get-delete k i m, delete-Distinct k m)

  pub delete_absent : (k : K) (m : Dict K V) → has k m ≡ false → delete k m ≡ m
  unfolding get delete
  delete_absent k [] h = refl
  delete_absent k ((i, w) ∷ m) h = ground (arith, delete_absent k m)

  -- A deletion of a present key removes exactly one entry.
  pub length-delete :
      (k : K) (m : Dict K V) → Distinct m → has k m ≡ true → length m ≡ suc (length (delete k m))
  unfolding get delete
  length-delete k [] d h = ground arith
  length-delete k ((i, w) ∷ m) d h =
      ground (arith, e.matches_iff i k, delete_absent k m, length-delete k m d.1)

  pub has-pos : (k : K) (m : Dict K V) → has k m ≡ true → 0 < length m
  unfolding get
  has-pos k [] h = ground arith
  has-pos k (x ∷ m) h = ground arith

  pub length-put-pos : (k : K) (v : V) (m : Dict K V) → 0 < length (put k v m)
  unfolding put
  length-put-pos k v [] = ground arith
  length-put-pos k v ((i, w) ∷ m) = ground arith

  nil_of_length : (m : Dict K V) → length m < 1 → m ≡ []
  nil_of_length [] h = refl
  nil_of_length (x ∷ m) h = absurd (omega arith)

  pub delete_sole :
      (k : K) (m : Dict K V) → Distinct m → has k m ≡ true → length m < 2 → delete k m ≡ []
  delete_sole k m d h few = nil_of_length (delete k m) (omega (arith, length-delete k m d h))

  pub get-nil : (k : K) → get k [] ≡ none
  unfolding get
  get-nil k = refl

  pub length-put_absent :
      (k : K) (v : V) (m : Dict K V) → has k m ≡ false → length (put k v m) ≡ suc (length m)
  unfolding get put
  length-put_absent k v [] h = refl
  length-put_absent k v ((i, w) ∷ m) h = ground (arith, length-put_absent k v m)
