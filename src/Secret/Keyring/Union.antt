-- ===== src/Secret/Keyring/Union.antt =====
-- A union of keyrings gives the credentials of each, in order.
use container_image_csi_driv.Base.{
  ◌≡◌, refl, sym, ap, Bool, true, false, List, [], ◌∷◌, Option, none, some, is_empty, append-nil,
  inl, inr, Bool-cases,
}
use container_image_csi_driv.Text.{Text}
use container_image_csi_driv.Secret.Registry.{split_image_name}
use container_image_csi_driv.Secret.Auth.{AuthConfig, DockerConfig}
use container_image_csi_driv.Secret.Keyring.{
  Found, Keyring, basic, union, plugins, Keyrings, end, nil, ring, matches_of, with_found,
  lookup_registry, lookup_basic, join_found, lookup, lookup_all,
}

-- What is not found has no credentials.
abbrev pub Tidy : Found → Type 0
Tidy none = Unit
Tidy (some (found, true)) = Unit
Tidy (some (found, false)) = found ≡ []

with_found-Tidy : (m : Option (List AuthConfig)) → Tidy (with_found m)
with_found-Tidy none = tt
with_found-Tidy (some []) = refl
with_found-Tidy (some (a ∷ found)) = tt

lookup_registry-Tidy :
    (configs : List DockerConfig) (parts : List Text) → Tidy (lookup_registry configs parts)
unfolding lookup_registry
lookup_registry-Tidy configs [] = refl
lookup_registry-Tidy configs (p ∷ parts) = elim (Bool-cases (is_empty p)) [
  | inl e ↦ rw e refl
  | inr n ↦ rw n (with_found-Tidy (matches_of configs p))
]

join_found-Tidy : (f g : Found) → Tidy f → Tidy g → Tidy (join_found f g)
join_found-Tidy none g hf hg = tt
join_found-Tidy (some f) none hf hg = tt
join_found-Tidy (some (found, false)) (some g) hf hg = hg
join_found-Tidy (some (found, true)) (some g) hf hg = tt

pub join_found-none : (f : Found) → Tidy f → join_found f (some ([], false)) ≡ f
join_found-none none h = refl
join_found-none (some (found, true)) h =
    ap (λ (l : List AuthConfig). some (l, true)) (append-nil found)
join_found-none (some (found, false)) h = ap (λ (l : List AuthConfig). some (l, false)) (sym h)

pub join_found-empty : (g : Found) → join_found (some ([], false)) g ≡ g
join_found-empty none = refl
join_found-empty (some (found, ok)) = refl

empty_registry : (parts : List Text) → lookup_registry [] parts ≡ some ([], false)
unfolding lookup_registry matches_of
empty_registry [] = refl
empty_registry (p ∷ parts) = elim (Bool-cases (is_empty p)) [
  | inl e ↦ rw e refl
  | inr n ↦ rw n refl
]

pub lookup_basic-nil : (image : Text) → lookup_basic [] image ≡ some ([], false)
unfolding lookup_basic
lookup_basic-nil image = empty_registry (split_image_name image)

module _ (plugin_lookup : Text → List AuthConfig × Bool)
    (plugin_tidy : (image : Text) → Tidy (some (plugin_lookup image))) where
  mutual
    unfolding lookup lookup_all lookup_basic

    pub lookup-Tidy : (k : Keyring) (image : Text) → Tidy (lookup plugin_lookup k image)
    lookup-Tidy (basic configs) image = lookup_registry-Tidy configs (split_image_name image)
    lookup-Tidy (union rings) image = lookup_all-Tidy rings image
    lookup-Tidy plugins image = plugin_tidy image

    lookup_all-Tidy :
        (rings : Keyrings) (image : Text) → Tidy (lookup_all plugin_lookup rings image)
    lookup_all-Tidy end image = refl
    lookup_all-Tidy (nil rings) image = lookup_all-Tidy rings image
    lookup_all-Tidy (ring k rings) image =
        join_found-Tidy (lookup plugin_lookup k image) (lookup_all plugin_lookup rings image)
          (lookup-Tidy k image) (lookup_all-Tidy rings image)
