-- ===== src/Secret/Keyring/Addresses.antt =====
-- What a keyring of docker configs returns.
use container_image_csi_driv.Base.{
  ◌≡◌, refl, List, [], ◌∷◌, Option, none, some, not, is_empty, inl, inr, Bool-cases, All,
}
use container_image_csi_driv.Text.{Text}
use container_image_csi_driv.Secret.Registry.{split_image_name}
use container_image_csi_driv.Secret.Auth.{
  AuthConfig, DockerConfig, Match, nil_entry, unmatched, matched, match_registry,
}
use container_image_csi_driv.Secret.Auth.Precedence.{match_registry-server_address}
use container_image_csi_driv.Secret.Keyring.{
  Found, matches_of, with_match, with_found, lookup_registry, lookup_basic,
}

abbrev NoAddress : AuthConfig → Type 0
NoAddress a = a.server_address ≡ []

-- The credentials have no server address, and the flag tells whether there are any.
abbrev pub Announced : Found → Type 0
Announced none = Unit
Announced (some (found, ok)) = All NoAddress found × (ok ≡ not (is_empty found))

abbrev Addressed : Option (List AuthConfig) → Type 0
Addressed none = Unit
Addressed (some found) = All NoAddress found

with_match-Addressed :
    (m : Match) (later : Option (List AuthConfig))
    → ((b : AuthConfig) → m ≡ matched b → NoAddress b)
    → Addressed later
    → Addressed (with_match m later)
with_match-Addressed nil_entry later h k = tt
with_match-Addressed unmatched later h k = k
with_match-Addressed (matched a) none h k = tt
with_match-Addressed (matched a) (some found) h k = (h a refl, k)

matches_of-Addressed : (configs : List DockerConfig) (r : Text) → Addressed (matches_of configs r)
unfolding matches_of
matches_of-Addressed [] r = tt
matches_of-Addressed (cfg ∷ configs) r =
    with_match-Addressed (match_registry cfg r) (matches_of configs r)
      (λ b. match_registry-server_address r b cfg) (matches_of-Addressed configs r)

with_found-Announced : (m : Option (List AuthConfig)) → Addressed m → Announced (with_found m)
with_found-Announced none h = tt
with_found-Announced (some found) h = (h, refl)

lookup_registry-Announced :
    (configs : List DockerConfig) (parts : List Text) → Announced (lookup_registry configs parts)
unfolding lookup_registry
lookup_registry-Announced configs [] = (tt, refl)
lookup_registry-Announced configs (p ∷ parts) = elim (Bool-cases (is_empty p)) [
  | inl e ↦ rw e (tt, refl)
  | inr n ↦ rw n (with_found-Announced (matches_of configs p) (matches_of-Addressed configs p))
]

-- Whatever the docker configs are, a lookup that does not panic returns credentials without a server
-- address, and reports success exactly if it returns any.
pub lookup_basic-Announced :
    (configs : List DockerConfig) (image : Text) → Announced (lookup_basic configs image)
unfolding lookup_basic
lookup_basic-Announced configs image = lookup_registry-Announced configs (split_image_name image)
