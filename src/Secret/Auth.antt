-- ===== src/Secret/Auth.antt =====
-- pkg/secret/types.go: the entries of a docker config, `normalizeAuthConfig` and `matchRegistry`.
pub mod Normal
pub mod Precedence
use container_image_csi_driv.Base.{
  ℕ, Bool, true, false, not, ◌&&◌, ◌||◌, List, [], ◌∷◌, ◌++◌, Option, none, some, nat_beq,
  if◌then◌else◌, is_empty,
}
use container_image_csi_driv.Text.{Text, Text-eq, codes}
use container_image_csi_driv.Strings.{contains}
use container_image_csi_driv.Dict.{Dict, get}
use container_image_csi_driv.Secret.Base64.{encode, decode}

-- cri.AuthConfig
pub record AuthConfig : Type 0 where
  pub username : Text
  pub password : Text
  pub auth : Text
  pub server_address : Text
  pub identity_token : Text
  pub registry_token : Text

-- map[string]*cri.AuthConfig, in the order in which a `range` meets the entries; `none` is nil.
abbrev pub DockerConfig : Type 0
DockerConfig = Dict Text (Option AuthConfig)

-- strings.SplitN(s, sep, 2), where it gives two parts
unfoldable pub split_once : Text → ℕ → Option (Text × Text)
split_once [] sep = none
split_once (c ∷ s) sep =
    let rest = split_once s sep in
    if nat_beq c sep
    then some ([], s)
    else elim rest [ none ↦ none | some (p, q) ↦ some (c ∷ p, q) ]

-- decoded, err := DecodeString(auth.Auth), and the two parts around the colon
unfoldable pub decode_pair : Text → Option (Text × Text)
decode_pair auth = elim (decode auth) [ none ↦ none | some s ↦ split_once s b':' ]

pub with_pair : Option (Text × Text) → AuthConfig → AuthConfig
with_pair none a = a
with_pair (some (u, p)) a = record a { username = u; password = p }

-- If Auth field exists but Username/Password are empty, decode Auth
fill_pair : AuthConfig → AuthConfig
unfolding with_pair
fill_pair a =
    if not (is_empty a.auth) && (is_empty a.username && is_empty a.password)
    then with_pair (decode_pair a.auth) a
    else a

-- If Username/Password exist but Auth is empty, encode them
fill_auth : AuthConfig → AuthConfig
fill_auth a =
    if not (is_empty a.username) && (not (is_empty a.password) && is_empty a.auth)
    then record a { auth = encode (a.username ++ b':' ∷ a.password) }
    else a

unfoldable pub normalize_auth_config : AuthConfig → AuthConfig
unfolding fill_pair fill_auth
normalize_auth_config a = fill_auth (fill_pair a)

-- The copy of an entry, its server address left empty. A nil entry is dereferenced: `none`.
unfoldable pub copy_entry : Option AuthConfig → Option AuthConfig
copy_entry none = none
copy_entry (some a) = some (normalize_auth_config (record a { server_address = [] }))

-- The result of matchRegistry; reading a nil entry panics.
pub data Match : Type 0 where
  nil_entry : Match
  unmatched : Match
  matched : AuthConfig → Match

abbrev pub match_of : Option AuthConfig → Match
match_of none = nil_entry
match_of (some a) = matched a

-- strings.Contains(registryURL, registry) || strings.Contains(registry, registryURL)
abbrev pub partly : Text → Text → Bool
partly registry_url registry = contains registry_url registry || contains registry registry_url

-- for registry, entry := range cfg
pub match_partly : DockerConfig → Text → Match
match_partly [] registry_url = unmatched
match_partly ((registry, entry) ∷ cfg) registry_url =
    let later = match_partly cfg registry_url in
    if partly registry_url registry then match_of (copy_entry entry) else later

unfoldable pub match_registry : DockerConfig → Text → Match
unfolding match_partly
match_registry cfg registry_url = elim (get registry_url cfg) [
  | some entry ↦ match_of (copy_entry entry)
  | none ↦ elim (get (codes "https://" ++ registry_url) cfg) [
    | some entry ↦ match_of (copy_entry entry)
    | none ↦ elim (get (codes "http://" ++ registry_url) cfg) [
      | some entry ↦ match_of (copy_entry entry)
      | none ↦ match_partly cfg registry_url
    ]
  ]
]
