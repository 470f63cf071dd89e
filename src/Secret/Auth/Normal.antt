-- ===== src/Secret/Auth/Normal.antt =====
-- `normalizeAuthConfig`: the two forms of a credential agree.
use container_image_csi_driv.Base.{
  ℕ, ◌≡◌, ◌≢◌, refl, false, [], ◌∷◌, ◌++◌, some, arith, is_empty, All, All-append,
}
use container_image_csi_driv.Text.{Text}
use container_image_csi_driv.Secret.Base64.{encode}
use container_image_csi_driv.Secret.Base64.RoundTrip.{Bytes, decode-encode}
use container_image_csi_driv.Secret.Auth.{
  AuthConfig, split_once, decode_pair, with_pair, fill_pair, fill_auth, normalize_auth_config,
}

pub split_once-append :
    (s r : Text) (sep : ℕ) → All (λ c. c ≢ sep) s → split_once (s ++ sep ∷ r) sep ≡ some (s, r)
unfolding split_once
split_once-append [] r sep h = ground arith
split_once-append (c ∷ s) r sep h = ground (arith, split_once-append s r sep h.1)

is_empty-encode : (s : Text) → is_empty s ≡ false → is_empty (encode s) ≡ false
unfolding encode
is_empty-encode [] h = h
is_empty-encode (a ∷ []) h = refl
is_empty-encode (a ∷ b ∷ []) h = refl
is_empty-encode (a ∷ b ∷ c ∷ s) h = refl

is_empty-snoc : (s r : Text) (c : ℕ) → is_empty (s ++ c ∷ r) ≡ false
is_empty-snoc [] r c = refl
is_empty-snoc (x ∷ s) r c = refl

-- Normalising a credential twice is normalising it once.
normalize_idem :
    (a : AuthConfig) → normalize_auth_config (normalize_auth_config a) ≡ normalize_auth_config a
unfolding normalize_auth_config fill_pair fill_auth with_pair
normalize_idem a = ground (
  arith,
  is_empty-encode (a.username ++ b':' ∷ a.password),
  is_empty-snoc a.username a.password b':',
)

pub decode_pair-encode :
    (user password : Text)
    → Bytes user
    → Bytes password
    → All (λ c. c ≢ b':') user
    → decode_pair (encode (user ++ b':' ∷ password)) ≡ some (user, password)
unfolding decode_pair
decode_pair-encode user password hu hp hc =
    rw
      (
        decode_pair,
        decode-encode (user ++ b':' ∷ password)
            (All-append _ user (b':' ∷ password) hu (omega arith, hp)),
      )
      (split_once-append user password b':' hc)

-- A credential of a nonempty user name without a colon and a nonempty password, without `Auth`: the
-- `Auth` that it is given leads back to the same credential when it stands alone.
pub normalize_roundtrip :
    (a : AuthConfig)
    → is_empty a.username ≡ false
    → is_empty a.password ≡ false
    → a.auth ≡ []
    → Bytes a.username
    → Bytes a.password
    → All (λ c. c ≢ b':') a.username
    → let full = normalize_auth_config a in
      normalize_auth_config (record full { username = []; password = [] }) ≡ full
unfolding normalize_auth_config fill_pair fill_auth with_pair
normalize_roundtrip a hu hp ha bu bp colon = ground (
  arith,
  is_empty-encode (a.username ++ b':' ∷ a.password),
  is_empty-snoc a.username a.password b':',
  decode_pair-encode a.username a.password bu bp colon,
)
