-- ===== src/Endpoint.antt =====
-- pkg/csi-common/utils.go: `parseEndpoint`, the address on which the driver listens.
mod Serve
mod Samples
use container_image_csi_driv.Base.{
  ◌+◌, ◌≡◌, ◌≢◌, ◌↔◌, refl, sym, subst, some-injective, ap, ◌∙◌, ◌⊎◌, inl, inr, Bool, true, false,
  ◌||◌, [], ◌∷◌, ◌++◌, Option, none, some, arith, length, take, drop, is_empty, if◌then◌else◌,
  Bool-cases,
}
use container_image_csi_driv.Text.{Text, codes}
use container_image_csi_driv.Strings.{has_prefix, has_prefix_sound, has_prefix-append, index}

abbrev pub separator : Text
separator = codes "://"

-- strings.SplitN(ep, "://", 2), where it gives two parts
unfoldable pub split_scheme : Text → Option (Text × Text)
split_scheme ep = elim (index ep separator) [
  | none ↦ none
  | some i ↦ some (take i ep, drop (i + length separator) ep)
]

-- The scheme and the address. With the prefix, there are always two parts.
unfoldable pub parse_endpoint : Text → Option (Text × Text)
parse_endpoint ep =
    if has_prefix ep (codes "unix://") || has_prefix ep (codes "tcp://")
    then elim (split_scheme ep) [
      | none ↦ none
      | some (scheme, address) ↦ if is_empty address then none else some (scheme, address)
    ]
    else none

abbrev pub endpoint : Text → Text → Text
endpoint scheme address = scheme ++ (separator ++ address)

abbrev answer_of : Text → Text → Option (Text × Text)
answer_of scheme address = if is_empty address then none else some (scheme, address)

parse-unix :
    (address : Text)
    → parse_endpoint (endpoint (codes "unix") address) ≡ answer_of (codes "unix") address
unfolding parse_endpoint split_scheme index has_prefix
parse-unix address = refl

parse-tcp :
    (address : Text)
    → parse_endpoint (endpoint (codes "tcp") address) ≡ answer_of (codes "tcp") address
unfolding parse_endpoint split_scheme index has_prefix
parse-tcp address = refl

-- The two parts of an endpoint.
pub record Parts (ep scheme address : Text) : Type 0 where
  pub known : (scheme ≡ codes "unix") ⊎ (scheme ≡ codes "tcp")
  pub filled : is_empty address ≡ false
  pub whole : ep ≡ endpoint scheme address

answer-Parts :
    (known address scheme got ep : Text)
    → (known ≡ codes "unix") ⊎ (known ≡ codes "tcp")
    → ep ≡ endpoint known address
    → answer_of known address ≡ some (scheme, got)
    → Parts ep scheme got
answer-Parts known [] scheme got ep k e h = absurd cc
answer-Parts known (c ∷ address) scheme got ep k e h =
    subst (λ (p : Text × Text). Parts ep p.0 p.1) (some-injective _ (scheme, got) h)
      (record { known = k; filled = refl; whole = e })

module _ (ep scheme address : Text) where
  to_Parts : parse_endpoint ep ≡ some (scheme, address) → Parts ep scheme address
  unfolding parse_endpoint
  to_Parts h = elim (Bool-cases (has_prefix ep (codes "unix://"))) [
    | inl unix ↦
        let e = has_prefix_sound ep (codes "unix://") unix in
        answer-Parts (codes "unix") (drop 7 ep) scheme address ep (inl refl) e (
          sym (parse-unix (drop 7 ep)) ∙ subst (λ x. parse_endpoint x ≡ some (scheme, address)) e h)
    | inr no_unix ↦ elim (Bool-cases (has_prefix ep (codes "tcp://"))) [
      | inl tcp ↦
          let e = has_prefix_sound ep (codes "tcp://") tcp in
          answer-Parts (codes "tcp") (drop 6 ep) scheme address ep (inr refl) e (
            sym (parse-tcp (drop 6 ep))
            ∙ subst (λ x. parse_endpoint x ≡ some (scheme, address)) e h)
      | inr no_tcp ↦ absurd (cc (rw (no_unix, no_tcp) at h))
    ]
  ]

  from_Parts : Parts ep scheme address → parse_endpoint ep ≡ some (scheme, address)
  from_Parts p = elim p.known [
    | inl e ↦ rw (p.whole, e) (parse-unix address ∙ rw p.filled refl)
    | inr e ↦ rw (p.whole, e) (parse-tcp address ∙ rw p.filled refl)
  ]

  -- An endpoint is accepted exactly if it is `unix://` or `tcp://` before an address that is not
  -- empty, and its parts are then that scheme and that address.
  pub parse_endpoint_iff : (parse_endpoint ep ≡ some (scheme, address)) ↔ Parts ep scheme address
  parse_endpoint_iff = (to_Parts, from_Parts)
