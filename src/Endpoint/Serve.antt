-- ===== src/Endpoint/Serve.antt =====
-- pkg/csi-common/utils.go: `serve` of the gRPC server, up to its loop.
use container_image_csi_driv.Base.{
  ◌≡◌, ◌↔◌, refl, subst, some-injective, Bool-cases, Option-cases, inl, inr, Bool, true, false, not,
  ◌&&◌, ◌∷◌, Option, none, some, if◌then◌else◌,
}
use container_image_csi_driv.Text.{Text, codes, text_eq}
use container_image_csi_driv.Endpoint.{parse_endpoint, Parts, parse_endpoint_iff}

-- Which services are registered.
pub record Services : Type 0 where
  pub identity : Bool
  pub controller : Bool
  pub node : Bool

pub record Listening : Type 0 where
  pub protocol : Text
  pub address : Text
  pub registered : Services

-- The calls of the operating system; true for success.
pub record Network : Type 0 where
  -- os.Remove, where a file that does not exist is no error
  pub remove : Text → Bool
  -- net.Listen
  pub listen : Text → Text → Bool

abbrev pub is_unix : Text → Bool
is_unix protocol = text_eq protocol (codes "unix")

-- The address of a unix socket gets a slash in front.
abbrev pub address_of : Text → Text → Text
address_of protocol address = if is_unix protocol then b'/' ∷ address else address

module _ (network : Network) where
  unfoldable pub listen_at : Text → Text → Services → Option Listening
  listen_at protocol address services =
      if is_unix protocol && not (network.remove address)
      then none
      else if network.listen protocol address
      then some (record { protocol = protocol; address = address; registered = services })
      else none

  -- `none` for klog.Fatal
  unfoldable pub serve : Text → Services → Option Listening
  unfolding listen_at parse_endpoint
  serve endpoint services = elim (parse_endpoint endpoint) [
    | none ↦ none
    | some (protocol, address) ↦ listen_at protocol (address_of protocol address) services
  ]

  -- The server listens at the address of its endpoint, with the services that it was given.
  pub record Listened (endpoint : Text) (services : Services) (l : Listening) : Type 0 where
    pub given : Text
    pub parts : Parts endpoint l.protocol given
    pub placed : l.address ≡ address_of l.protocol given
    pub free : (is_unix l.protocol && not (network.remove l.address)) ≡ false
    pub open_port : network.listen l.protocol l.address ≡ true
    pub services_given : l.registered ≡ services

  module _ (endpoint : Text) (services : Services) (l : Listening) where
    to_Listened : serve endpoint services ≡ some l → Listened endpoint services l
    unfolding serve listen_at
    to_Listened h = elim (Option-cases (parse_endpoint endpoint)) [
      | inl bad ↦ absurd (cc (rw (bad, serve) at h))
      | inr ((protocol, given), e) ↦
          let address = address_of protocol given in
          elim (Bool-cases (is_unix protocol && not (network.remove address))) [
            | inl busy ↦ absurd (cc (rw (e, busy, serve, listen_at) at h))
            | inr free ↦ elim (Bool-cases (network.listen protocol address)) [
              | inl listens ↦
                  subst (Listened endpoint services)
                    (some-injective _ l (rw (e, free, listens, serve, listen_at) at h))
                    record {
                      given = given;
                      parts = (parse_endpoint_iff endpoint protocol given).0 e;
                      placed = refl;
                      free = free;
                      open_port = listens;
                      services_given = refl;
                    }
              | inr refused ↦ absurd (cc (rw (e, free, refused, serve, listen_at) at h))
            ]
          ]
    ]

    from_Listened : Listened endpoint services l → serve endpoint services ≡ some l
    unfolding serve listen_at
    from_Listened p =
        let e = (parse_endpoint_iff endpoint l.protocol p.given).1 p.parts in
        rw (e, ← p.placed, p.free, p.open_port, ← p.services_given, serve, listen_at) refl

    -- The server comes up exactly if its endpoint is `unix://` or `tcp://` before an address that is
    -- not empty, the file of a unix socket could be removed or was not there, and listening
    -- succeeds; a unix socket's address is the endpoint's after one more slash. It has the services
    -- that it was given.
    pub serve_iff : (serve endpoint services ≡ some l) ↔ Listened endpoint services l
    serve_iff = (to_Listened, from_Listened)
