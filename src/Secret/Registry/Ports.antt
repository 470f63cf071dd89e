-- ===== src/Secret/Registry/Ports.antt =====
-- How the three readings of an image name compare, on names with and without a port.
use container_image_csi_driv.Base.{
  ℕ, ◌≡◌, ◌≢◌, refl, sym, ap, ◌∙◌, true, List, [], ◌∷◌, ◌++◌, some, arith, nat_beq_iff,
  if◌then◌else◌, All, All-append, append-nil, append_assoc,
}
use container_image_csi_driv.Text.{Text, codes}
use container_image_csi_driv.Strings.{
  split, cons_first, first_part, contains_any, contains_byte, split-cons,
}
use container_image_csi_driv.Secret.Registry.{
  docker_io, index_docker_io, is_host, registry_of_parts, split_image_name,
  extract_registry_from_image, server_url_of_parts, extract_server_url,
}

-- No byte of the text is `c`.
abbrev pub Lacks : ℕ → Text → Type 0
Lacks c = All (λ x. x ≢ c)

prepend : Text → List Text → List Text
prepend [] ps = ps
prepend (c ∷ s) ps = cons_first c (prepend s ps)

split-append : (s r : Text) (sep : ℕ) → Lacks sep s → split (s ++ r) sep ≡ prepend s (split r sep)
unfolding split prepend
split-append [] r sep h = refl
split-append (c ∷ s) r sep h = ground (arith, split-append s r sep h.1)

prepend-cons : (s p : Text) (ps : List Text) → prepend s (p ∷ ps) ≡ (s ++ p) ∷ ps
unfolding prepend
prepend-cons [] p ps = refl
prepend-cons (c ∷ s) p ps = ap (cons_first c) (prepend-cons s p ps)

split_here : (r : Text) (sep : ℕ) → split (sep ∷ r) sep ≡ [] ∷ split r sep
unfolding split
split_here r sep = ground arith

-- A split at the first separator.
pub split_at : (s r : Text) (sep : ℕ) → Lacks sep s → split (s ++ sep ∷ r) sep ≡ s ∷ split r sep
split_at s r sep h =
    split-append s (sep ∷ r) sep h
    ∙ ap (prepend s) (split_here r sep)
    ∙ prepend-cons s [] (split r sep)
    ∙ ap (λ (t : Text). t ∷ split r sep) (append-nil s)

split_other :
    (c sep : ℕ) (s p : Text) (ps : List Text)
    → c ≢ sep
    → split s sep ≡ p ∷ ps
    → split (c ∷ s) sep ≡ (c ∷ p) ∷ ps
unfolding split
split_other c sep s p ps n e = ground (arith, nat_beq_iff c sep)

-- What stands before the first separator, behind a text that has none.
first_part-append :
    (s r : Text) (sep : ℕ)
    → Lacks sep s
    → first_part (split (s ++ r) sep) ≡ s ++ first_part (split r sep)
first_part-append s r sep h =
    let (p, ps, e) = split-cons r sep in rw (split-append s r sep h, e, prepend-cons s p ps) refl

-- A name `host/rest`, cut at a byte that `host` does not have.
first_part-host :
    (host r : Text) (sep : ℕ)
    → Lacks sep host
    → sep ≢ b'/'
    → first_part (split (host ++ b'/' ∷ r) sep) ≡ host ++ b'/' ∷ first_part (split r sep)
first_part-host host r sep h n =
    let (p, ps, e) = split-cons r sep in
    first_part-append host (b'/' ∷ r) sep h
    ∙ ap (◌++◌ host) (rw (e, split_other b'/' sep r p ps (λ q. n (sym q)) e) refl)

module _ (host : Text) (no_slash : Lacks b'/' host) where
  registry_of_host :
      (r : Text)
      → registry_of_parts (split (host ++ b'/' ∷ r) b'/')
        ≡ (if is_host host then host else docker_io)
  unfolding registry_of_parts
  registry_of_host r =
      let (p, ps, e) = split-cons r b'/' in rw (split_at host r b'/' no_slash, e) refl

  server_url_of_host :
      (r : Text)
      → server_url_of_parts (split (host ++ b'/' ∷ r) b'/')
        ≡ some (if is_host host then codes "https://" ++ host else index_docker_io)
  unfolding server_url_of_parts
  server_url_of_host r =
      let (p, ps, e) = split-cons r b'/' in rw (split_at host r b'/' no_slash, e) (ground arith)

  module _ (no_at : Lacks b'@' host) where
    pub extract_registry-host :
        (r : Text)
        → extract_registry_from_image (host ++ b'/' ∷ r)
          ≡ (if is_host host then host else docker_io)
    unfolding extract_registry_from_image
    extract_registry-host r =
        rw (first_part-host host r b'@' no_at (omega arith))
          (registry_of_host (first_part (split r b'@')))

    -- On a name `host/rest`, where `host` has no slash, no at sign and no colon: the registry of
    -- extractRegistryFromImage, the one of splitImageName and the server URL of extractServerURL are
    -- all those of `host` if it has a dot, and all those of Docker Hub if not.
    registries_agree :
        (r : Text)
        → Lacks b':' host
        → (extract_registry_from_image (host ++ b'/' ∷ r)
            ≡ (if is_host host then host else docker_io))
          × (split_image_name (host ++ b'/' ∷ r) ≡ (if is_host host then host else docker_io) ∷ [])
          × (extract_server_url (host ++ b'/' ∷ r)
              ≡ some (if is_host host then codes "https://" ++ host else index_docker_io))
    unfolding split_image_name extract_server_url
    registries_agree r no_port = (
      extract_registry-host r,
      ap (λ (t : Text). t ∷ []) (registry_of_host r),
      rw (first_part-host host r b'@' no_at (omega arith)) (
          rw (first_part-host host (first_part (split r b'@')) b':' no_port (omega arith))
            (server_url_of_host _)),
    )

pub split_whole : (s : Text) (sep : ℕ) → Lacks sep s → split s sep ≡ s ∷ []
unfolding split
split_whole [] sep h = refl
split_whole (c ∷ s) sep h = ground (arith, split_whole s sep h.1)

contains_any-append :
    (s r chars : Text) → contains_any r chars ≡ true → contains_any (s ++ r) chars ≡ true
unfolding contains_any
contains_any-append [] r chars h = h
contains_any-append (c ∷ s) r chars h = ground (arith, contains_any-append s r chars h)

is_host-port : (host port : Text) → is_host (host ++ b':' ∷ port) ≡ true
is_host-port host port = contains_any-append host (b':' ∷ port) (codes ".:") (colon port)
  where
    colon : (port : Text) → contains_any (b':' ∷ port) (codes ".:") ≡ true
    colon port = unfold contains_any contains_byte in refl

Lacks-append : (c : ℕ) (s r : Text) → Lacks c s → Lacks c r → Lacks c (s ++ r)
Lacks-append c s r hs hr = All-append (λ x. x ≢ c) s r hs hr

first_part-before :
    (host r : Text)
    → Lacks b'@' host
    → first_part (split (host ++ b':' ∷ r) b'@') ≡ host ++ b':' ∷ first_part (split r b'@')
first_part-before host r h =
    let (p, ps, e) = split-cons r b'@' in
    first_part-append host (b':' ∷ r) b'@' h
    ∙ ap (◌++◌ host) (rw (e, split_other b':' b'@' r p ps (omega arith) e) refl)

-- On a name `host:port/rest`, where `host` has no slash, at sign or colon and `port` no slash or at
-- sign: the registry is `host:port`, and yet the server URL is Docker Hub's, whatever the host is.
pub server_url_drops_port :
    (host port r : Text)
    → Lacks b'/' host
    → Lacks b'@' host
    → Lacks b':' host
    → Lacks b'/' port
    → Lacks b'@' port
    → (extract_registry_from_image (host ++ b':' ∷ (port ++ b'/' ∷ r)) ≡ host ++ b':' ∷ port)
      × (extract_server_url (host ++ b':' ∷ (port ++ b'/' ∷ r)) ≡ some index_docker_io)
unfolding extract_server_url server_url_of_parts
server_url_drops_port host port r hs ha hc ps pa = (
  rw (← append_assoc host (b':' ∷ port) (b'/' ∷ r)) (
      extract_registry-host (host ++ b':' ∷ port)
        (Lacks-append b'/' host (b':' ∷ port) hs (omega arith, ps))
        (Lacks-append b'@' host (b':' ∷ port) ha (omega arith, pa)) r
      ∙ rw (is_host-port host port) refl),
  rw
      (
        first_part-before host (port ++ b'/' ∷ r) ha,
        split_at host (first_part (split (port ++ b'/' ∷ r) b'@')) b':' hc,
        split_whole host b'/' hs,
      )
      refl,
)
