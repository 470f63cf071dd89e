-- ===== src/Driver/Installed.antt =====
-- The address of the runtime that the installer's template gives to the driver.
use container_image_csi_driv.Base.{
  ℕ, ◌≡◌, refl, ap, ◌∙◌, Bool, true, false, ◌&&◌, ◌||◌, [], ◌∷◌, ◌++◌, some, nat_beq, leb, is_empty,
}
use container_image_csi_driv.Text.{Text, codes, text_eq}
use container_image_csi_driv.Install.Kubelet.{ContainerRuntime, containerd, cri_o, DriverConfig}
use container_image_csi_driv.Install.Setup.{runtime_name}
use container_image_csi_driv.Secret.Store.{Parsers}
use container_image_csi_driv.Driver.Clients.{DriverFlags, Surroundings}
use container_image_csi_driv.Driver.{
  UrlPackage, runtime_of_scheme, runtime_address, mounter_of_url, choose_mounter,
}

-- {{.Runtime}}://{{.RuntimeSocketPath}}
unfoldable pub cri_addr : DriverConfig → Text
cri_addr c = runtime_name c.runtime ++ (codes "://" ++ c.runtime_socket_path)

-- A letter, a digit, or one of / . - _
abbrev pub plain_byte : ℕ → Bool
plain_byte c =
    leb b'a' c && leb c b'z'
    || leb b'A' c && leb c b'Z'
    || leb b'0' c && leb c b'9'
    || nat_beq c b'/'
    || nat_beq c b'.'
    || nat_beq c b'-'
    || nat_beq c b'_'

abbrev pub plain_bytes : Text → Bool
plain_bytes [] = true
plain_bytes (c ∷ s) = plain_byte c && plain_bytes s

abbrev pub starts_with_slash : Text → Bool
starts_with_slash [] = false
starts_with_slash (c ∷ s) = nat_beq c b'/'

abbrev pub lower_letter : ℕ → Bool
lower_letter c = leb b'a' c && leb c b'z'

abbrev pub scheme_bytes : Text → Bool
scheme_bytes [] = true
scheme_bytes (c ∷ s) = (lower_letter c || nat_beq c b'-') && scheme_bytes s

-- Lower-case letters and -, a letter first.
abbrev pub plain_scheme : Text → Bool
plain_scheme [] = false
plain_scheme (c ∷ s) = lower_letter c && scheme_bytes s

-- `scheme://path` is split into the two, and is printed with another scheme in its place.
pub record UrlParts (urls : UrlPackage) (scheme p : Text) : Type 0 where
  pub url : urls.Url
  pub parsed : urls.parse (scheme ++ (codes "://" ++ p)) ≡ some url
  pub scheme_part : urls.scheme url ≡ scheme
  pub path_part : urls.path url ≡ p
  pub printed :
      (other : Text)
      → plain_scheme other ≡ true
      → urls.to_text (urls.with_scheme url other) ≡ other ++ (codes "://" ++ p)

addr_filled : (r : ContainerRuntime) (rest : Text) → is_empty (runtime_name r ++ rest) ≡ false
addr_filled containerd rest = refl
addr_filled cri_o rest = refl

-- The installer's constants are schemes, and those that the driver tells apart.
runtime_name-plain_scheme : (r : ContainerRuntime) → plain_scheme (runtime_name r) ≡ true
runtime_name-plain_scheme containerd = refl
runtime_name-plain_scheme cri_o = refl

runtime_of_scheme-runtime_name :
    (r : ContainerRuntime) → runtime_of_scheme (runtime_name r) ≡ some r
unfolding runtime_of_scheme text_eq
runtime_of_scheme-runtime_name containerd = refl
runtime_of_scheme-runtime_name cri_o = refl

module _ (urls : UrlPackage) (parsers : Parsers) (s : Surroundings) (f : DriverFlags) where
  -- What the driver makes of an installed address.
  pub record Understood (c : DriverConfig) : Type 0 where
    pub address : runtime_address urls parsers s f ≡ some (cri_addr c)
    pub mounter :
        choose_mounter urls parsers s (cri_addr c)
        ≡ some (
          some (record { runtime = c.runtime; socket_path = c.runtime_socket_path }),
          codes "unix://" ++ c.runtime_socket_path,
        )

  -- The driver understands the address of the runtime that the installer writes for it: it makes
  -- the mounter of the detected runtime at the detected socket, and calls the image service at that
  -- socket too, if the socket's path is absolute and of letters, digits and the signs / . - _, and the
  -- URL package splits and prints such addresses.
  pub cri_addr-Understood :
      ((scheme p : Text)
        → plain_scheme scheme ≡ true
        → starts_with_slash p ≡ true
        → plain_bytes p ≡ true
        → UrlParts urls scheme p)
      → (c : DriverConfig) → starts_with_slash c.runtime_socket_path ≡ true
      → plain_bytes c.runtime_socket_path ≡ true
      → f.runtime_addr ≡ cri_addr c
      → Understood c
  unfolding cri_addr runtime_address choose_mounter mounter_of_url
  cri_addr-Understood laws c slash plain given =
      let rest = codes "://" ++ c.runtime_socket_path in
      let p =
        laws (runtime_name c.runtime) c.runtime_socket_path (runtime_name-plain_scheme c.runtime)
          slash plain in
      let filled = addr_filled c.runtime rest in
      let known = ap runtime_of_scheme p.scheme_part ∙ runtime_of_scheme-runtime_name c.runtime in
      record {
        address = rw (given, filled, runtime_address) refl;
        mounter =
            rw
              (
                filled,
                p.parsed,
                known,
                p.path_part,
                p.printed (codes "unix") refl,
                choose_mounter,
                mounter_of_url,
                cri_addr,
              )
              refl;
      }
