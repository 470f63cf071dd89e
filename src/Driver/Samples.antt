-- ===== src/Driver/Samples.antt =====
-- A driver in the controller mode outside a cluster, one in the node mode, and URLs of a scheme and
-- a path.
use container_image_csi_driv.Base.{
  ◌≢◌, ◌∷◌, Option, All, ap, arith, drop, ◌≡◌, refl, ◌⊎◌, true, false, [], ◌++◌, none, some,
  is_empty,
}
use container_image_csi_driv.Text.{Text, codes, text_eq}
use container_image_csi_driv.Endpoint.{split_scheme}
use container_image_csi_driv.Install.Kubelet.{ContainerRuntime, containerd, cri_o, DriverConfig}
use container_image_csi_driv.Secret.Auth.{split_once}
use container_image_csi_driv.Secret.Auth.Normal.{split_once-append}
use container_image_csi_driv.Secret.Store.{Parsers, failed, ApiServer}
use container_image_csi_driv.Driver.Clients.{DriverFlags, not_in_cluster, Surroundings}
use container_image_csi_driv.Driver.{UrlPackage, Served, serving, start, scheme_name}
use container_image_csi_driv.Driver.Roles.{UrlLaws, NodeRole, ControllerRole, start-Role}
use container_image_csi_driv.Driver.Installed.{
  UrlParts, plain_scheme, scheme_bytes, plain_bytes, starts_with_slash, cri_addr, Understood,
  cri_addr-Understood,
}

abbrev urls : UrlPackage
urls = record {
  Url = Text × Text;
  parse = split_scheme;
  scheme = λ u. u.0;
  path = λ u. u.1;
  with_scheme = λ u scheme. (scheme, u.1);
  to_text = λ u. u.0 ++ (codes "://" ++ u.1);
}

abbrev no_parsers : Parsers
no_parsers = record {
  parse_docker_config_json = λ text. failed;
  parse_legacy_docker_config = λ text. failed;
}

abbrev server : ApiServer
server = record { service_account = none; secret = λ name. none }

abbrev outside : Surroundings
outside = record {
  in_cluster_config = not_in_cluster;
  default_config = some (codes "kubeconfig");
  client_for = λ config. true;
  current_namespace = none;
  api_server = λ namespace. server;
  register_plugins = λ config_file bin_dir. true;
  connect_image_service = λ address. true;
}

abbrev flags : DriverFlags
flags = record {
  endpoint = codes "unix:///csi/csi.sock";
  node = codes "node-1";
  containerd_addr = [];
  runtime_addr = codes "cri-o:///run/crio/crio.sock";
  image_credential_provider_config = [];
  image_credential_provider_bin_dir = [];
  node_plugin_sa = [];
  enable_cache = true;
  async_pull_timeout = 600;
  mode = codes "controller";
}

abbrev served : Served no_parsers
served = record {
  endpoint = codes "unix:///csi/csi.sock";
  controller = some (record { watcher = none });
  node = none;
}

controller_started : start urls no_parsers outside flags ≡ serving served
unfolding start text_eq
controller_started = refl

urls-UrlLaws : UrlLaws urls
urls-UrlLaws = record { filled = λ u r. filled u.1 r }
  where
    filled :
        (path : Text) (r : ContainerRuntime)
        → is_empty (scheme_name r ++ (codes "://" ++ path)) ≡ false
    filled path containerd = refl
    filled path cri_o = refl

start-Role_example :
    NodeRole urls no_parsers outside flags served
    ⊎ ControllerRole urls no_parsers outside flags served
start-Role_example = start-Role urls no_parsers outside flags served urls-UrlLaws controller_started

abbrev crio_config : DriverConfig
crio_config = record {
  kubelet_root = codes "/var/lib/kubelet";
  runtime = cri_o;
  runtime_socket_path = codes "/run/crio/crio.sock";
  image_socket_path = codes "/run/crio/crio.sock";
}

-- The scheme ends at the first colon; two slashes follow.
abbrev parts_of : Option (Text × Text) → Option (Text × Text)
parts_of none = none
parts_of (some (scheme, rest)) = some (scheme, drop 2 rest)

abbrev plain_urls : UrlPackage
plain_urls = record urls { parse = λ t. parts_of (split_once t b':') }

without_colon : (s : Text) → scheme_bytes s ≡ true → All (λ c. c ≢ b':') s
without_colon [] h = tt
without_colon (c ∷ s) h = (λ e. absurd (ground arith), without_colon s (ground arith))

scheme-bytes : (s : Text) → plain_scheme s ≡ true → scheme_bytes s ≡ true
scheme-bytes [] h = refl
scheme-bytes (c ∷ s) h = ground arith

plain_urls-UrlParts :
    (scheme p : Text)
    → plain_scheme scheme ≡ true
    → starts_with_slash p ≡ true
    → plain_bytes p ≡ true
    → UrlParts plain_urls scheme p
plain_urls-UrlParts scheme p plain slash bytes = record {
  url = (scheme, p);
  parsed = ap parts_of (
      split_once-append scheme (codes "//" ++ p) b':'
        (without_colon scheme (scheme-bytes scheme plain)));
  scheme_part = refl;
  path_part = refl;
  printed = λ other h. refl;
}

cri_addr-Understood_example : Understood plain_urls no_parsers outside flags crio_config
unfolding cri_addr
cri_addr-Understood_example =
    cri_addr-Understood plain_urls no_parsers outside flags plain_urls-UrlParts crio_config refl
      refl refl
