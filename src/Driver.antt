-- ===== src/Driver.antt =====
-- cmd/plugin/main.go: from the flags of the driver to the services that it starts. What the
-- mounters do when they start is in Backend/Mounter/Restart. net/url, the connection to the image
-- service and the configuration of the Kubernetes client are parameters.
pub mod Clients
mod Roles
mod Installed
mod Samples
use container_image_csi_driv.Base.{
  ℕ, Bool, true, false, ◌&&◌, ◌||◌, Option, none, some, is_empty, if◌then◌else◌,
}
use container_image_csi_driv.Text.{Text, codes, text_eq}
use container_image_csi_driv.Install.Kubelet.{ContainerRuntime, containerd, cri_o}
use container_image_csi_driv.Secret.Store.{Parsers, CredentialStore}
use container_image_csi_driv.Driver.Clients.{
  DriverFlags, Surroundings, new_watcher, create_store_or_die,
}

-- What the driver uses of net/url.
pub record UrlPackage : Type 1 where
  pub Url : Type 0
  pub parse : Text → Option Url
  pub scheme : Url → Text
  pub path : Url → Text
  pub with_scheme : Url → Text → Url
  pub to_text : Url → Text

-- backend.Mounter, by its constructor and its socket
pub record MounterAt : Type 0 where
  pub runtime : ContainerRuntime
  pub socket_path : Text

-- The configuration of the watcher's client, `none` for a nil watcher
pub record ControllerService : Type 0 where
  pub watcher : Option Text

module _ (parsers : Parsers) where
  pub record NodeService : Type 0 where
    pub node_id : Text
    pub mounter : Option MounterAt
    pub image_service : Text
    pub secret_store : CredentialStore parsers
    pub async_pull_timeout : ℕ

  -- The arguments of server.Start.
  pub record Served : Type 0 where
    pub endpoint : Text
    pub controller : Option ControllerService
    pub node : Option NodeService

  -- klog.Fatalf, no server, or server.Start
  pub data Start : Type 0 where
    fatal : Start
    idle : Start
    serving : Served → Start

abbrev pub scheme_name : ContainerRuntime → Text
scheme_name containerd = codes "containerd"
scheme_name cri_o = codes "cri-o"

unfoldable pub runtime_of_scheme : Text → Option ContainerRuntime
runtime_of_scheme scheme =
    if text_eq scheme (scheme_name containerd)
    then some containerd
    else if text_eq scheme (scheme_name cri_o)
    then some cri_o
    else none

module _ (urls : UrlPackage) (parsers : Parsers) (s : Surroundings) where
  open urls use {Url, parse, scheme, path, with_scheme, to_text}

  -- *runtimeAddr, where the deprecated flag stands in for it
  unfoldable pub runtime_address : DriverFlags → Option Text
  runtime_address f =
      if is_empty f.runtime_addr
      then if is_empty f.containerd_addr then none else elim (parse f.containerd_addr) [
        | none ↦ none
        | some addr ↦ some (to_text (with_scheme addr (scheme_name containerd)))
      ]
      else some f.runtime_addr

  -- The mounter, and the address of the image service.
  unfoldable pub mounter_of_url : Url → Option (Option MounterAt × Text)
  unfolding runtime_of_scheme
  mounter_of_url addr = elim (runtime_of_scheme (scheme addr)) [
    | none ↦ none
    | some runtime ↦ some (
      some (record { runtime = runtime; socket_path = path addr }),
      to_text (with_scheme addr (codes "unix")),
    )
  ]

  unfoldable pub choose_mounter : Text → Option (Option MounterAt × Text)
  unfolding mounter_of_url
  choose_mounter address =
      if is_empty address
      then some (none, address)
      else elim (parse address) [ none ↦ none | some addr ↦ mounter_of_url addr ]

  unfoldable pub serve_node : DriverFlags → Option MounterAt → Text → Start parsers
  unfolding create_store_or_die
  serve_node f mounter image_service =
      if s.connect_image_service image_service
      then elim (create_store_or_die parsers s f) [
        | none ↦ fatal
        | some store ↦ serving record {
          endpoint = f.endpoint;
          controller = none;
          node = some (record {
            node_id = f.node;
            mounter = mounter;
            image_service = image_service;
            secret_store = store;
            async_pull_timeout = f.async_pull_timeout;
          });
        }
      ]
      else fatal

  unfoldable pub start_node : DriverFlags → Start parsers
  unfolding runtime_address choose_mounter serve_node
  start_node f = elim (runtime_address f) [
    | none ↦ fatal
    | some address ↦ elim (choose_mounter address) [
      | none ↦ fatal
      | some (mounter, image_service) ↦ serve_node f mounter image_service
    ]
  ]

  unfoldable pub start_controller : DriverFlags → Start parsers
  unfolding new_watcher
  start_controller f = elim (new_watcher s) [
    | none ↦ fatal
    | some watcher ↦ serving record {
      endpoint = f.endpoint;
      controller = some (record { watcher = watcher });
      node = none;
    }
  ]

  -- The switch on the mode; any other mode than the two starts no server.
  unfoldable pub start : DriverFlags → Start parsers
  unfolding start_node start_controller
  start f =
      if is_empty f.mode
      then fatal
      else if text_eq f.mode (codes "node")
      then start_node f
      else if text_eq f.mode (codes "controller")
      then start_controller f
      else idle
