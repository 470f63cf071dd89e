-- ===== src/Driver/Roles.antt =====
-- Which services the driver starts, and over what.
use container_image_csi_driv.Base.{
  ◌≡◌, ◌⊎◌, refl, subst, ap, ◌∙◌, inl, inr, true, false, none, some, some-injective, is_empty,
  Bool-cases, Option-cases,
}
use container_image_csi_driv.Text.{Text, codes, text_eq, text_eq_iff}
use container_image_csi_driv.Install.Kubelet.{ContainerRuntime, containerd, cri_o}
use container_image_csi_driv.Secret.Store.{Parsers}
use container_image_csi_driv.Driver.Clients.{
  DriverFlags, InCluster, in_cluster, not_in_cluster, unreadable, Surroundings, new_watcher,
  create_store_or_die,
}
use container_image_csi_driv.Driver.{
  UrlPackage, NodeService, ControllerService, Served, Start, serving, scheme_name,
  runtime_of_scheme, runtime_address, mounter_of_url, choose_mounter, serve_node, start_node,
  start_controller, start,
}

pub scheme_known :
    (scheme : Text) (r : ContainerRuntime)
    → runtime_of_scheme scheme ≡ some r
    → scheme ≡ scheme_name r
unfolding runtime_of_scheme
scheme_known scheme r h = elim (Bool-cases (text_eq scheme (scheme_name containerd))) [
  | inl c ↦
      let e = some-injective _ r (rw (c, runtime_of_scheme) at h) in
      (text_eq_iff scheme (scheme_name containerd)).0 c ∙ ap scheme_name e
  | inr other ↦ elim (Bool-cases (text_eq scheme (scheme_name cri_o))) [
    | inl o ↦
        let e = some-injective _ r (rw (other, o, runtime_of_scheme) at h) in
        (text_eq_iff scheme (scheme_name cri_o)).0 o ∙ ap scheme_name e
    | inr neither ↦ absurd (cc (rw (other, neither, runtime_of_scheme) at h))
  ]
]

-- A URL with a scheme is not printed as nothing.
pub record UrlLaws (urls : UrlPackage) : Type 0 where
  pub filled :
      (u : urls.Url) (r : ContainerRuntime)
      → is_empty (urls.to_text (urls.with_scheme u (scheme_name r))) ≡ false

same_start : (p : Parsers) (a b : Served p) → ◌≡◌ {A = Start p} (serving a) (serving b) → a ≡ b
same_start p a b h = cc

InCluster-cases :
    (c : InCluster)
    → ((config : Text) × (c ≡ in_cluster config)) ⊎ ((c ≡ not_in_cluster) ⊎ (c ≡ unreadable))
InCluster-cases (in_cluster config) = inl (config, refl)
InCluster-cases not_in_cluster = inr (inl refl)
InCluster-cases unreadable = inr (inr refl)

module _ (urls : UrlPackage) (parsers : Parsers) (s : Surroundings) (f : DriverFlags) where
  open urls use {Url, parse, scheme, path, with_scheme, to_text}

  -- A node service alone, over the runtime that the scheme of the address names, at its path.
  pub record NodeRole (v : Served parsers) : Type 0 where
    pub mode : f.mode ≡ codes "node"
    pub endpoint : v.endpoint ≡ f.endpoint
    pub alone : v.controller ≡ none
    pub service : NodeService parsers
    pub started : v.node ≡ some service
    pub address : Text
    pub url : Url
    pub runtime : ContainerRuntime
    pub chosen : runtime_address urls parsers s f ≡ some address
    pub parsed : parse address ≡ some url
    pub known : scheme url ≡ scheme_name runtime
    pub mounter : service.mounter ≡ some (record { runtime = runtime; socket_path = path url })
    pub images : service.image_service ≡ to_text (with_scheme url (codes "unix"))
    pub connected : s.connect_image_service service.image_service ≡ true

  -- A controller service alone; its watcher has a client of the cluster's, or is nil outside one.
  pub record ControllerRole (v : Served parsers) : Type 0 where
    pub mode : f.mode ≡ codes "controller"
    pub endpoint : v.endpoint ≡ f.endpoint
    pub alone : v.node ≡ none
    pub service : ControllerService
    pub started : v.controller ≡ some service
    pub watcher :
        ((config : Text) × (s.in_cluster_config ≡ in_cluster config)
          × (service.watcher ≡ some config))
        ⊎ (s.in_cluster_config ≡ not_in_cluster) × (service.watcher ≡ none)

  address_filled :
      (address : Text)
      → UrlLaws urls
      → runtime_address urls parsers s f ≡ some address
      → is_empty address ≡ false
  unfolding runtime_address
  address_filled address laws h = elim (Bool-cases (is_empty f.runtime_addr)) [
    | inr given ↦
        subst (λ t. is_empty t ≡ false)
          (some-injective _ address (rw (given, runtime_address) at h)) given
    | inl absent ↦ elim (Bool-cases (is_empty f.containerd_addr)) [
      | inl missing ↦ absurd (cc (rw (absent, missing, runtime_address) at h))
      | inr old ↦ elim (Option-cases (parse f.containerd_addr)) [
        | inl bad ↦ absurd (cc (rw (absent, old, bad, runtime_address) at h))
        | inr (u, e) ↦
            subst (λ t. is_empty t ≡ false)
              (some-injective _ address (rw (absent, old, e, runtime_address) at h))
              (laws.filled u containerd)
      ]
    ]
  ]

  module _ (v : Served parsers) where
    serve_node-NodeRole :
        (address : Text) (u : Url) (r : ContainerRuntime)
        → f.mode ≡ codes "node"
        → runtime_address urls parsers s f ≡ some address
        → parse address ≡ some u
        → runtime_of_scheme (scheme u) ≡ some r
        → serve_node urls parsers s f
            (some (record { runtime = r; socket_path = path u }))
            (to_text (with_scheme u (codes "unix")))
          ≡ serving v
        → NodeRole v
    unfolding serve_node
    serve_node-NodeRole address u r m chosen parsed known h =
        let images = to_text (with_scheme u (codes "unix")) in
        elim (Bool-cases (s.connect_image_service images)) [
          | inl connected ↦ elim (Option-cases (create_store_or_die parsers s f)) [
            | inl bad ↦ absurd (cc (rw (connected, bad, serve_node) at h))
            | inr (store, e) ↦
                subst NodeRole (same_start parsers _ v (rw (connected, e, serve_node) at h))
                  record {
                    mode = m;
                    endpoint = refl;
                    alone = refl;
                    service = _;
                    started = refl;
                    address = address;
                    url = u;
                    runtime = r;
                    chosen = chosen;
                    parsed = parsed;
                    known = scheme_known (scheme u) r known;
                    mounter = refl;
                    images = refl;
                    connected = connected;
                  }
          ]
          | inr refused ↦ absurd (cc (rw (refused, serve_node) at h))
        ]

    start_node-NodeRole :
        UrlLaws urls → f.mode ≡ codes "node" → start_node urls parsers s f ≡ serving v → NodeRole v
    unfolding start_node choose_mounter mounter_of_url
    start_node-NodeRole laws m h = elim (Option-cases (runtime_address urls parsers s f)) [
      | inl unknown ↦ absurd (cc (rw (unknown, start_node) at h))
      | inr (address, chosen) ↦
          let filled = address_filled address laws chosen in
          elim (Option-cases (parse address)) [
            | inl bad ↦ absurd (cc (rw (chosen, filled, bad, start_node, choose_mounter) at h))
            | inr (u, parsed) ↦ elim (Option-cases (runtime_of_scheme (scheme u))) [
              | inl unknown ↦ absurd (
                  cc (
                    rw (chosen, filled, parsed, unknown, start_node, choose_mounter, mounter_of_url)
                      at h))
              | inr (r, known) ↦ serve_node-NodeRole address u r m chosen parsed known (
                  rw (chosen, filled, parsed, known, start_node, choose_mounter, mounter_of_url) at
                    h)
            ]
          ]
    ]

    start_controller-ControllerRole :
        f.mode ≡ codes "controller"
        → start_controller urls parsers s f ≡ serving v
        → ControllerRole v
    unfolding start_controller new_watcher
    start_controller-ControllerRole m h = elim (InCluster-cases s.in_cluster_config) [
      | inl (config, e) ↦ elim (Bool-cases (s.client_for config)) [
        | inl made ↦
            subst ControllerRole
              (same_start parsers _ v (rw (e, made, start_controller, new_watcher) at h))
              record {
                mode = m;
                endpoint = refl;
                alone = refl;
                service = record { watcher = some config };
                started = refl;
                watcher = inl (config, e, refl);
              }
        | inr failed ↦ absurd (cc (rw (e, failed, start_controller, new_watcher) at h))
      ]
      | inr (inl e) ↦ elim (Option-cases s.default_config) [
        | inl bad ↦ absurd (cc (rw (e, bad, start_controller, new_watcher) at h))
        | inr (config, d) ↦
            subst ControllerRole
              (same_start parsers _ v (rw (e, d, start_controller, new_watcher) at h))
              record {
                mode = m;
                endpoint = refl;
                alone = refl;
                service = record { watcher = none };
                started = refl;
                watcher = inr (e, refl);
              }
      ]
      | inr (inr e) ↦ absurd (cc (rw (e, start_controller, new_watcher) at h))
    ]

    -- The driver that starts a server starts one with the node service alone, in the node mode, or
    -- one with the controller service alone, in the controller mode. The node service has the mounter
    -- of the runtime that the scheme of the runtime's address names, at that address's path, and an
    -- image service at the same address as a unix socket that could be reached. The watcher of the
    -- controller service has the configuration of the cluster, and is nil outside one. The URL package
    -- must not print a URL with a scheme as nothing.
    pub start-Role :
        UrlLaws urls → start urls parsers s f ≡ serving v → NodeRole v ⊎ ControllerRole v
    unfolding start
    start-Role laws h = elim (Bool-cases (is_empty f.mode)) [
      | inl missing ↦ absurd (cc (rw (missing, start) at h))
      | inr given ↦ elim (Bool-cases (text_eq f.mode (codes "node"))) [
        | inl node ↦ inl (
            start_node-NodeRole laws ((text_eq_iff f.mode (codes "node")).0 node)
              (rw (given, node, start) at h))
        | inr other ↦ elim (Bool-cases (text_eq f.mode (codes "controller"))) [
          | inl controller ↦ inr (
              start_controller-ControllerRole
                ((text_eq_iff f.mode (codes "controller")).0 controller)
                (rw (given, other, controller, start) at h))
          | inr neither ↦ absurd (cc (rw (given, other, neither, start) at h))
        ]
      ]
    ]
