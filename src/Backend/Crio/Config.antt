-- ===== src/Backend/Crio/Config.antt =====
-- pkg/backend/crio/crio.go: the options of the store, from CRI-O's configuration.
use container_image_csi_driv.Base.{List, Option, none, some}
use container_image_csi_driv.Text.{Text}
use container_image_csi_driv.Install.Cri.{Sockets}

-- crioRootConfig of the driver
pub record RootConfig : Type 0 where
  pub root : Text
  pub run_root : Text
  pub storage_driver : Text
  pub storage_option : List Text

-- types.StoreOptions
pub record StoreOptions : Type 0 where
  pub run_root : Text
  pub graph_root : Text
  pub graph_driver_name : Text
  pub graph_driver_options : List Text

abbrev pub options_of : RootConfig → StoreOptions
options_of c = record {
  run_root = c.run_root;
  graph_root = c.root;
  graph_driver_name = c.storage_driver;
  graph_driver_options = c.storage_option;
}

module _ (sockets : Sockets) where
  abbrev pub read_config : Text → Option Text
  read_config socket_path = elim (sockets.get_config socket_path) [ none ↦ none | some r ↦ r.body ]

  module _ (decode : Text → Option RootConfig) where
    abbrev pub root_config : Text → Option RootConfig
    root_config socket_path = elim (read_config socket_path) [
      | none ↦ none
      | some text ↦ decode text
    ]

    -- fetchCriOConfigOrDie, `none` for klog.Fatalf. The status of the answer is not looked at.
    unfoldable pub fetch_crio_config_or_die : Text → Option StoreOptions
    fetch_crio_config_or_die socket_path = elim (root_config socket_path) [
      | none ↦ none
      | some c ↦ some (options_of c)
    ]
