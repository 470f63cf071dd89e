-- ===== src/Endpoint/Samples.antt =====
-- An endpoint of the driver.
use container_image_csi_driv.Base.{◌≡◌, ◌↔◌, some, true, false}
use container_image_csi_driv.Text.{codes}
use container_image_csi_driv.Endpoint.Serve.{
  Services, Network, Listening, serve, Listened, serve_iff,
}

abbrev all_services : Services
all_services = record { identity = true; controller = false; node = true }

abbrev network : Network
network = record { remove = λ path. true; listen = λ protocol address. true }

abbrev listening : Listening
listening = record {
  protocol = codes "unix";
  address = codes "//csi/csi.sock";
  registered = all_services;
}

serve_iff_example :
    (serve network (codes "unix:///csi/csi.sock") all_services ≡ some listening)
    ↔ Listened network (codes "unix:///csi/csi.sock") all_services listening
serve_iff_example = serve_iff network (codes "unix:///csi/csi.sock") all_services listening
