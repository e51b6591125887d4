-- ===== src/Controllers/Machine/Bootstrap.antt =====
-- The bootstrap data of a machine: `getBootstrapData` and `generatateCloudInitSecret`.
use cluster_api_provider_kub.Prelude.{Option, none, some, [], ◌∷◌, ◌<>◌, codes, ◌++◌}
use cluster_api_provider_kub.Prelude.Maps.{lookup}
use cluster_api_provider_kub.Go.{message, wrapped, Result, ok, err, Outcome, done, fail, panic}
use cluster_api_provider_kub.Go.Text.{Bytes}
use cluster_api_provider_kub.Go.Base64.{encode, decode}
use cluster_api_provider_kub.Kube.{NamespacedName, ObjectMeta, new_meta, Secret, Cluster, Machine}
use cluster_api_provider_kub.Api.V1alpha3.{KubernetesMachine}
use cluster_api_provider_kub.Platform.{Platform, Log, get_secret}
use cluster_api_provider_kub.CloudInit.Actions.{generate_script}
use cluster_api_provider_kub.Controllers.Machine.Names.{
  machine_kind, cluster_label_name, cloud_init_secret_name,
}
use cluster_api_provider_kub.Controllers.Machine.Volumes.{
  cloud_init_bootstrap_script_name, cloud_init_install_script_name,
  cloud_init_systemd_service_unit_name, cloud_init_systemd_path_unit_name,
  kubelet_systemd_service_dropin_file_name,
}

unfoldable pub value_of : Option Bytes → Result Bytes
value_of none = err (message "error retrieving bootstrap data: secret value key is missing")
value_of (some value) = ok (encode value)

unfoldable pub bootstrap_value : Machine → Result Secret → Result Bytes
unfolding value_of
bootstrap_value machine (ok s) = value_of (lookup "value" s.contents)
bootstrap_value machine (err e) = err (
    wrapped
      ("failed to retrieve bootstrap data secret for KubernetesMachine " <> machine.meta.namespace
        <> "/" <> machine.meta.name)
      e)

-- `getBootstrapData`: the base64 text, and the log.
unfoldable pub get_bootstrap_data : Platform → Machine → Log → Result Bytes × Log
unfolding bootstrap_value
get_bootstrap_data p machine log = elim machine.data_secret_name [
  | none ↦ (
    err (
        message
          "error retrieving bootstrap data: linked Machine's bootstrap.dataSecretName is nil"),
    log,
  )
  | some name' ↦
      let key : NamespacedName = record { namespace = machine.meta.namespace; name = name' } in
      (bootstrap_value machine (p.secret log key), get_secret key ∷ log)
]

abbrev install_script : Bytes
install_script =
    codes "#!/bin/bash\n\nset -o errexit\nset -o nounset\nset -o pipefail\n\n"
    ++ codes "systemctl enable --now cloud-init.path\n"

abbrev service_unit : Bytes
service_unit =
    codes "[Unit]\nDescription=Cloud-init bootstrap\nAfter=network.target\n\n"
    ++ codes "[Service]\nExecStart=/opt/cloud-init/bootstrap.sh\n"

abbrev path_unit : Bytes
path_unit =
    codes "[Unit]\nDescription=Detect containerd socket creation\n\n"
    ++ codes "[Path]\nPathExists=/var/run/containerd/containerd.sock\n\n"
    ++ codes "[Install]\nWantedBy=multi-user.target\n"

abbrev kubelet_dropin : Bytes
kubelet_dropin = codes "[Service]\nType=forking\n"

-- The Secret before its owner is set.
unfoldable pub unowned_secret : Cluster → Machine → KubernetesMachine → Bytes → Secret
unowned_secret cluster machine k script = record {
  meta =
      new_meta (cloud_init_secret_name k) machine.meta.namespace
        ((cluster_label_name, cluster.meta.name) ∷ []);
  contents = [];
  string_data =
      (cloud_init_bootstrap_script_name, script)
      ∷ (cloud_init_install_script_name, install_script)
      ∷ (cloud_init_systemd_service_unit_name, service_unit)
      ∷ (cloud_init_systemd_path_unit_name, path_unit)
      ∷ (kubelet_systemd_service_dropin_file_name, kubelet_dropin)
      ∷ [];
}

unfoldable pub owned_secret : Secret → Result ObjectMeta → Outcome Secret
owned_secret s (ok meta') = done (record s { meta = meta' })
owned_secret s (err e) = fail e

unfoldable pub script_secret :
    Platform → Cluster → Machine → KubernetesMachine → Outcome Bytes → Outcome Secret
unfolding owned_secret
script_secret p cluster machine k (done script) =
    owned_secret (unowned_secret cluster machine k script) (
      p.set_controller_reference machine_kind k.meta (unowned_secret cluster machine k script).meta)
script_secret p cluster machine k (fail e) =
    fail (wrapped "failed to generate machine's cloudinit bootstrap script" e)
script_secret p cluster machine k panic = panic

-- `generatateCloudInitSecret`
unfoldable pub generate_cloud_init_secret :
    Platform → Cluster → Machine → KubernetesMachine → Bytes → Outcome Secret
unfolding script_secret
generate_cloud_init_secret p cluster machine k text = elim (decode text) [
  | none ↦
      fail (wrapped "failed to decode machine's bootstrap data" (message "illegal base64 data"))
  | some cloud_config ↦ script_secret p cluster machine k (generate_script p.parsers cloud_config)
]
