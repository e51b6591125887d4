-- ===== src/Controllers/Machine/Volumes.antt =====
-- The volumes of a machine's pod, and `setVolumeMount`.
use cluster_api_provider_kub.Prelude.{
  String, Bool, none, some, List, [], ◌∷◌, ◌++◌, if◌then◌else◌, ◌==◌, any,
}
use cluster_api_provider_kub.Kube.{
  Volume, VolumeSource, empty_dir, host_path, secret, VolumeMount, Container,
}

abbrev pub tmp_volume_name : String
tmp_volume_name = "tmp"

abbrev pub run_volume_name : String
run_volume_name = "run"

abbrev pub lib_modules_volume_name : String
lib_modules_volume_name = "lib-modules"

abbrev pub lib_modules_volume_mount_path : String
lib_modules_volume_mount_path = "/lib/modules"

abbrev pub var_lib_containerd_volume_name : String
var_lib_containerd_volume_name = "var-lib-containerd"

abbrev pub var_log_volume_name : String
var_log_volume_name = "var-log"

abbrev pub var_lib_etcd_volume_name : String
var_lib_etcd_volume_name = "var-lib-etcd"

abbrev pub cloud_init_scripts_volume_name : String
cloud_init_scripts_volume_name = "cloud-init-scripts"

abbrev pub cloud_init_systemd_units_volume_name : String
cloud_init_systemd_units_volume_name = "cloud-init-systemd-units"

abbrev pub kubelet_systemd_service_dropin_volume_name : String
kubelet_systemd_service_dropin_volume_name = "etc-systemd-system-kubelet-service-d"

abbrev pub cloud_init_bootstrap_script_name : String
cloud_init_bootstrap_script_name = "bootstrap.sh"

abbrev pub cloud_init_install_script_name : String
cloud_init_install_script_name = "install.sh"

abbrev pub cloud_init_systemd_service_unit_name : String
cloud_init_systemd_service_unit_name = "cloud-init.service"

abbrev pub cloud_init_systemd_path_unit_name : String
cloud_init_systemd_path_unit_name = "cloud-init.path"

abbrev pub kubelet_systemd_service_dropin_file_name : String
kubelet_systemd_service_dropin_file_name = "20-capk.conf"

-- A volume of that name is there.
unfoldable pub has_volume : List Volume → String → Bool
has_volume volumes name = any (λ v. v.name == name) volumes

-- What is appended where the loop over `volumes` did not meet the name.
unfoldable pub if_missing : List Volume → Volume → List Volume
if_missing volumes v = if has_volume volumes v.name then [] else v ∷ []

abbrev volume : String → VolumeSource → Volume
volume name' source' = record { name = name'; source = source' }

-- The volumes of `getMachinePodBase` that kind's defaults inspired, and those from the Secret of the
-- given name; 0500 is the mode of the scripts.
abbrev pub kind_volumes : List Volume
kind_volumes =
    volume tmp_volume_name (empty_dir "Memory")
    ∷ volume run_volume_name (empty_dir "Memory")
    ∷ volume lib_modules_volume_name (host_path lib_modules_volume_mount_path "Directory")
    ∷ volume var_lib_containerd_volume_name (empty_dir "")
    ∷ volume var_log_volume_name (empty_dir "")
    ∷ []

abbrev pub secret_volumes : String → List Volume
secret_volumes secret_name =
    volume cloud_init_scripts_volume_name (
      secret secret_name (cloud_init_bootstrap_script_name ∷ cloud_init_install_script_name ∷ [])
        (some 0o500))
    ∷ volume cloud_init_systemd_units_volume_name (
        secret secret_name
          (cloud_init_systemd_service_unit_name ∷ cloud_init_systemd_path_unit_name ∷ []) none)
    ∷ volume kubelet_systemd_service_dropin_volume_name
        (secret secret_name (kubelet_systemd_service_dropin_file_name ∷ []) none)
    ∷ []

-- Those of `defaults` that `volumes` misses, in order.
unfoldable pub missing_of : List Volume → List Volume → List Volume
unfolding if_missing
missing_of volumes [] = []
missing_of volumes (v ∷ defaults) = if_missing volumes v ++ missing_of volumes defaults

-- The volumes of a pod base: all the flags are read before the first append.
unfoldable pub add_default_volumes : String → List Volume → List Volume
add_default_volumes secret_name volumes =
    volumes ++ missing_of volumes (kind_volumes ++ secret_volumes secret_name)

-- A mount at that path is there.
unfoldable pub has_mount : List VolumeMount → String → Bool
has_mount mounts path = any (λ m. m.mount_path == path) mounts

-- `setVolumeMount`
unfoldable pub set_volume_mount : Container → String → String → String → Bool → Container
unfolding has_mount
set_volume_mount c name' mount_path' sub_path' read_only' =
    if has_mount c.volume_mounts mount_path' then c else record c {
      volume_mounts =
          c.volume_mounts
          ++ record {
            name = name';
            mount_path = mount_path';
            sub_path = sub_path';
            read_only = read_only';
            rest = "";
          }
            ∷ [];
    }
