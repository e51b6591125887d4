-- ===== src/Tests/MachineRuns.antt =====
-- What a run of the machine reconciler computes with, under one name.
use cluster_api_provider_kub.Go.{error_text}
use cluster_api_provider_kub.Api.V1alpha3.{
  is_zero, set_cluster_failure_reason, set_cluster_failure_message, set_machine_failure_reason,
  set_machine_failure_message,
}
use cluster_api_provider_kub.Utils.Exec.{
  container_cmder, container_command, kind_container_request, kind_container_exec, exec_request,
  run, set_stdout, set_stderr, kind_container_cmd, exec_error,
}
use cluster_api_provider_kub.Utils.PodStatus.{
  get_container_status, get_pod_condition_from_list, get_pod_condition, get_pod_ready_condition,
  is_pod_ready_condition_true, is_pod_ready,
}
use cluster_api_provider_kub.Utils.Qos.{
  is_supported_qos_compute_resource, counts, add_entries, qos_limits_found, all_limits_found,
  add_container, totals, requests_match_limits, classify, get_pod_qos,
}
use cluster_api_provider_kub.Controllers.Common.{is_not_found, is_already_exists, deferred_exit}
use cluster_api_provider_kub.Controllers.Machine.Bootstrap.{
  get_bootstrap_data, unowned_secret, generate_cloud_init_secret,
}
use cluster_api_provider_kub.Controllers.Machine.Claims.{
  named_claim, get_persistent_volume_claims, create_claim, create_claims,
  create_persistent_volume_claims, claim_volume, unclaimed, storage_volumes, update_storage,
}
use cluster_api_provider_kub.Controllers.Machine.Container.{
  kind_index, find_or_create, set_name_and_image, set_resources, set_privileged_tty,
  set_volume_mounts, update_at, with_containers, set_kind_container_base,
}
use cluster_api_provider_kub.Controllers.Machine.Delete.{
  remove_machine_finalizer, kubeadm_reset, after_reset, reset_answer, delete_key, reconcile_delete,
}
use cluster_api_provider_kub.Controllers.Machine.MachinePod.{
  unowned_pod_base, get_machine_pod_base, set_control_plane_label, add_etcd_volume,
  set_control_plane_container, control_plane_pod, worker_pod, machine_pod, create_built,
  create_machine_pod,
}
use cluster_api_provider_kub.Controllers.Machine.Names.{
  machine_pod_name, machine_pod_node_name, get_provider_id_from_pod,
  get_persistent_volume_claim_name, cloud_init_secret_name, machine_pod_image, api_server_port,
}
use cluster_api_provider_kub.Controllers.Machine.Normal.{
  fail_machine, set_ready, has_failed, is_controlled_by, add_finalizers, enable_bootstrap_process,
  patch_node, patch_first, set_node_provider_id, mark_ready, after_node, after_bootstrap,
  container_terminated, with_status, check_container, check_secret, secret_answer, with_secret,
  with_bootstrap_data, with_claims, provision, pod_deleting, set_provider_id, provided_pod, own_pod,
  with_pod, missing_fixed, pod_missing, with_answer, pod_key, get_or_create_pod, reconcile_normal,
}
use cluster_api_provider_kub.Controllers.Machine.Reconcile.{
  set_phase, phase_if_unset, next_phase, reconcile_phase, version_or, reconcile_version, dispatch,
  with_infrastructure, with_cluster, cluster_answer, with_machine, machine_answer, reconcile_body,
  patch_deferred, with_object, reconcile,
}
use cluster_api_provider_kub.Controllers.Machine.Volumes.{
  has_volume, if_missing, missing_of, add_default_volumes, has_mount, set_volume_mount,
}
use cluster_api_provider_kub.Go.Base64.{encode, decode}
use cluster_api_provider_kub.Go.Text.{
  bytes_eq, has_prefix, contains, has_suffix, trim_suffix, join_lines, trim_space, to_lower, quote,
  clean, dir,
}
use cluster_api_provider_kub.CloudInit.Actions.{
  action, unmarshal, generate_script_block, is_action_line, scan_lines, flush, scan_actions,
  get_actions, script_header, script_blocks, generate_script,
}
use cluster_api_provider_kub.CloudInit.RunCmd.{
  decode_string, decode_items, decode_strings, unmarshal_json, unmarshal_cmds, unmarshal_runcmd,
  hack_string, hack_list, hack_kubeadm_ignore_errors, runcmd_script_block,
}
use cluster_api_provider_kub.CloudInit.Unknown.{unmarshal_unknown, unknown_script_block}
use cluster_api_provider_kub.CloudInit.WriteFiles.{
  unmarshal_write_files, fix_path, fix_owner, fix_permissions, fix_encoding, fix_content,
  file_lines, write_files_script_block,
}
use cluster_api_provider_kub.Prelude.Maps.{lookup, insert}

unfoldable pub machine_runs : Unit {0}
unfolding error_text is_zero set_cluster_failure_reason set_cluster_failure_message
    set_machine_failure_reason set_machine_failure_message exec_request run set_stdout set_stderr
    kind_container_cmd exec_error container_cmder container_command kind_container_request
    kind_container_exec get_container_status get_pod_condition_from_list get_pod_condition
    get_pod_ready_condition is_pod_ready_condition_true is_pod_ready
    is_supported_qos_compute_resource counts add_entries qos_limits_found all_limits_found
    add_container totals requests_match_limits classify get_pod_qos is_not_found is_already_exists
    deferred_exit get_bootstrap_data unowned_secret generate_cloud_init_secret named_claim
    get_persistent_volume_claims create_claim create_claims create_persistent_volume_claims
    claim_volume unclaimed storage_volumes update_storage kind_index find_or_create
    set_name_and_image set_resources set_privileged_tty set_volume_mounts update_at with_containers
    set_kind_container_base remove_machine_finalizer kubeadm_reset after_reset reset_answer
    delete_key reconcile_delete unowned_pod_base get_machine_pod_base set_control_plane_label
    add_etcd_volume set_control_plane_container control_plane_pod worker_pod machine_pod
    create_built create_machine_pod machine_pod_name machine_pod_node_name get_provider_id_from_pod
    get_persistent_volume_claim_name cloud_init_secret_name machine_pod_image api_server_port
    fail_machine set_ready has_failed is_controlled_by add_finalizers enable_bootstrap_process
    patch_node patch_first set_node_provider_id mark_ready after_node after_bootstrap
    container_terminated with_status check_container check_secret secret_answer with_secret
    with_bootstrap_data with_claims provision pod_deleting set_provider_id provided_pod own_pod
    with_pod missing_fixed pod_missing with_answer pod_key get_or_create_pod reconcile_normal
    set_phase phase_if_unset next_phase reconcile_phase version_or reconcile_version dispatch
    with_infrastructure with_cluster cluster_answer with_machine machine_answer reconcile_body
    patch_deferred with_object reconcile has_volume if_missing missing_of add_default_volumes
    has_mount set_volume_mount encode decode bytes_eq has_prefix contains has_suffix trim_suffix
    join_lines trim_space to_lower quote clean dir action unmarshal generate_script_block
    is_action_line scan_lines flush scan_actions get_actions script_header script_blocks
    generate_script decode_string decode_items decode_strings unmarshal_json unmarshal_cmds
    unmarshal_runcmd hack_string hack_list hack_kubeadm_ignore_errors runcmd_script_block
    unmarshal_unknown unknown_script_block unmarshal_write_files fix_path fix_owner fix_permissions
    fix_encoding fix_content file_lines write_files_script_block lookup insert
machine_runs = tt
