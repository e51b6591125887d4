-- ===== src/Tests/ClusterRuns.antt =====
-- What a run of the cluster reconciler computes with, under one name.
use cluster_api_provider_kub.Go.{error_text}
use cluster_api_provider_kub.Api.V1alpha3.{
  is_zero, set_cluster_failure_reason, set_cluster_failure_message, set_machine_failure_reason,
  set_machine_failure_message,
}
use cluster_api_provider_kub.Utils.Exec.{
  container_cmder, container_command, kind_container_request, kind_container_exec, exec_request,
  run, set_stdout, set_stderr, kind_container_cmd, exec_error,
}
use cluster_api_provider_kub.Utils.PodStatus.{
  get_container_status, get_pod_condition_from_list, get_pod_condition, get_pod_ready_condition,
  is_pod_ready_condition_true, is_pod_ready,
}
use cluster_api_provider_kub.Utils.Qos.{
  is_supported_qos_compute_resource, counts, add_entries, qos_limits_found, all_limits_found,
  add_container, totals, requests_match_limits, classify, get_pod_qos,
}
use cluster_api_provider_kub.Controllers.Cluster.{
  cluster_service_name, fail_cluster, has_failed, add_cluster_finalizers, desired_port,
  unowned_service, create_owned, create_cluster_service, ingress_host, service_host, port_from,
  service_port, set_endpoint, endpoint_matches, set_cluster_ready, check_endpoint, not_controlled,
  with_own_service, with_service, service_answer, service_key, reconcile_normal, reconcile_delete,
  phase_if_unset, next_phase, reconcile_phase, default_service_type, dispatch, with_cluster,
  cluster_answer, reconcile_body, patch_deferred, with_object, reconcile,
}
use cluster_api_provider_kub.Controllers.Common.{is_not_found, is_already_exists, deferred_exit}
use cluster_api_provider_kub.Controllers.Watches.{
  owner_requests, pod_to_kubernetes_machine, secret_to_kubernetes_machine,
  persistent_volume_claim_to_kubernetes_machine, service_to_kubernetes_cluster, machine_requests,
  kubernetes_cluster_to_kubernetes_machines,
}
use cluster_api_provider_kub.Controllers.Machine.Names.{
  machine_pod_name, machine_pod_node_name, get_provider_id_from_pod,
  get_persistent_volume_claim_name, cloud_init_secret_name, machine_pod_image, api_server_port,
}
use cluster_api_provider_kub.Go.Base64.{encode, decode}
use cluster_api_provider_kub.Go.Text.{
  bytes_eq, has_prefix, contains, has_suffix, trim_suffix, join_lines, trim_space, to_lower, quote,
  clean, dir,
}
use cluster_api_provider_kub.Prelude.Maps.{lookup, insert}
use cluster_api_provider_kub.Controllers.Machine.Normal.{is_controlled_by}

unfoldable pub cluster_runs : Unit {0}
unfolding error_text is_zero set_cluster_failure_reason set_cluster_failure_message
    set_machine_failure_reason set_machine_failure_message exec_request run set_stdout set_stderr
    kind_container_cmd exec_error container_cmder container_command kind_container_request
    kind_container_exec get_container_status get_pod_condition_from_list get_pod_condition
    get_pod_ready_condition is_pod_ready_condition_true is_pod_ready
    is_supported_qos_compute_resource counts add_entries qos_limits_found all_limits_found
    add_container totals requests_match_limits classify get_pod_qos cluster_service_name
    fail_cluster has_failed add_cluster_finalizers desired_port unowned_service create_owned
    create_cluster_service ingress_host service_host port_from service_port set_endpoint
    endpoint_matches set_cluster_ready check_endpoint not_controlled with_own_service with_service
    service_answer service_key reconcile_normal reconcile_delete phase_if_unset next_phase
    reconcile_phase default_service_type dispatch with_cluster cluster_answer reconcile_body
    patch_deferred with_object reconcile is_not_found is_already_exists deferred_exit owner_requests
    pod_to_kubernetes_machine secret_to_kubernetes_machine
    persistent_volume_claim_to_kubernetes_machine service_to_kubernetes_cluster machine_requests
    kubernetes_cluster_to_kubernetes_machines machine_pod_name machine_pod_node_name
    get_provider_id_from_pod get_persistent_volume_claim_name cloud_init_secret_name
    machine_pod_image api_server_port encode decode bytes_eq has_prefix contains has_suffix
    trim_suffix join_lines trim_space to_lower quote clean dir lookup insert is_controlled_by
cluster_runs = tt
