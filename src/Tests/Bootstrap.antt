-- ===== src/Tests/Bootstrap.antt =====
-- The theorems on bootstrap data at concrete inputs.
use cluster_api_provider_kub.Prelude.{[], ◌∷◌, ◌≡◌, refl, inl, codes, All, arith, some, true}
use cluster_api_provider_kub.Prelude.Maps.{lookup}
use cluster_api_provider_kub.Go.{ok, done}
use cluster_api_provider_kub.Go.Text.{Bytes}
use cluster_api_provider_kub.Go.Base64.{encode}
use cluster_api_provider_kub.Go.Base64.RoundTrip.{IsByte}
use cluster_api_provider_kub.Kube.{Secret}
use cluster_api_provider_kub.Api.V1alpha3.{group_version}
use cluster_api_provider_kub.CloudInit.Actions.{generate_script}
use cluster_api_provider_kub.Platform.{create_secret}
use cluster_api_provider_kub.Controllers.Machine.Secrets.{
  secret_answer-passes, get_bootstrap_data-generate,
}
use cluster_api_provider_kub.Controllers.Machine.Normal.{secret_answer, check_container}
use cluster_api_provider_kub.Controllers.Machine.Bootstrap.{
  generate_cloud_init_secret, get_bootstrap_data, unowned_secret, script_secret,
}
use cluster_api_provider_kub.Tests.Laws.{empty_platform-ControllerLaw, empty_platform-CreateLaw}
use cluster_api_provider_kub.Tests.MachineRuns.{machine_runs}
use cluster_api_provider_kub.Tests.Fixtures.{
  empty_platform, running_platform, cluster, bootstrap_secret, new_machine, worker, running_pod,
}

abbrev made_script : Bytes
made_script = codes "#!/bin/bash\n\nset -o errexit\nset -o nounset\nset -o pipefail\n"

abbrev cloud_config : Bytes
cloud_config = codes "#cloud-config\n"

-- The Secret that the machine's bootstrap data makes.
abbrev sent_secret : Secret
sent_secret = record (unowned_secret cluster worker new_machine made_script) {
  meta = record (unowned_secret cluster worker new_machine made_script).meta {
    owner_references =
        record {
          api_version = group_version;
          kind = "KubernetesMachine";
          name = "km";
          uid = "uid-1";
          controller = true;
        }
        ∷ [];
  };
}

sent_secret_made :
    generate_cloud_init_secret empty_platform cluster worker new_machine (encode cloud_config)
    ≡ done sent_secret
unfolding machine_runs
sent_secret_made = refl

secret_answer-passes_example :
    secret_answer empty_platform cluster new_machine
      (create_secret sent_secret ∷ [])
      running_pod
      (empty_platform.secret_created [] sent_secret)
    ≡ check_container empty_platform cluster new_machine
        (create_secret sent_secret ∷ [])
        running_pod
secret_answer-passes_example =
    secret_answer-passes empty_platform empty_platform-ControllerLaw empty_platform-CreateLaw
      cluster worker new_machine [] running_pod (encode cloud_config) sent_secret sent_secret_made
      (inl refl)

cloud_config_found : lookup "value" bootstrap_secret.contents ≡ some cloud_config
unfolding lookup
cloud_config_found = refl

cloud_config_bytes : All IsByte cloud_config
cloud_config_bytes = ground arith

get_bootstrap_data-generate_example :
    (text : Bytes) × ((get_bootstrap_data running_platform worker []).0 ≡ ok text)
    × (generate_cloud_init_secret running_platform cluster worker new_machine text
        ≡ script_secret running_platform cluster worker new_machine
            (generate_script running_platform.parsers cloud_config))
get_bootstrap_data-generate_example =
    get_bootstrap_data-generate running_platform cluster worker new_machine [] "m-data"
      bootstrap_secret cloud_config refl refl cloud_config_found cloud_config_bytes
