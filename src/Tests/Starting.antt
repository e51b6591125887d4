-- ===== src/Tests/Starting.antt =====
-- A platform on which a pod runs as soon as it has been created.
use cluster_api_provider_kub.Prelude.{
  [], ◌∷◌, ◌≡◌, refl, inl, inr, none, true, eq_refl, ◌==◌, ◌&&◌, if◌then◌else◌, Bool,
}
use cluster_api_provider_kub.Go.{Result, ok, err, Error, status, not_found}
use cluster_api_provider_kub.Kube.{NamespacedName, Pod}
use cluster_api_provider_kub.Platform.{Platform, Log, Call, create_pod, get_pod}
use cluster_api_provider_kub.Controllers.Common.{is_not_found}
use cluster_api_provider_kub.Controllers.Machine.Calls.Grows.{Grows, as_before, one_more}
use cluster_api_provider_kub.Controllers.Machine.Convergence.Provisioned.{IsLive, Works, key_of}
use cluster_api_provider_kub.Tests.MachineRuns.{machine_runs}
use cluster_api_provider_kub.Tests.Fixtures.{running_platform, missing, running_pod}

abbrev is_at : NamespacedName → Pod → Bool
is_at key pod = pod.meta.namespace == key.namespace && pod.meta.name == key.name

-- The pod of a creation as it runs.
abbrev run_pod : Pod → Pod
run_pod pod = record running_pod { meta = pod.meta; spec = pod.spec }

abbrev created_at : NamespacedName → Call → Result Pod
created_at key (create_pod pod) = if is_at key pod then ok (run_pod pod) else missing
created_at key _ = missing

abbrev or_else : Result Pod → Result Pod → Result Pod
or_else (ok pod) r = ok pod
or_else (err e) r = r

-- The first pod that was created at a key.
abbrev started : NamespacedName → Log → Result Pod
started key [] = missing
started key (call ∷ log) = or_else (started key log) (created_at key call)

abbrev pub starting_platform : Platform
starting_platform = record running_platform { pod = λ log key. started key log }

started-Grows :
    (key : NamespacedName) (pod : Pod) {log later : Log}
    → Grows log later
    → started key log ≡ ok pod
    → started key later ≡ ok pod
started-Grows key pod as_before q = q
started-Grows key pod (one_more g) q = rw (started-Grows key pod g q) refl

started-created :
    (log : Log) (pod : Pod) (e : Error)
    → started (key_of pod) log ≡ err e
    → started (key_of pod) (create_pod pod ∷ get_pod (key_of pod) ∷ log) ≡ ok (run_pod pod)
started-created log pod e q = rw (q, eq_refl pod.meta.namespace, eq_refl pod.meta.name) refl

run_pod-IsLive : (pod : Pod) → IsLive (run_pod pod)
unfolding machine_runs
run_pod-IsLive pod = record {
  container = record {
    name = "kind";
    state = record { running = true; terminated = none };
    ready = true;
  };
  found = refl;
  alive = refl;
  running = refl;
  container_ready = refl;
  pod_ready = refl;
}

pub starting_platform-Works : Works starting_platform
unfolding is_not_found
starting_platform-Works = record {
  claims_looked_up = λ log name. inr (status not_found "not found", refl, refl);
  claims_created = λ log claim. refl;
  secrets_created = λ log s. inl refl;
  pods_created = λ log pod. refl;
  commands_run = λ log request. refl;
  controllers_listed = λ log namespace' labels. (running_pod, [], refl);
  pods_started = λ log later pod e gone q grows. (
    run_pod pod,
    started-Grows (key_of pod) (run_pod pod) grows (started-created log pod e gone),
    refl,
    refl,
    run_pod-IsLive pod,
  );
}

pub new_machine_has_no_pod : is_not_found (status not_found "not found") ≡ true
unfolding is_not_found
new_machine_has_no_pod = refl
