-- ===== src/Process/Startup.antt =====
-- What the process has set up when its manager starts, and where it exits.
use cluster_api_provider_kub.Prelude.{
  List, [], ◌∷◌, ◌++◌, none, some, if◌then◌else◌, nat_eq, ◌≡◌, ◌⊎◌, refl, inl, inr, ap,
  Option-cases, Bool-cases,
}
use cluster_api_provider_kub.Go.{Error}
use cluster_api_provider_kub.Process.{
  Flags, Setup, Answers, build_webhook, Exited, attempt, setup_controllers, setup_webhooks, main,
  build_controller, get_config, start_manager, new_manager, answered, setup_cluster_controller,
  own_kind, v1alpha3, options, start, setup_machine_controller, cluster_v1, v1alpha2, core_v1,
  new_core_client, new_cluster_mapper, watch_on_cluster_paused,
}

-- The calls of a process with the flags, where none fails.
abbrev pub controllers_plan : List Setup
controllers_plan =
    build_controller (own_kind v1alpha3 "KubernetesCluster") (
      own_kind cluster_v1 "Cluster"
      ∷ own_kind cluster_v1 "Cluster"
      ∷ own_kind core_v1 "Service"
      ∷ [])
    ∷ new_core_client
    ∷ build_controller (own_kind v1alpha3 "KubernetesMachine") (
        own_kind cluster_v1 "Machine"
        ∷ own_kind cluster_v1 "Machine"
        ∷ own_kind v1alpha3 "KubernetesCluster"
        ∷ own_kind core_v1 "Pod"
        ∷ own_kind core_v1 "Secret"
        ∷ own_kind core_v1 "PersistentVolumeClaim"
        ∷ [])
    ∷ new_cluster_mapper (own_kind v1alpha3 "KubernetesMachineList")
    ∷ watch_on_cluster_paused
    ∷ []

abbrev pub webhooks_plan : List Setup
webhooks_plan =
    build_webhook (own_kind v1alpha3 "KubernetesCluster")
    ∷ build_webhook (own_kind v1alpha3 "KubernetesMachine")
    ∷ build_webhook (own_kind v1alpha3 "KubernetesMachineTemplate")
    ∷ build_webhook (own_kind v1alpha2 "KubernetesMachine")
    ∷ []

abbrev pub plan : Flags → List Setup
plan flags =
    get_config
    ∷ new_manager (options flags)
    ∷ (if nat_eq flags.webhook_port 0
        then controllers_plan ++ (start ∷ [])
        else webhooks_plan ++ (start ∷ []))

-- The log after calls.
abbrev pub after : List Setup → List Setup → List Setup
after [] log = log
after (call ∷ calls) log = after calls (call ∷ log)

module _ (answers : Answers) where
  -- A process with these calls to make, after these calls.
  data Runs : List Setup → List Setup → Exited → Type 0 where
    finished : (log : List Setup) → Runs [] log (record { calls = log; code = 0 })
    stopped :
        (call : Setup) (rest log : List Setup) (e : Error)
        → answers log call ≡ some e
        → Runs (call ∷ rest) log (record { calls = call ∷ log; code = 1 })
    passed :
        (call : Setup) (rest log : List Setup) (r : Exited)
        → answers log call ≡ none
        → Runs rest (call ∷ log) r
        → Runs (call ∷ rest) log r

  -- The calls one after the other, up to the first that fails.
  unfoldable pub in_order : List Setup → List Setup → Exited
  in_order [] log = record { calls = log; code = 0 }
  in_order (call ∷ calls) log = attempt answers call (in_order calls) log

  attempt-Runs :
      (call : Setup) (next : List Setup → Exited) (rest log : List Setup)
      → Runs rest (call ∷ log) (next (call ∷ log))
      → Runs (call ∷ rest) log (attempt answers call next log)
  unfolding attempt answered
  attempt-Runs call next rest log h = elim (Option-cases (answers log call)) [
    | inl n ↦ rw n (passed call rest log (next (call ∷ log)) n h)
    | inr (e, q) ↦ rw q (stopped call rest log e q)
  ]

  in_order-Runs : (calls log : List Setup) → Runs calls log (in_order calls log)
  unfolding in_order
  in_order-Runs [] log = finished log
  in_order-Runs (call ∷ calls) log =
      attempt-Runs call (in_order calls) calls log (in_order-Runs calls (call ∷ log))

  pub main-in_order : (flags : Flags) → main answers flags ≡ in_order (plan flags) []
  unfolding main in_order setup_controllers setup_cluster_controller setup_machine_controller
      setup_webhooks start_manager
  main-in_order flags = elim (Bool-cases (nat_eq flags.webhook_port 0)) [
    | inl q ↦ rw q refl
    | inr q ↦ rw q refl
  ]

  -- All calls were made and none failed.
  abbrev pub Finished : List Setup → List Setup → Exited → Type 0
  Finished todo log r = (r.calls ≡ after todo log) × (r.code ≡ 0)

  -- The last call that was made is the first that failed.
  pub record Failed (todo log : List Setup) (r : Exited) : Type 0 where
    pub made : List Setup
    pub call : Setup
    pub left : List Setup
    pub planned : todo ≡ made ++ (call ∷ left)
    pub recorded : r.calls ≡ call ∷ after made log
    pub error : Error
    pub answer : answers (after made log) call ≡ some error
    pub exit_code : r.code ≡ 1

  Runs-outcome :
      {todo log : List Setup} {r : Exited}
      → Runs todo log r
      → Finished todo log r ⊎ Failed todo log r
  Runs-outcome (finished log) = inl (refl, refl)
  Runs-outcome (stopped call rest log e q) = inr (record {
    made = [];
    call = call;
    left = rest;
    planned = refl;
    recorded = refl;
    error = e;
    answer = q;
    exit_code = refl;
  })
  Runs-outcome (passed call rest log r n h) = elim (Runs-outcome h) [
    | inl f ↦ inl f
    | inr f ↦ inr (record {
      made = call ∷ f.made;
      call = f.call;
      left = f.left;
      planned = ap (λ calls. call ∷ calls) f.planned;
      recorded = f.recorded;
      error = f.error;
      answer = f.answer;
      exit_code = f.exit_code;
    })
  ]

  -- Whatever the calls answer, main gets the configuration, makes the manager with its options, sets up
  -- both controllers where the webhook port is 0 and the four webhooks where it is not, and starts the
  -- manager, in that order: either it makes all of these calls and exits with 0, or it stops at the
  -- first that fails and exits with 1.
  pub main-outcome :
      (flags : Flags)
      → Finished (plan flags) [] (main answers flags) ⊎ Failed (plan flags) [] (main answers flags)
  main-outcome flags = rw (main-in_order flags) (Runs-outcome (in_order-Runs (plan flags) []))
