-- ===== src/Controllers/Machine/Lifecycle/Stages.antt =====
-- The life of a KubernetesMachine as five moves between four stages, which a reconciliation refines.
use cluster_api_provider_kub.Controllers.Machine.Changes.{
  unchanged, failing, readying, unreadying, providing, Change,
}
use cluster_api_provider_kub.Prelude.{
  Bool, true, false, refl, is_some, ◌≡◌, ◌∙◌, sym, none, String, Bool-cases, inl, inr,
}
use cluster_api_provider_kub.Api.V1alpha3.{
  KubernetesMachine, set_machine_failure_message, set_machine_failure_reason,
}
use cluster_api_provider_kub.Platform.{Platform}
use cluster_api_provider_kub.Controllers.Machine.Normal.{
  fail_machine, has_failed, set_ready, set_provider_id,
}
use cluster_api_provider_kub.Kube.{Pod}

-- What a user sees of a machine.
pub data Stage : Type 0 where
  fresh provided ready failed : Stage

-- The moves, given whether the machine's pod may be made again.
pub data StageStep (recreation : Bool) : Stage → Stage → Type 0 where
  stays : {s : Stage} → StageStep recreation s s
  provides : StageStep recreation fresh provided
  readies : StageStep recreation provided ready
  unreadies : recreation ≡ true → StageStep recreation ready provided
  fails : {s : Stage} → StageStep recreation s failed

unfoldable pub stage_of : Bool → Bool → Bool → Stage
stage_of true _ _ = failed
stage_of false true _ = ready
stage_of false false true = provided
stage_of false false false = fresh

unfoldable pub stage : KubernetesMachine → Stage
unfolding stage_of
stage k = stage_of (has_failed k) k.status.ready (is_some k.spec.provider_id)

-- A machine is ready only with a provider ID.
abbrev pub IsProvided : KubernetesMachine → Type 0
IsProvided k = k.status.ready ≡ true → is_some k.spec.provider_id ≡ true

-- A change that nobody sees who looks at the stage alone.
pub record Quiet (k k' : KubernetesMachine) : Type 0 where
  pub failed_same : has_failed k' ≡ has_failed k
  pub ready_same : k'.status.ready ≡ k.status.ready
  pub provided_same : is_some k'.spec.provider_id ≡ is_some k.spec.provider_id
  pub recreation_same : k'.spec.allow_recreation ≡ k.spec.allow_recreation

pub record Moves (k k' : KubernetesMachine) : Type 0 where
  pub provided_kept : IsProvided k'
  pub moved : StageStep k.spec.allow_recreation (stage k) (stage k')

Quiet-stage : (k k' : KubernetesMachine) → Quiet k k' → stage k' ≡ stage k
unfolding stage
Quiet-stage k k' q = rw (q.failed_same, q.ready_same, q.provided_same) refl

pub Moves-Quiet : (k k' : KubernetesMachine) → IsProvided k → Quiet k k' → Moves k k'
Moves-Quiet k k' i q = record {
  provided_kept = λ r. q.provided_same ∙ i (sym q.ready_same ∙ r);
  moved = rw (Quiet-stage k k' q) stays;
}

pub Moves-fail_machine :
    (text : String) (k : KubernetesMachine) → IsProvided k → Moves k (fail_machine text k)
unfolding stage stage_of fail_machine has_failed set_machine_failure_message
    set_machine_failure_reason
Moves-fail_machine text k i = record { provided_kept = i; moved = fails }

pub Moves-then : (j k l : KubernetesMachine) → Moves j k → Quiet k l → Moves j l
Moves-then j k l m q = record {
  provided_kept = λ r. q.provided_same ∙ m.provided_kept (sym q.ready_same ∙ r);
  moved = rw (Quiet-stage k l q) m.moved;
}

pub after_Quiet :
    (j k l : KubernetesMachine) → IsProvided j → Quiet j k → (IsProvided k → Moves k l) → Moves j l
after_Quiet j k l i q go =
    let m = go (λ r. q.provided_same ∙ i (sym q.ready_same ∙ r)) in
    record {
      provided_kept = m.provided_kept;
      moved = rw (Quiet-stage j k q, q.recreation_same) at m.moved;
    }

pub Quiet-refl : (k : KubernetesMachine) → Quiet k k
Quiet-refl k = record {
  failed_same = refl;
  ready_same = refl;
  provided_same = refl;
  recreation_same = refl;
}

stage_eq :
    (k : KubernetesMachine) (r n : Bool)
    → has_failed k ≡ false
    → k.status.ready ≡ r
    → is_some k.spec.provider_id ≡ n
    → stage k ≡ stage_of false r n
unfolding stage
stage_eq k r n f e h = rw (f, e, h) refl

has_failed-set_ready :
    (b : Bool) (k : KubernetesMachine) → has_failed (set_ready b k) ≡ has_failed k
unfolding has_failed set_ready
has_failed-set_ready b k = refl

has_failed-set_provider_id :
    (p : Platform) (k : KubernetesMachine) (pod : Pod)
    → has_failed (set_provider_id p k pod) ≡ has_failed k
unfolding has_failed set_provider_id
has_failed-set_provider_id p k pod = refl

readies_of : {b : Bool} (r : Bool) → StageStep b (stage_of false r true) ready
unfolding stage_of
readies_of true = stays
readies_of false = readies

unreadies_of :
    {b : Bool} (r n : Bool)
    → b ≡ true
    → (r ≡ true → n ≡ true)
    → StageStep b (stage_of false r n) (stage_of false false n)
unfolding stage_of
unreadies_of true true a i = unreadies a
unreadies_of true false a i = absurd (cc (i refl))
unreadies_of false n a i = stays

module _ (p : Platform) (k : KubernetesMachine) (f : has_failed k ≡ false) (i : IsProvided k) where
  Moves-readying : is_some k.spec.provider_id ≡ true → Moves k (set_ready true k)
  unfolding set_ready stage_of
  Moves-readying n = record {
    provided_kept = λ _. n;
    moved =
        rw
          (
            stage_eq k k.status.ready true f refl n,
            stage_eq (set_ready true k) true true (has_failed-set_ready true k ∙ f) refl n,
          )
          (readies_of k.status.ready);
  }

  Moves-unreadying : k.spec.allow_recreation ≡ true → Moves k (set_ready false k)
  unfolding set_ready
  Moves-unreadying a = record {
    provided_kept = λ r. absurd (cc r);
    moved =
        rw
          (
            stage_eq k k.status.ready (is_some k.spec.provider_id) f refl refl,
            stage_eq (set_ready false k) false (is_some k.spec.provider_id)
                (has_failed-set_ready false k ∙ f) refl refl,
          )
          (unreadies_of k.status.ready (is_some k.spec.provider_id) a i);
  }

  Moves-providing : (pod : Pod) → k.spec.provider_id ≡ none → Moves k (set_provider_id p k pod)
  unfolding set_provider_id stage_of
  Moves-providing pod n =
      let unset : is_some k.spec.provider_id ≡ false = rw n refl in
      let unready : k.status.ready ≡ false = elim (Bool-cases k.status.ready) [
        | inl r ↦ absurd (cc (i r, unset))
        | inr r ↦ r
      ] in
      record {
        provided_kept = λ _. refl;
        moved =
            rw
              (
                stage_eq k false false f unready unset,
                stage_eq (set_provider_id p k pod) false true
                    (has_failed-set_provider_id p k pod ∙ f) unready refl,
              )
              provides;
      }

  pub Moves-Change : (k' : KubernetesMachine) → Change p k k' → Moves k k'
  Moves-Change k' (unchanged e) = rw e (Moves-Quiet k k i (Quiet-refl k))
  Moves-Change k' (failing text e) = rw e (Moves-fail_machine text k i)
  Moves-Change k' (readying n e) = rw e (Moves-readying n)
  Moves-Change k' (unreadying a e) = rw e (Moves-unreadying a)
  Moves-Change k' (providing pod n e) = rw e (Moves-providing pod n)
