-- ===== src/Controllers/Machine/Deletion.antt =====
-- When a deleted KubernetesMachine lets go of its finalizer.
use cluster_api_provider_kub.Prelude.{
  Bool, arith, ◌&&◌, ◌↔◌, Option-cases, if◌then◌else◌, ◌∷◌, none, some, true, false, ◌≡◌, refl, inl,
  inr, In, is_some, Bool-cases, Option, not, ap,
}
use cluster_api_provider_kub.Go.{ok, err, Error, Result}
use cluster_api_provider_kub.Kube.{Machine, Cluster, Pod}
use cluster_api_provider_kub.Api.V1alpha3.{KubernetesMachine, kubernetes_machine_finalizer}
use cluster_api_provider_kub.Platform.{Platform, Log, get_pod}
use cluster_api_provider_kub.Platform.Lawful.{FinalizersLaw}
use cluster_api_provider_kub.Controllers.Common.{Run, stop, returned, is_not_found, empty_result}
use cluster_api_provider_kub.Controllers.Machine.Normal.{fail_machine, is_controlled_by}
use cluster_api_provider_kub.Controllers.Machine.Delete.{
  reconcile_delete, remove_machine_finalizer, delete_key, reset_answer, kubeadm_reset, after_reset,
}

-- Why a machine of a control plane may go: its pod is gone, is another's, or has been reset.
pub data MayGo (p : Platform) (machine : Machine) (k : KubernetesMachine) (log : Log) : Type 0 where
  pod_gone :
      (e : Error)
      → p.pod log (delete_key p machine k) ≡ err e
      → is_not_found e ≡ true
      → MayGo p machine k log
  pod_not_owned :
      (pod : Pod)
      → p.pod log (delete_key p machine k) ≡ ok pod
      → is_controlled_by p pod.meta k.meta ≡ false
      → MayGo p machine k log
  pod_reset :
      (pod : Pod)
      → p.pod log (delete_key p machine k) ≡ ok pod
      → (kubeadm_reset p (get_pod (delete_key p machine k) ∷ log) pod).0 ≡ none
      → MayGo p machine k log

module _ (p : Platform) (machine : Machine) (k : KubernetesMachine) (cluster : Cluster) (log : Log)
    (alive : cluster.meta.deletion_timestamp ≡ none)
    (control_plane : p.is_control_plane_machine machine ≡ true)
    (held : In kubernetes_machine_finalizer k.meta.finalizers) where
  answer-MayGo :
      (r : Result Pod)
      → p.pod log (delete_key p machine k) ≡ r
      → ¬ In kubernetes_machine_finalizer
          (reset_answer p k (get_pod (delete_key p machine k) ∷ log) r).object.meta.finalizers
      → MayGo p machine k log
  unfolding reset_answer
  answer-MayGo (err e) q gone = elim (Bool-cases (is_not_found e)) [
    | inl n ↦ pod_gone e q n
    | inr n ↦ absurd ((rw n at gone) held)
  ]
  answer-MayGo (ok pod) q gone = elim (Bool-cases (is_controlled_by p pod.meta k.meta)) [
    | inl c ↦
        reset (kubeadm_reset p (get_pod (delete_key p machine k) ∷ log) pod) refl (rw c at gone)
    | inr c ↦ pod_not_owned pod q c
  ]
    where
      reset :
          (a : Option Error × Log)
          → kubeadm_reset p (get_pod (delete_key p machine k) ∷ log) pod ≡ a
          → ¬ In kubernetes_machine_finalizer (after_reset p k a).object.meta.finalizers
          → MayGo p machine k log
      reset (none, log') e gone' = pod_reset pod q (ap (λ (t : Option Error × Log). t.0) e)
      reset (some e, log') _ gone' = absurd (gone' held)

  -- Where the cluster is not being deleted, a control plane's machine that has the finalizer loses it
  -- only if its pod is gone, is not controlled by it, or has been reset with no error.
  reconcile_delete-MayGo :
      ¬ In kubernetes_machine_finalizer
        (reconcile_delete p machine k cluster log).object.meta.finalizers
      → MayGo p machine k log
  unfolding reconcile_delete
  reconcile_delete-MayGo gone =
      answer-MayGo (p.pod log (delete_key p machine k)) refl (rw (alive, control_plane) at gone)

-- A deleted machine may go: its cluster is being deleted, it is no control plane's, or as above.
pub data Goes (p : Platform) (machine : Machine) (k : KubernetesMachine) (cluster : Cluster)
    (log : Log) : Type 0 where
  with_its_cluster : is_some cluster.meta.deletion_timestamp ≡ true → Goes p machine k cluster log
  as_worker : p.is_control_plane_machine machine ≡ false → Goes p machine k cluster log
  as_control_plane : MayGo p machine k log → Goes p machine k cluster log

-- A run leaves nothing of the finalizer, and returns no error.
abbrev pub Releases : Run KubernetesMachine → Type 0
Releases run =
    (¬ In kubernetes_machine_finalizer run.object.meta.finalizers)
    × (run.exit ≡ returned empty_result none)

module _ (p : Platform) (law : FinalizersLaw p) (machine : Machine) (k : KubernetesMachine)
    (cluster : Cluster) (log : Log) where
  remove_machine_finalizer-Releases : (l : Log) → Releases (stop (remove_machine_finalizer p k) l)
  unfolding remove_machine_finalizer
  remove_machine_finalizer-Releases l =
      (law.not_in_remove k.meta.finalizers kubernetes_machine_finalizer, refl)

  after_reset-Releases : (r : Option Error × Log) → r.0 ≡ none → Releases (after_reset p k r)
  unfolding after_reset
  after_reset-Releases (none, l) e = remove_machine_finalizer-Releases l
  after_reset-Releases (some x, l) e = absurd (cc e)

  reset_answer-Releases :
      MayGo p machine k log
      → Releases (
          reset_answer p k
            (get_pod (delete_key p machine k) ∷ log)
            (p.pod log (delete_key p machine k)))
  unfolding reset_answer fail_machine
  reset_answer-Releases (pod_gone e q n) =
      rw (q, reset_answer, n)
        (remove_machine_finalizer-Releases (get_pod (delete_key p machine k) ∷ log))
  reset_answer-Releases (pod_not_owned pod q c) =
      rw (q, reset_answer, c)
        (remove_machine_finalizer-Releases (get_pod (delete_key p machine k) ∷ log))
  reset_answer-Releases (pod_reset pod q r) =
      elim (Bool-cases (is_controlled_by p pod.meta k.meta)) [
        | inl c ↦
            rw (q, reset_answer, c)
              (after_reset-Releases (kubeadm_reset p (get_pod (delete_key p machine k) ∷ log) pod)
                r)
        | inr c ↦
            rw (q, reset_answer, c)
              (remove_machine_finalizer-Releases (get_pod (delete_key p machine k) ∷ log))
      ]

  Releases-if :
      (b : Bool) (x y : Run KubernetesMachine)
      → (b ≡ true → Releases x)
      → (b ≡ false → Releases y)
      → Releases (if b then x else y)
  Releases-if true x y hx hy = hx refl
  Releases-if false x y hx hy = hy refl

  -- A machine that may go is released.
  pub reconcile_delete-Releases :
      Goes p machine k cluster log → Releases (reconcile_delete p machine k cluster log)
  unfolding reconcile_delete
  reconcile_delete-Releases g =
      Releases-if
        (not (is_some cluster.meta.deletion_timestamp) && p.is_control_plane_machine machine) _ _
        (λ both. reset_answer-Releases (may_go both g)) (λ _. remove_machine_finalizer-Releases log)
    where
      may_go :
          (not (is_some cluster.meta.deletion_timestamp) && p.is_control_plane_machine machine)
            ≡ true
          → Goes p machine k cluster log
          → MayGo p machine k log
      may_go both (with_its_cluster d) = absurd (ground (arith, both, d))
      may_go both (as_worker c) = absurd (ground (arith, both, c))
      may_go both (as_control_plane m) = m

  -- Where removing a finalizer leaves nothing of it: a deleted machine with the finalizer is without it
  -- after `reconcileDelete` exactly where its cluster is being deleted, it is no control plane's, or
  -- its pod is gone, is not controlled by it, or has been reset with no error; and then no error is
  -- returned.
  pub reconcile_delete-Goes :
      In kubernetes_machine_finalizer k.meta.finalizers
      → ((¬ In kubernetes_machine_finalizer
            (reconcile_delete p machine k cluster log).object.meta.finalizers)
          ↔ Goes p machine k cluster log)
        × (Goes p machine k cluster log
            → (reconcile_delete p machine k cluster log).exit ≡ returned empty_result none)
  reconcile_delete-Goes held =
      ((goes, λ g. (reconcile_delete-Releases g).0), λ g. (reconcile_delete-Releases g).1)
    where
      goes :
          ¬ In kubernetes_machine_finalizer
            (reconcile_delete p machine k cluster log).object.meta.finalizers
          → Goes p machine k cluster log
      goes gone = elim (Option-cases cluster.meta.deletion_timestamp) [
        | inr (t, e) ↦ with_its_cluster (ap is_some e)
        | inl alive ↦ elim (Bool-cases (p.is_control_plane_machine machine)) [
          | inr c ↦ as_worker c
          | inl c ↦
              as_control_plane (reconcile_delete-MayGo p machine k cluster log alive c held gone)
        ]
      ]
