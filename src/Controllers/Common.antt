-- ===== src/Controllers/Common.antt =====
-- What the two reconcilers share: what a reconciliation returns, and the state in which it leaves its
-- object.
use cluster_api_provider_kub.Prelude.{ℕ, Bool, true, false, Option, none, some}
use cluster_api_provider_kub.Go.{
  Error, status, message, wrapped, not_found, already_exists, other_reason,
}
use cluster_api_provider_kub.Platform.{Log}

-- `time.Second`, in nanoseconds.
abbrev pub second : ℕ
second = 1_000_000_000

-- `ctrl.Result`; the controllers never set `Requeue`.
pub record CtrlResult : Type 0 where
  pub requeue_after : ℕ

abbrev pub empty_result : CtrlResult
empty_result = record { requeue_after = 0 }

-- A `(ctrl.Result, error)` that is returned, or a run-time panic.
pub data Exit : Type 0 where
  returned : CtrlResult → Option Error → Exit
  panicked : Exit

-- How a part of a reconciliation ends: its object as it stands, the calls made, newest first, and
-- what is returned.
pub record Run (A : Type 0) : Type 0 where
  pub object : A
  pub log : Log
  pub exit : Exit

module _ {A : Type 0} (object' : A) (log' : Log) where
  -- `return ctrl.Result{}, nil`
  abbrev pub stop : Run A
  stop = record { object = object'; log = log'; exit = returned empty_result none }

  -- `return ctrl.Result{}, err`
  abbrev pub stop_with : Option Error → Run A
  stop_with e = record { object = object'; log = log'; exit = returned empty_result e }

  -- `return ctrl.Result{RequeueAfter: t}, err`
  abbrev pub requeue : ℕ → Option Error → Run A
  requeue t e = record {
    object = object';
    log = log';
    exit = returned (record { requeue_after = t }) e;
  }

  abbrev pub panic_run : Run A
  panic_run = record { object = object'; log = log'; exit = panicked }

-- `k8serrors.IsNotFound`, which does not look into wrapped errors.
unfoldable pub is_not_found : Error → Bool
is_not_found (status not_found _) = true
is_not_found (status already_exists _) = false
is_not_found (status other_reason _) = false
is_not_found (message _) = false
is_not_found (wrapped _ _) = false

-- `k8serrors.IsAlreadyExists`
unfoldable pub is_already_exists : Error → Bool
is_already_exists (status not_found _) = false
is_already_exists (status already_exists _) = true
is_already_exists (status other_reason _) = false
is_already_exists (message _) = false
is_already_exists (wrapped _ _) = false

-- What the deferred function leaves of the named result `rerr`, given the patch's error.
unfoldable pub deferred_exit : Exit → Option Error → Exit
deferred_exit (returned r none) patch_error = returned r patch_error
deferred_exit (returned r (some e)) patch_error = returned r (some e)
deferred_exit panicked patch_error = panicked
