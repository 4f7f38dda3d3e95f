-- ===== src/Manager/Batch/Executed.antt =====
-- ExecuteBatch with Execute as it is modelled: what a result without an error holds.
use mathlib.Core.List.{Forall₂}
use mathlib.Core.Path.{subst}
use provable_sdk.Base.{ℕ, false, ◌≡◌, sym, ap, List, some, none, Bytes}
use provable_sdk.Exec.{Result, ok, err}
use provable_sdk.Memory.{Memory}
use provable_sdk.Provable.Submit.{Service}
use provable_sdk.Imports.{ProvingRequestOptions}
use provable_sdk.Manager.{ProgramManager, Managed}
use provable_sdk.Manager.Execute.{apply_options, request_options, execute}
use provable_sdk.Manager.Execute.Outcome.{IsExecuted, execute_via_dps-IsExecuted}
use provable_sdk.Manager.Batch.{ExecuteRequest, ExecuteResult, Batch, result_of, Run, Returned}
use provable_sdk.Manager.Batch.Invariant.{IsAnswer}
use provable_sdk.Manager.Batch.Results.{Returned-IsAnswer}

-- The options that a request comes to.
unfoldable pub options_of : ExecuteRequest → ProvingRequestOptions
options_of r = apply_options (request_options r.program_name r.function_name none false) r.options

module _ (sv : Service) (mem : Memory) (pm : ProgramManager) (fuel : ℕ) where
  -- Execute returns this for the request, from some state of the world and the caches.
  abbrev pub Executes : ExecuteRequest → Result Bytes → Type 0
  Executes r o =
      (s : Managed) × (u : Managed) × (execute sv mem pm fuel r.program_name r.function_name
          r.options s
        ≡ (some o, u))

  -- A result without an error holds the ID of an execution of its request.
  pub IsReported : ExecuteRequest → ExecuteResult → Type 0
  IsReported r x =
      x.error ≡ none → (s : Managed) × IsExecuted sv mem pm fuel (options_of r) s x.tx_id

  answer-IsReported :
      (r : ExecuteRequest) (x : ExecuteResult) → IsAnswer Executes r x → IsReported r x
  unfolding IsAnswer IsReported execute options_of result_of
  answer-IsReported r x (ok id, (s, u, e), same) none_is = (
    s,
    subst (IsExecuted sv mem pm fuel (options_of r) s) (sym (ap ExecuteResult.tx_id same))
        (execute_via_dps-IsExecuted sv mem pm fuel (options_of r) s e),
  )
  answer-IsReported r x (err f, e, same) none_is = absurd (cc (same, none_is))

  all-IsReported :
      {rs : List ExecuteRequest} {xs : List ExecuteResult}
      → Forall₂ (IsAnswer Executes) rs xs
      → Forall₂ IsReported rs xs
  all-IsReported Forall₂.nil = Forall₂.nil
  all-IsReported (Forall₂.cons {a = r} {b = x} h t) =
      Forall₂.cons (answer-IsReported r x h) (all-IsReported t)

  -- When ExecuteBatch returns, where Execute returns what it does from some state, each result without
  -- an error holds the transaction ID of an execution of its own request, with the options of that
  -- request: one that the prover answered, and whose broadcast, if asked for, has not failed.
  pub Returned-IsReported :
      (requests : List ExecuteRequest) {k : ℕ} {b : Batch} {results : List ExecuteResult}
      → Run Executes requests k b
      → Returned b results
      → Forall₂ IsReported requests results
  Returned-IsReported requests run returned =
      all-IsReported (Returned-IsAnswer Executes requests run returned)
