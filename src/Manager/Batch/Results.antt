-- ===== src/Manager/Batch/Results.antt =====
-- What ExecuteBatch returns.
use mathlib.Core.Path.{subst}
use mathlib.Core.List.{Forall₂}
use provable_sdk.Base.{
  ℕ, ◌≡◌, sym, ap, ◌∙◌, List, [], ◌∷◌, ◌++◌, arith, map, Bytes, All, append-nil,
}
use provable_sdk.Exec.{Result}
use provable_sdk.Manager.Batch.{
  ExecuteRequest, ExecuteResult, Phase, starting, executing, stored, released, finished, Slot,
  Batch, Run, Returned, waited,
}
use provable_sdk.Manager.Batch.Invariant.{total, waits, lives, IsAnswer, IsRight, Settled}
use provable_sdk.Manager.Batch.Moves.{Run-Inv}

module _ (Returns : ExecuteRequest → Result Bytes → Type 0) where
  done-IsAnswer :
      (p : Phase) (r : ExecuteRequest) (x : ExecuteResult)
      → waits p ≡ 0
      → IsRight Returns p r x
      → IsAnswer Returns r x
  done-IsAnswer starting r x h s = absurd (omega (arith, h))
  done-IsAnswer executing r x h s = absurd (omega (arith, h))
  done-IsAnswer stored r x h s = s
  done-IsAnswer released r x h s = s
  done-IsAnswer finished r x h s = s

  answers :
      (slots : List Slot)
      → total lives slots ≡ 0
      → All (Settled Returns) slots
      → Forall₂ (IsAnswer Returns) (map Slot.request slots) (map Slot.result slots)
  answers [] h s = Forall₂.nil
  answers (y ∷ ys) h s =
      Forall₂.cons (done-IsAnswer y.phase y.request y.result (omega (arith, h)) (s.0))
        (answers ys (omega (arith, h)) (s.1))

  -- When ExecuteBatch returns, it has one result for each request, in the order of the requests, and
  -- each is what Execute returned for its own request.
  pub Returned-IsAnswer :
      (requests : List ExecuteRequest) {k : ℕ} {b : Batch} {results : List ExecuteResult}
      → Run Returns requests k b
      → Returned b results
      → Forall₂ (IsAnswer Returns) requests results
  Returned-IsAnswer requests {b} run (waited e h) =
      let inv = Run-Inv Returns requests run in
      subst (λ rs. Forall₂ (IsAnswer Returns) rs (map Slot.result b.slots))
        (sym (append-nil _) ∙ ap (λ ps. map Slot.request b.slots ++ ps) (sym e) ∙ inv.kept)
        (answers b.slots (sym inv.counted ∙ h) inv.settled)
