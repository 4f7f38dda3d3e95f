-- ===== src/Provable/Reply/Id.antt =====
-- ProvingResponse.TransactionID.
use mathlib.Core.List.{cons-ne-nil}
use provable_sdk.Base.{◌≡◌, ◌≢◌, ◌∙◌, [], ◌∷◌, Bytes, Bool-cases, inl, inr, arith}
use provable_sdk.Text.{is_empty}
use provable_sdk.Exec.{ok_inj, Result, ok, err}
use provable_sdk.Json.{Json}
use provable_sdk.Types.{ProvingResponse}
use provable_sdk.Provable.Reply.{transaction_id, checked_id}

module _ (json : Json) where
  checked_id-ne-nil : (x : Result Bytes) {id : Bytes} → checked_id json x ≡ ok id → id ≢ []
  unfolding checked_id is_empty
  checked_id-ne-nil (ok []) h = absurd (cc h)
  checked_id-ne-nil (ok (c ∷ t)) h = λ e. cons-ne-nil c t (ok_inj h ∙ e)
  checked_id-ne-nil (err e) h = absurd (cc h)

  -- TransactionID gives no empty ID.
  pub transaction_id-ne-nil :
      (r : ProvingResponse) {id : Bytes} → transaction_id json r ≡ ok id → id ≢ []
  unfolding transaction_id
  transaction_id-ne-nil r {id} h = elim (Bool-cases (is_empty r.transaction)) [
    | inl e ↦ absurd (ground (arith, e, h))
    | inr e ↦ checked_id-ne-nil (json.id r.transaction) {id = id} (ground (arith, e, h))
  ]
