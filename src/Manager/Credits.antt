-- ===== src/Manager/Credits.antt =====
-- The calls of credits.aleo in program_manager.go: each names a function, its inputs and a broadcast,
-- which the options of the caller may still change.
pub mod Claim
use provable_sdk.Base.{
  ℕ, List, [], ◌∷◌, ◌++◌, Bool, true, Option, none, some, Bytes, codes, if◌then◌else◌,
}
use provable_sdk.Text.Decimal.{format_uint}
use provable_sdk.Memory.{Memory}
use provable_sdk.Provable.Submit.{Service}
use provable_sdk.Imports.{credits}
use provable_sdk.Manager.{ProgramManager, Managing}
use provable_sdk.Manager.Execute.{ExecuteOption, apply_options, request_options, execute_via_dps}

-- fmt.Sprintf("%du64", amount), fmt.Sprintf("%du8", percent), fmt.Sprintf("%t", b)
unfoldable pub u64_literal : ℕ → Bytes
u64_literal amount = format_uint amount ++ codes "u64"

unfoldable pub u8_literal : ℕ → Bytes
u8_literal percent = format_uint percent ++ codes "u8"

unfoldable bool_literal : Bool → Bytes
bool_literal b = if b then codes "true" else codes "false"

module _ (sv : Service) (mem : Memory) (pm : ProgramManager) (fuel : ℕ) where
  call_credits : Bytes → Option (List Bytes) → List ExecuteOption → Managing Bytes
  call_credits function inputs opts =
      execute_via_dps sv mem pm fuel
        (apply_options (request_options credits function inputs true) opts)

  unfoldable transfer_public : Bytes → ℕ → List ExecuteOption → Managing Bytes
  unfolding call_credits
  transfer_public recipient amount =
      call_credits (codes "transfer_public") (some (recipient ∷ u64_literal amount ∷ []))

  unfoldable transfer_private : Bytes → ℕ → Bytes → List ExecuteOption → Managing Bytes
  unfolding call_credits
  transfer_private recipient amount record_input =
      call_credits (codes "transfer_private")
        (some (record_input ∷ recipient ∷ u64_literal amount ∷ []))

  unfoldable transfer_public_to_private : Bytes → ℕ → List ExecuteOption → Managing Bytes
  unfolding call_credits
  transfer_public_to_private recipient amount =
      call_credits (codes "transfer_public_to_private") (some (recipient ∷ u64_literal amount ∷ []))

  unfoldable transfer_private_to_public : Bytes → ℕ → Bytes → List ExecuteOption → Managing Bytes
  unfolding call_credits
  transfer_private_to_public recipient amount record_input =
      call_credits (codes "transfer_private_to_public")
        (some (record_input ∷ recipient ∷ u64_literal amount ∷ []))

  unfoldable join : Bytes → Bytes → List ExecuteOption → Managing Bytes
  unfolding call_credits
  join record1 record2 = call_credits (codes "join") (some (record1 ∷ record2 ∷ []))

  unfoldable split : Bytes → ℕ → List ExecuteOption → Managing Bytes
  unfolding call_credits
  split record_input amount =
      call_credits (codes "split") (some (record_input ∷ u64_literal amount ∷ []))

  unfoldable bond_validator : Bytes → Bytes → ℕ → ℕ → List ExecuteOption → Managing Bytes
  unfolding call_credits
  bond_validator validator withdraw_address amount commission_percent =
      call_credits (codes "bond_validator") (
        some
          (validator ∷ withdraw_address ∷ u64_literal amount ∷ u8_literal commission_percent ∷ []))

  unfoldable unbond_validator : ℕ → List ExecuteOption → Managing Bytes
  unfolding call_credits
  unbond_validator amount = call_credits (codes "unbond_validator") (some (u64_literal amount ∷ []))

  unfoldable pub claim_unbonded : List ExecuteOption → Managing Bytes
  unfolding call_credits
  claim_unbonded = call_credits (codes "claim_unbond_public") none

  unfoldable set_validator_state : Bool → List ExecuteOption → Managing Bytes
  unfolding call_credits
  set_validator_state is_open =
      call_credits (codes "set_validator_state") (some (bool_literal is_open ∷ []))
