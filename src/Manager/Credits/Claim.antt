-- ===== src/Manager/Credits/Claim.antt =====
-- ClaimUnbonded, which gives no inputs.
use provable_sdk.Base.{ℕ, ◌≡◌, ◌≢◌, refl, ◌∙◌, List, [], ◌∷◌, true, none, some, Bytes, codes, All}
use provable_sdk.Exec.{ok}
use provable_sdk.Memory.{Memory}
use provable_sdk.Bridge.{c_string}
use provable_sdk.Bridge.Rust.{failed, done}
use provable_sdk.Bridge.Rust.Crates.{Crates}
use provable_sdk.Bridge.Rust.Linked.{linked}
use provable_sdk.Provable.Submit.{Service}
use provable_sdk.Imports.{ProvingRequestOptions, credits}
use provable_sdk.Imports.Refused.{AreMessages}
use provable_sdk.Manager.{ProgramManager, Managed}
use provable_sdk.Manager.Execute.{
  ExecuteOption, with_inputs, with_private_key, with_broadcast, with_dps_privacy, with_prover_url,
  apply_execute_option, apply_options, request_options, chosen_key,
}
use provable_sdk.Manager.Execute.NoInputs.{execute_via_dps-ne-ok}
use provable_sdk.Manager.Credits.{call_credits, claim_unbonded}

-- An option other than WithInputs.
abbrev pub KeepsInputs : ExecuteOption → Type 0
KeepsInputs (with_inputs inputs) = ⊥
KeepsInputs (with_private_key pk) = Unit
KeepsInputs (with_broadcast broadcast) = Unit
KeepsInputs (with_dps_privacy privacy) = Unit
KeepsInputs (with_prover_url url) = Unit

option_inputs :
    (o : ProvingRequestOptions) (opt : ExecuteOption)
    → KeepsInputs opt
    → (apply_execute_option o opt).inputs ≡ o.inputs
unfolding apply_execute_option
option_inputs o (with_inputs inputs) h = absurd h
option_inputs o (with_private_key pk) h = refl
option_inputs o (with_broadcast broadcast) h = refl
option_inputs o (with_dps_privacy privacy) h = refl
option_inputs o (with_prover_url url) h = refl

options_inputs :
    (o : ProvingRequestOptions) (opts : List ExecuteOption)
    → All KeepsInputs opts
    → (apply_options o opts).inputs ≡ o.inputs
unfolding apply_options
options_inputs o [] h = refl
options_inputs o (opt ∷ opts) h =
    options_inputs (apply_execute_option o opt) opts (h.1) ∙ option_inputs o opt (h.0)

module _ (sv : Service) (k : Crates) (rng rng' x : Bytes) (mem : Memory) (pm : ProgramManager)
    (fuel : ℕ) where
  -- What ClaimUnbonded starts from, with the options of the caller.
  abbrev pub claim_options : List ExecuteOption → ProvingRequestOptions
  claim_options opts =
      apply_options (request_options credits (codes "claim_unbond_public") none true) opts

  -- If encoding/json writes nil inputs as null, serde_json refuses null as a list, the messages of the
  -- errors that aleo_authorize can then give come through to the Go side, and the private key is read,
  -- then ClaimUnbonded returns no transaction ID, whatever the node and the prover answer, whatever is
  -- cached, and whatever options but WithInputs the caller adds.
  pub claim_unbonded-ne-ok :
      (opts : List ExecuteOption) (s : Managed) {sk : k.PrivateKey} {id : Bytes} {u : Managed}
      → sv.lib ≡ linked k rng rng'
      → sv.json.marshal_strings none ≡ ok (codes "null")
      → k.read_strings (codes "null") ≡ failed x
      → AreMessages k sv.json rng rng' x
      → All KeepsInputs opts
      → k.parse_private_key (c_string (chosen_key mem pm.account (claim_options opts).private_key))
        ≡ done sk
      → claim_unbonded sv mem pm fuel opts s ≢ (some (ok id), u)
  unfolding claim_unbonded call_credits request_options
  claim_unbonded-ne-ok opts s lib null refused readable keeps read =
      execute_via_dps-ne-ok sv k rng rng' x mem pm fuel lib null refused readable _ s
        (options_inputs _ opts keeps) read
