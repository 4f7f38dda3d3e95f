-- ===== src/Manager/Execute.antt =====
-- ProgramManager from an authorization to a transaction ID. A run is on fuel, for the walk over imports
-- and for the polls of ExecuteAndWait.
pub mod Outcome
pub mod Waited
pub mod Traffic
pub mod NoInputs
use provable_sdk.Base.{
  ℕ, List, [], ◌∷◌, ◌++◌, Bool, true, false, not, Option, none, some, foldl, ℤ, pos, negsuc, Bytes,
  codes, ◌==◌, if◌then◌else◌,
}
use provable_sdk.Text.{is_empty}
use provable_sdk.Text.Decimal.{format_int}
use provable_sdk.Fault.{
  Fault, annotate, plain, panic, sentinel, no_private_key, provable_client_not_configured,
}
use provable_sdk.Exec.{Result, ok, err, lift}
use provable_sdk.Partial.{Partial, total, on_fault, ◌>>=◌}
use provable_sdk.Http.Env.{Trace, Net}
use provable_sdk.Types.{
  Authorization, ProvingRequest, ProvingResponse, ProvingResult, BroadcastResult,
  DelegatedProvingParams, Transaction,
}
use provable_sdk.Json.{Json}
use provable_sdk.Memory.{Memory}
use provable_sdk.Account.{Account, private_key}
use provable_sdk.Network.Queries
use provable_sdk.Network.Submit.{submit_transaction}
use provable_sdk.Network.Wait.{wait_for_transaction}
use provable_sdk.Imports.{Programs, ProvingRequestOptions, build_authorization_with_cache}
use provable_sdk.Imports
use provable_sdk.Provable.{ProvableClient, Session}
use provable_sdk.Provable.Jwt.{Dps}
use provable_sdk.Provable.Reply.{transaction_id}
use provable_sdk.Provable.Submit.{Service}
use provable_sdk.Provable.Submit
use provable_sdk.Manager.{ProgramManager, Managed, Managing}

abbrev cache_entries : List (Bytes × Bytes) → Option (List (Bytes × Bytes)) → List (Bytes × Bytes)
cache_entries old none = old
cache_entries old (some entries) = entries

-- An action on the world and the cache, on the session, and on the world alone.
abbrev on_programs : {A : Type 0} → Partial Programs A → Managing A
on_programs act s =
    let (r, p) = act (record { trace = s.session.trace; cache = some s.programs }) in
    (
      r,
      record {
        session = record s.session { trace = p.trace };
        programs = cache_entries s.programs p.cache;
      },
    )

abbrev on_session : {A : Type 0} → Dps A → Managing A
on_session act s = let (r, session) = act s.session in (some r, record s { session = session })

abbrev on_trace : {A : Type 0} → Partial Trace A → Managing A
on_trace act s =
    let (r, t) = act s.session.trace in (r, record s { session = record s.session { trace = t } })

pub data ExecuteOption : Type 0 where
  with_inputs : Option (List Bytes) → ExecuteOption
  with_private_key : Bytes → ExecuteOption
  with_broadcast : Bool → ExecuteOption
  with_dps_privacy : Bool → ExecuteOption
  with_prover_url : Bytes → ExecuteOption

unfoldable pub apply_execute_option : ProvingRequestOptions → ExecuteOption → ProvingRequestOptions
apply_execute_option o (with_inputs inputs) = record o { inputs = inputs }
apply_execute_option o (with_private_key pk) = record o { private_key = pk }
apply_execute_option o (with_broadcast broadcast) = record o { broadcast = broadcast }
apply_execute_option o (with_dps_privacy privacy) = record o { dps_privacy = privacy }
apply_execute_option o (with_prover_url url) = record o { prover_url = url }

-- for _, opt := range opts { opt(&o) }
unfoldable pub apply_options : ProvingRequestOptions → List ExecuteOption → ProvingRequestOptions
unfolding apply_execute_option
apply_options o opts = foldl apply_execute_option o opts

-- What Execute and the calls of credits.aleo start from.
unfoldable pub request_options : Bytes → Bytes → Option (List Bytes) → Bool → ProvingRequestOptions
request_options program function inputs broadcast = record {
  program_name = program;
  function_name = function;
  inputs = inputs;
  broadcast = broadcast;
  dps_privacy = false;
  private_key = [];
  prover_url = [];
}

account_key : Memory → Option Account → Bytes
account_key mem none = []
account_key mem (some a) = private_key mem a

-- The key of the options, or else the key of the account.
unfoldable pub chosen_key : Memory → Option Account → Bytes → Bytes
unfolding account_key is_empty
chosen_key mem account key = if is_empty key then account_key mem account else key

-- BuildProvingRequestFromAuthorization; a nil fee authorization is empty
unfoldable pub build_proving_request_from_authorization : Authorization → Bool → ProvingRequest
build_proving_request_from_authorization auth broadcast = record {
  authorization = auth.raw;
  fee_authorization = [];
  broadcast = broadcast;
}

unfoldable pub proving_params : ProvingRequestOptions → ProvingRequest → DelegatedProvingParams
proving_params opts req = record {
  proving_request = req;
  dps_privacy = opts.dps_privacy;
  url = opts.prover_url;
}

-- statusCode != http.StatusOK
failed_status : ℤ → Bool
failed_status (pos n) = not (n == 200)
failed_status (negsuc n) = true

-- The error of a broadcast that was asked for and did not succeed.
unfoldable pub broadcast_fault : Bool → Option BroadcastResult → Option Fault
unfolding failed_status
broadcast_fault false b = none
broadcast_fault true none = none
broadcast_fault true (some b) =
    if failed_status b.status_code
    then some (
        plain (
          codes "broadcast failed: "
          ++ b.message
          ++ codes " (status "
          ++ format_int b.status_code
          ++ codes ")"))
    else none

-- if pm.provableClient == nil { return …, ErrProvableClientNotConfigured }
configured : {A : Type 0} → Option ProvableClient → (ProvableClient → Managing A) → Managing A
configured none act s = (some (err (sentinel provable_client_not_configured)), s)
configured (some c) act s = act c s

module _ (json : Json) where
  or_transaction_id : Option Fault → ProvingResponse → Result Bytes
  or_transaction_id (some e) r = err e
  or_transaction_id none r = transaction_id json r

  -- The end of ExecuteViaDPS; a nil response would be followed.
  proved : Bool → Option ProvingResponse → Result Bytes
  unfolding or_transaction_id
  proved broadcast none = err panic
  proved broadcast (some r) = or_transaction_id (broadcast_fault broadcast r.broadcast_result) r

module _ (sv : Service) (mem : Memory) (pm : ProgramManager) (fuel : ℕ) where
  authorize_with : ProvingRequestOptions → Bytes → Managing Authorization
  unfolding is_empty
  authorize_with opts key s =
      if is_empty key
      then (some (err (sentinel no_private_key)), s)
      else on_programs
          (build_authorization_with_cache sv.env sv.json sv.lib pm.network_client fuel
            (record (request_options opts.program_name opts.function_name opts.inputs false) {
              private_key = key;
            }))
          s

  -- ProgramManager.BuildAuthorization
  unfoldable pub build_authorization : ProvingRequestOptions → Managing Authorization
  unfolding authorize_with
  build_authorization opts = authorize_with opts (chosen_key mem pm.account opts.private_key)

  unfoldable pub build_proving_request : ProvingRequestOptions → Managing ProvingRequest
  build_proving_request opts = do
    auth ← on_fault (annotate (codes "build authorization")) (build_authorization opts)
    total (lift (ok (build_proving_request_from_authorization auth opts.broadcast)))

  unfoldable submit_proving_request : ProvingRequestOptions → Managing (Option ProvingResponse)
  unfolding configured
  submit_proving_request opts = configured pm.provable_client (λ c. do
    req ← build_proving_request opts
    on_session (Submit.submit_proving_request sv c (proving_params opts req)))

  unfoldable submit_proving_request_safe : ProvingRequestOptions → Managing ProvingResult
  unfolding configured
  submit_proving_request_safe opts = configured pm.provable_client (λ c. do
    req ← build_proving_request opts
    on_session (Submit.submit_proving_request_safe sv c (proving_params opts req)))

  prove_via : ProvingRequestOptions → ProvableClient → Managing Bytes
  unfolding proved
  prove_via opts c = do
    req ← build_proving_request opts
    r ←
        on_fault (annotate (codes "prove"))
          (on_session (Submit.submit_proving_request sv c (proving_params opts req)))
    total (lift (proved sv.json opts.broadcast r))

  -- ExecuteViaDPS
  unfoldable pub execute_via_dps : ProvingRequestOptions → Managing Bytes
  unfolding configured prove_via
  execute_via_dps opts = configured pm.provable_client (prove_via opts)

  unfoldable pub execute : Bytes → Bytes → List ExecuteOption → Managing Bytes
  execute program function opts =
      execute_via_dps (apply_options (request_options program function none false) opts)

  -- ExecuteAndWait, with the poll interval
  unfoldable pub execute_and_wait : Bytes → Bytes → ℕ → List ExecuteOption → Managing Transaction
  execute_and_wait program function d opts = do
    tx_id ← execute_via_dps (apply_options (request_options program function none true) opts)
    on_trace (wait_for_transaction sv.env sv.json pm.network_client fuel tx_id d)

  -- The methods that pass a call on to the network client.
  unfoldable broadcast : Bytes → Net Bytes
  broadcast transaction = submit_transaction sv.env sv.json pm.network_client transaction

  unfoldable get_program : Bytes → Net Bytes
  get_program program_id = Queries.get_program sv.env sv.json pm.network_client program_id

  unfoldable get_program_imports : Bytes → Partial Trace (List (Bytes × Bytes))
  get_program_imports source =
      Imports.get_program_imports sv.env sv.json pm.network_client fuel source

  unfoldable get_mapping_value : Bytes → Bytes → Bytes → Net Bytes
  get_mapping_value program_id mapping_name key =
      Queries.get_mapping_value sv.env sv.json pm.network_client program_id mapping_name key
