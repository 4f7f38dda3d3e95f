-- ===== src/Tests/Dps/Managers.antt =====
-- Runs of a program manager with a prover that answers at once.
pub mod Batches
pub mod Made
use provable_sdk.Base.{ℕ, ◌≡◌, refl, none, some, [], ◌∷◌, true, false, Bytes, codes}
use provable_sdk.Exec.{ok, err}
use provable_sdk.Memory.{Memory}
use provable_sdk.Bridge.{Library}
use provable_sdk.Provable.Submit.{Service}
use provable_sdk.Imports.{ProvingRequestOptions}
use provable_sdk.Manager.{ProgramManager, Managed}
use provable_sdk.Fault.{annotate, sentinel, no_private_key, provable_client_not_configured}
use provable_sdk.Text.Decimal.{format_uint}
use provable_sdk.Provable.{ProvableClient}
use provable_sdk.Manager.Execute.Outcome.{
  IsExecuted, execute_via_dps-IsExecuted, execute_via_dps_unready,
}
use provable_sdk.Imports.Traffic.{Only}
use provable_sdk.Manager.Execute.Traffic.{IsRequest, execute_via_dps-IsRequest}
use provable_sdk.Manager.Execute.Waited.{IsWaited, execute_and_wait-IsWaited}
use provable_sdk.Manager.Execute.{execute_and_wait}
use provable_sdk.Network.Wait.{wait_for_transaction}
use provable_sdk.Network.Queries.{get_transaction}
use provable_sdk.Network.Get.{fetch}
use provable_sdk.Network.{endpoint, base_path}
use provable_sdk.Tests.{transfer}
use provable_sdk.Manager.Credits.{u64_literal, u8_literal}
use provable_sdk.Manager.Batch.{ExecuteRequest}
use provable_sdk.Manager.Batch.Executed.{options_of}
use provable_sdk.Manager.Execute.{
  with_inputs, with_broadcast, with_private_key, execute, apply_options, apply_execute_option,
  execute_via_dps, build_proving_request, build_authorization, chosen_key, request_options,
  broadcast_fault, build_proving_request_from_authorization, proving_params,
}
use provable_sdk.Imports.{
  credits, build_authorization_with_cache, fetch_program_cached, resolve_imports_ordered, import_of,
  lines,
}
use provable_sdk.Text.{bytes_eq, split, has_prefix, trim_space, is_empty}
use provable_sdk.Bridge.{authorize, result_or_error, c_string}
use provable_sdk.Provable.Jwt.{get_jwt, is_fresh}
use provable_sdk.Provable.Submit.{
  submit_proving_request, submit_proving_request_safe, base_for, submit_once, submit_unencrypted,
}
use provable_sdk.Provable.Reply.{
  prove_answer, handle_proving_response, succeeded, unwrap, transaction_id,
}
use provable_sdk.Http.Env.{do_request, new_request}
use provable_sdk.Network.Submit.{is_accepted}
use provable_sdk.Tests.{calm_env, reply, node_client}
use provable_sdk.Tests.Dps.{willing_library, no_memory, dps_codec, toy_box, dps_client, with_token}

abbrev prompt : Service
prompt = record {
  env = calm_env (λ t q. reply 200 (codes "at1"));
  json = dps_codec;
  prim = toy_box;
  lib = willing_library;
}

abbrev manager : ProgramManager
manager = record {
  account = none;
  network_client = node_client;
  provable_client = some dps_client;
  network = codes "testnet";
}

abbrev ready : Managed
ready = record { session = with_token; programs = (codes "p.aleo", codes "program p.aleo;") ∷ [] }

abbrev options : ProvingRequestOptions
options = record {
  program_name = codes "p.aleo";
  function_name = codes "f";
  inputs = none;
  broadcast = true;
  dps_privacy = false;
  private_key = codes "sk";
  prover_url = [];
}

executes :
    execute_via_dps prompt no_memory manager 2 options ready
    ≡ (some (ok (codes "at1")), (execute_via_dps prompt no_memory manager 2 options ready).1)
unfolding execute_via_dps build_proving_request build_authorization chosen_key request_options
    broadcast_fault build_proving_request_from_authorization proving_params
    build_authorization_with_cache fetch_program_cached resolve_imports_ordered import_of lines
    bytes_eq split has_prefix trim_space authorize result_or_error c_string submit_proving_request
    submit_proving_request_safe get_jwt is_fresh do_request new_request is_accepted base_for
    submit_once submit_unencrypted prove_answer handle_proving_response succeeded unwrap
    transaction_id is_empty
executes = refl

execute_via_dps-IsExecuted_example :
    IsExecuted prompt no_memory manager 2 options ready (codes "at1")
execute_via_dps-IsExecuted_example =
    execute_via_dps-IsExecuted prompt no_memory manager 2 options ready executes

-- A batch of one request.
abbrev request : ExecuteRequest
request = record {
  program_name = codes "p.aleo";
  function_name = codes "f";
  options = with_broadcast true ∷ with_private_key (codes "sk") ∷ [];
}

request_options_lem : options_of request ≡ options
unfolding options_of apply_options apply_execute_option request_options
request_options_lem = refl

-- The execution broadcasts, and the first poll finds the transaction.
waits :
    execute_and_wait prompt no_memory manager 2
      (codes "p.aleo")
      (codes "f")
      1
      (with_private_key (codes "sk") ∷ [])
      ready
    ≡ (
      some (ok transfer),
      (execute_and_wait prompt no_memory manager 2
          (codes "p.aleo")
          (codes "f")
          1
          (with_private_key (codes "sk") ∷ [])
          ready).1,
    )
unfolding execute_via_dps build_proving_request build_authorization chosen_key request_options
    broadcast_fault build_proving_request_from_authorization proving_params
    build_authorization_with_cache fetch_program_cached resolve_imports_ordered import_of lines
    bytes_eq split has_prefix trim_space authorize result_or_error c_string submit_proving_request
    submit_proving_request_safe get_jwt is_fresh do_request new_request is_accepted base_for
    submit_once submit_unencrypted prove_answer handle_proving_response succeeded unwrap
    transaction_id is_empty execute_and_wait apply_options apply_execute_option wait_for_transaction
    get_transaction fetch endpoint base_path
waits = refl

execute_and_wait-IsWaited_example :
    IsWaited prompt no_memory manager 2
      (apply_options
        (request_options (codes "p.aleo") (codes "f") none true)
        (with_private_key (codes "sk") ∷ []))
      1
      ready
      transfer
      (execute_and_wait prompt no_memory manager 2
        (codes "p.aleo")
        (codes "f")
        1
        (with_private_key (codes "sk") ∷ [])
        ready).1
execute_and_wait-IsWaited_example =
    execute_and_wait-IsWaited prompt no_memory manager 2 (codes "p.aleo") (codes "f") 1
      (with_private_key (codes "sk") ∷ []) ready waits

execute_via_dps-IsRequest_example :
    Only
      (IsRequest prompt manager options)
      []
      (execute_via_dps prompt no_memory manager 2 options ready).1.session.trace
execute_via_dps-IsRequest_example =
    execute_via_dps-IsRequest prompt no_memory manager 2 options ready
