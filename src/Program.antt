-- ===== src/Program.antt =====
-- program.go and record.go: programs that run offline, and records.
use provable_sdk.Base.{List, Option, none, some, Bytes, codes}
use provable_sdk.Fault.{annotate, sentinel, no_account}
use provable_sdk.Exec.{Result, ok, err}
use provable_sdk.Json.{Json}
use provable_sdk.Types.{ExecutionResult}
use provable_sdk.Bridge.{Library}
use provable_sdk.Bridge
use provable_sdk.Memory.{Memory}
use provable_sdk.Account.{Account, private_key}

module _ (lib : Library) (json : Json) where
  unfoldable program_id : Bytes → Result Bytes
  program_id program_source = Bridge.program_id lib json program_source

  execution : Result Bytes → Result ExecutionResult
  execution (ok result_json) = ok (record { raw = result_json })
  execution (err e) = err (annotate (codes "execute program") e)

  run_inputs : Bytes → Bytes → Bytes → Result Bytes → Result ExecutionResult
  unfolding execution
  run_inputs program_source function_name sk (err e) = err (annotate (codes "marshal inputs") e)
  run_inputs program_source function_name sk (ok inputs_json) =
      execution (Bridge.execute_program lib json program_source function_name inputs_json sk)

  -- ExecuteOffline; a nil *Account is `none`
  unfoldable execute_offline :
      Memory → Bytes → Bytes → Option (List Bytes) → Option Account → Result ExecutionResult
  unfolding run_inputs
  execute_offline m program_source function_name inputs none = err (sentinel no_account)
  execute_offline m program_source function_name inputs (some account) =
      run_inputs program_source function_name (private_key m account) (json.marshal_strings inputs)

  unfoldable decrypt_record : Bytes → Bytes → Result Bytes
  decrypt_record ciphertext view_key = Bridge.decrypt_record lib json ciphertext view_key
