-- ===== src/Bridge/Rust/Authorize.antt =====
-- rust-bridge/src/authorize.rs, verify.rs, and the execution of program.rs: what is done with a process.
-- The process that is loaded once is a value, since every function works on a clone.
use provable_sdk.Base.{
  ℕ, ◌+◌, List, [], ◌∷◌, ◌++◌, Bool, true, false, Option, none, some, Bytes, codes, map,
  if◌then◌else◌,
}
use provable_sdk.Text.{is_empty}
use provable_sdk.Bridge.Rust.{Outcome, done, ◌>>=◌, map_err, prefixed, ffi_catch}
use provable_sdk.Bridge.Rust.Crates.{Crates}
use provable_sdk.Bridge.Rust.Pointer.{argument, read_c_str, collect, numbered}

-- broadcast as u8
unfoldable pub as_u8 : Bool → ℕ
as_u8 true = 1
as_u8 false = 0

module _ (k : Crates) where
  unfoldable pub get_or_init_process : Outcome k.Process
  get_or_init_process = map_err (prefixed (codes "load process")) k.load_process

  -- the closure at input `i`
  read_input : ℕ → Bytes → Outcome k.Value
  read_input i s =
      map_err (prefixed (numbered (codes "parse input ") i ++ (codes " '" ++ (s ++ codes "'"))))
        (k.parse_value s)

  unfoldable pub read_inputs : Bytes → Outcome (List k.Value)
  unfolding read_input
  read_inputs inputs_str = do
    input_strings ← map_err (prefixed (codes "parse inputs JSON")) (k.read_strings inputs_str)
    collect read_input 0 input_strings

  -- The loop over the imports, from import `i` on.
  unfoldable pub add_imports : ℕ → List Bytes → k.Process → Outcome k.Process
  add_imports i [] process = done process
  add_imports i (imp_src ∷ rest) process = do
    imp_program ← map_err (prefixed (numbered (codes "parse import ") i)) (k.parse_program imp_src)
    process' ←
        map_err (prefixed (codes "add import '" ++ (k.program_id imp_program ++ codes "'")))
          (k.add_program process imp_program)
    add_imports (i + 1) rest process'

  unfoldable pub authorize :
      Bytes
      → Option Bytes
      → Option Bytes
      → Option Bytes
      → Option Bytes
      → Option Bytes
      → Outcome Bytes
  authorize rng private_key_ptr program_source_ptr function_name_ptr inputs_json_ptr
        imports_json_ptr =
      do
        sk_str ← argument (codes "null private key") private_key_ptr
        source ← argument (codes "null program source") program_source_ptr
        fn_name ← argument (codes "null function name") function_name_ptr
        inputs_str ← argument (codes "null inputs json") inputs_json_ptr
        imports_str ← argument (codes "null imports json") imports_json_ptr
        private_key ← k.parse_private_key sk_str
        inputs ← read_inputs inputs_str
        import_sources ←
            map_err (prefixed (codes "parse imports JSON")) (k.read_strings imports_str)
        loaded ← get_or_init_process
        process ← add_imports 0 import_sources loaded
        program ← k.parse_program source
        process' ←
            map_err (prefixed (codes "add program '" ++ (k.program_id program ++ codes "'")))
              (k.add_program process program)
        authorization ←
            map_err (prefixed (codes "authorize"))
              (k.authorize process' private_key (k.program_id program) fn_name inputs rng)
        map_err (prefixed (codes "serialize authorization")) (k.write_authorization authorization)

  unfoldable pub aleo_authorize :
      Bytes → Option Bytes → Option Bytes → Option Bytes → Option Bytes → Option Bytes → Bytes
  unfolding authorize
  aleo_authorize rng private_key_ptr program_source_ptr function_name_ptr inputs_json_ptr
        imports_json_ptr =
      ffi_catch k.escape (codes "panic during authorization") (
        authorize rng private_key_ptr program_source_ptr function_name_ptr inputs_json_ptr
          imports_json_ptr)

  unfoldable pub fee_of : Option Bytes → Outcome (Option k.Authorization)
  fee_of none = done none
  fee_of (some s) = if is_empty s then done none else do
    fee ← map_err (prefixed (codes "parse fee authorization")) (k.read_authorization s)
    done (some fee)

  -- The flag of the fee authorization and the fee authorization. Writing to a Vec does not fail.
  unfoldable pub fee_bytes : Option k.Authorization → Outcome Bytes
  fee_bytes none = done (0 ∷ [])
  fee_bytes (some fa) = do
    written ← map_err (prefixed (codes "serialize fee authorization bytes")) (k.write_le fa)
    done (1 ∷ written)

  -- What is written into `bytes`.
  unfoldable pub write_request : k.Authorization → Option k.Authorization → Bool → Outcome Bytes
  unfolding fee_bytes as_u8
  write_request authorization fee_authorization broadcast = do
    written ← map_err (prefixed (codes "serialize authorization bytes")) (k.write_le authorization)
    fee ← fee_bytes fee_authorization
    done (written ++ (fee ++ as_u8 broadcast ∷ []))

  unfoldable pub proving_request_to_bytes : Option Bytes → Option Bytes → Bool → Outcome Bytes
  unfolding fee_of write_request
  proving_request_to_bytes auth_json_ptr fee_auth_json_ptr broadcast = do
    auth_str ← argument (codes "null authorization json") auth_json_ptr
    authorization ← map_err (prefixed (codes "parse authorization")) (k.read_authorization auth_str)
    fee_authorization ← fee_of (read_c_str fee_auth_json_ptr)
    bytes ← write_request authorization fee_authorization broadcast
    done (k.base64 bytes)

  unfoldable pub aleo_proving_request_to_bytes : Option Bytes → Option Bytes → Bool → Bytes
  unfolding proving_request_to_bytes
  aleo_proving_request_to_bytes auth_json_ptr fee_auth_json_ptr broadcast =
      ffi_catch k.escape (codes "panic during proving request serialization")
        (proving_request_to_bytes auth_json_ptr fee_auth_json_ptr broadcast)

  unfoldable pub execute_program :
      Bytes → Bytes → Option Bytes → Option Bytes → Option Bytes → Option Bytes → Outcome Bytes
  execute_program rng rng' program_source_ptr function_name_ptr inputs_json_ptr sk_ptr = do
    source ← argument (codes "null program source") program_source_ptr
    fn_name ← argument (codes "null function name") function_name_ptr
    inputs_str ← argument (codes "null inputs json") inputs_json_ptr
    sk_str ← argument (codes "null private key") sk_ptr
    private_key ← k.parse_private_key sk_str
    inputs ← read_inputs inputs_str
    program ← k.parse_program source
    loaded ← get_or_init_process
    process ← map_err (prefixed (codes "add program")) (k.add_program loaded program)
    authorization ←
        map_err (prefixed (codes "authorize"))
          (k.authorize process private_key (k.program_id program) fn_name inputs rng)
    outputs ← map_err (prefixed (codes "execute")) (k.execute process authorization rng')
    map_err (prefixed (codes "serialize outputs")) (k.write_strings (map k.print_value outputs))

  unfoldable pub aleo_execute_program :
      Bytes → Bytes → Option Bytes → Option Bytes → Option Bytes → Option Bytes → Bytes
  unfolding execute_program
  aleo_execute_program rng rng' program_source_ptr function_name_ptr inputs_json_ptr sk_ptr =
      ffi_catch k.escape (codes "panic during program execution")
        (execute_program rng rng' program_source_ptr function_name_ptr inputs_json_ptr sk_ptr)

  unfoldable pub verify_execution : Option Bytes → Outcome Bytes
  verify_execution execution_json_ptr = do
    exec_str ← argument (codes "null execution json") execution_json_ptr
    execution ← map_err (prefixed (codes "parse execution")) (k.read_execution exec_str)
    process ← get_or_init_process
    _ ← map_err (prefixed (codes "verify execution")) (k.verify_execution process execution)
    done (codes "true")

  unfoldable pub aleo_verify_execution : Option Bytes → Bytes
  unfolding verify_execution
  aleo_verify_execution execution_json_ptr =
      ffi_catch k.escape (codes "panic during execution verification")
        (verify_execution execution_json_ptr)
