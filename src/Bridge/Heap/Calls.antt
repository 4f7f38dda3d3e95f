-- ===== src/Bridge/Heap/Calls.antt =====
-- internal/ffi/bridge.go: each function of the bridge with its C strings.
use provable_sdk.Base.{ℕ, Bool, Option, none, some, Bytes, codes}
use provable_sdk.Fault.{plain}
use provable_sdk.Exec.{Result, err}
use provable_sdk.Json.{Json}
use provable_sdk.Bridge.{Library, from_payload, verify_code, is_true}
use provable_sdk.Bridge
use provable_sdk.Bridge.Heap.{
  rust, Cmd, ◌>>=◌, pure, load, free, with_c_string, with_optional, load_optional, hand_over,
}

-- A call of a function of the bridge, with its arguments; `hash_bhp256` and the like take the input.
pub data Call : Type 0 where
  private_key_new derive_all_keys program_id verify_execution : Bytes → Call
  sign_message decrypt_record : Bytes → Bytes → Call
  verify_signature : Bytes → Bytes → Bytes → Call
  execute_program : Bytes → Bytes → Bytes → Bytes → Call
  authorize : Bytes → Bytes → Bytes → Bytes → Bytes → Call
  proving_request_to_bytes : Bytes → Bytes → Bool → Call
  hash_bhp256 hash_bhp512 hash_bhp768 hash_bhp1024 hash_pedersen64 hash_pedersen128 : Bytes → Call
  hash_poseidon2 hash_poseidon4 hash_poseidon8 : Bytes → Call
  hash_poseidon2_multi hash_poseidon4_multi hash_poseidon8_multi : Bytes → Call

-- What a function returns.
pub data Answer : Type 0 where
  text : Result Bytes → Answer
  verdict : Result Bool → Answer

module _ (json : Json) where
  -- resultOrError; the deferred call of aleo_free_string is behind the decoding
  unfoldable pub result_on_heap : Option ℕ → Cmd (Result Bytes)
  unfolding from_payload
  result_on_heap none = pure (err (plain (codes "bridge returned nil")))
  result_on_heap (some p) = do s ← load p; let r = from_payload json s; _ ← free rust p; pure r

  -- A function of one text.
  unfoldable pub one_text : (Bytes → Option Bytes) → Bytes → Cmd (Result Bytes)
  unfolding result_on_heap
  one_text f input = with_c_string input (λ c. do s ← load c; r ← hand_over (f s); result_on_heap r)

unfoldable pub answered : (Result Bytes → Answer) → Cmd (Result Bytes) → Cmd Answer
answered f m = do r ← m; pure (f r)

module _ (lib : Library) (json : Json) where
  unfoldable pub private_key_new_on_heap : Bytes → Cmd (Result Bytes)
  private_key_new_on_heap randomness = do
    r ← hand_over (lib.private_key_new randomness)
    result_on_heap json r

  unfoldable pub sign_message_on_heap : Bytes → Bytes → Cmd (Result Bytes)
  sign_message_on_heap sk msg = one_text json (λ s. lib.sign_message s msg) sk

  unfoldable pub verify_signature_on_heap : Bytes → Bytes → Bytes → Cmd (Result Bool)
  verify_signature_on_heap addr msg sig = with_c_string addr (λ caddr.
      with_c_string sig (λ csig. do
        a ← load caddr
        s ← load csig
        pure (verify_code (lib.verify_signature a msg s))))

  unfoldable pub decrypt_record_on_heap : Bytes → Bytes → Cmd (Result Bytes)
  decrypt_record_on_heap ciphertext view_key = with_c_string ciphertext (λ cct.
      with_c_string view_key (λ cvk. do
        ct ← load cct
        vk ← load cvk
        r ← hand_over (lib.decrypt_record ct vk)
        result_on_heap json r))

  unfoldable pub execute_program_on_heap : Bytes → Bytes → Bytes → Bytes → Cmd (Result Bytes)
  execute_program_on_heap program_source function_name inputs_json sk =
      with_c_string program_source (λ csrc. with_c_string function_name (λ cfn.
        with_c_string inputs_json (λ cinputs. with_c_string sk (λ csk. do
          source ← load csrc
          name ← load cfn
          inputs ← load cinputs
          key ← load csk
          r ← hand_over (lib.execute_program source name inputs key)
          result_on_heap json r))))

  unfoldable pub proving_request_on_heap : Bytes → Bytes → Bool → Cmd (Result Bytes)
  proving_request_on_heap auth_json fee_auth_json broadcast = with_c_string auth_json (λ c_auth.
      with_optional fee_auth_json (λ c_fee. do
        auth ← load c_auth
        fee ← load_optional c_fee
        r ← hand_over (lib.proving_request_to_bytes auth fee broadcast)
        result_on_heap json r))

  unfoldable pub authorize_on_heap : Bytes → Bytes → Bytes → Bytes → Bytes → Cmd (Result Bytes)
  authorize_on_heap private_key program_source function_name inputs_json imports_json =
      with_c_string private_key (λ csk. with_c_string program_source (λ csrc.
        with_c_string function_name (λ cfn. with_c_string inputs_json (λ cinputs.
          with_c_string imports_json (λ cimports. do
            key ← load csk
            source ← load csrc
            name ← load cfn
            inputs ← load cinputs
            imports ← load cimports
            r ← hand_over (lib.authorize key source name inputs imports)
            result_on_heap json r)))))

  -- A call, on the heap.
  unfoldable pub on_heap : Call → Cmd Answer
  on_heap (private_key_new rng) = answered text (private_key_new_on_heap rng)
  on_heap (derive_all_keys sk) = answered text (one_text json lib.derive_all_keys sk)
  on_heap (program_id source) = answered text (one_text json lib.program_id source)
  on_heap (verify_execution e) =
      answered (λ r. verdict (is_true r)) (one_text json lib.verify_execution e)
  on_heap (sign_message sk msg) = answered text (sign_message_on_heap sk msg)
  on_heap (decrypt_record ct vk) = answered text (decrypt_record_on_heap ct vk)
  on_heap (verify_signature addr msg sig) = do
    r ← verify_signature_on_heap addr msg sig
    pure (verdict r)
  on_heap (execute_program source name inputs sk) =
      answered text (execute_program_on_heap source name inputs sk)
  on_heap (authorize sk source name inputs imports) =
      answered text (authorize_on_heap sk source name inputs imports)
  on_heap (proving_request_to_bytes auth fee broadcast) =
      answered text (proving_request_on_heap auth fee broadcast)
  on_heap (hash_bhp256 s) = answered text (one_text json lib.hash_bhp256 s)
  on_heap (hash_bhp512 s) = answered text (one_text json lib.hash_bhp512 s)
  on_heap (hash_bhp768 s) = answered text (one_text json lib.hash_bhp768 s)
  on_heap (hash_bhp1024 s) = answered text (one_text json lib.hash_bhp1024 s)
  on_heap (hash_pedersen64 s) = answered text (one_text json lib.hash_ped64 s)
  on_heap (hash_pedersen128 s) = answered text (one_text json lib.hash_ped128 s)
  on_heap (hash_poseidon2 s) = answered text (one_text json lib.hash_psd2 s)
  on_heap (hash_poseidon4 s) = answered text (one_text json lib.hash_psd4 s)
  on_heap (hash_poseidon8 s) = answered text (one_text json lib.hash_psd8 s)
  on_heap (hash_poseidon2_multi s) = answered text (one_text json lib.hash_psd2_multi s)
  on_heap (hash_poseidon4_multi s) = answered text (one_text json lib.hash_psd4_multi s)
  on_heap (hash_poseidon8_multi s) = answered text (one_text json lib.hash_psd8_multi s)

  -- The same call over values.
  unfoldable pub answer : Call → Answer
  answer (private_key_new rng) = text (Bridge.private_key_new lib json rng)
  answer (derive_all_keys sk) = text (Bridge.derive_all_keys lib json sk)
  answer (program_id source) = text (Bridge.program_id lib json source)
  answer (verify_execution e) = verdict (Bridge.verify_execution lib json e)
  answer (sign_message sk msg) = text (Bridge.sign_message lib json sk msg)
  answer (decrypt_record ct vk) = text (Bridge.decrypt_record lib json ct vk)
  answer (verify_signature addr msg sig) = verdict (Bridge.verify_signature lib json addr msg sig)
  answer (execute_program source name inputs sk) =
      text (Bridge.execute_program lib json source name inputs sk)
  answer (authorize sk source name inputs imports) =
      text (Bridge.authorize lib json sk source name inputs imports)
  answer (proving_request_to_bytes auth fee broadcast) =
      text (Bridge.proving_request_to_bytes lib json auth fee broadcast)
  answer (hash_bhp256 s) = text (Bridge.hash_bhp256 lib json s)
  answer (hash_bhp512 s) = text (Bridge.hash_bhp512 lib json s)
  answer (hash_bhp768 s) = text (Bridge.hash_bhp768 lib json s)
  answer (hash_bhp1024 s) = text (Bridge.hash_bhp1024 lib json s)
  answer (hash_pedersen64 s) = text (Bridge.hash_pedersen64 lib json s)
  answer (hash_pedersen128 s) = text (Bridge.hash_pedersen128 lib json s)
  answer (hash_poseidon2 s) = text (Bridge.hash_poseidon2 lib json s)
  answer (hash_poseidon4 s) = text (Bridge.hash_poseidon4 lib json s)
  answer (hash_poseidon8 s) = text (Bridge.hash_poseidon8 lib json s)
  answer (hash_poseidon2_multi s) = text (Bridge.hash_poseidon2_multi lib json s)
  answer (hash_poseidon4_multi s) = text (Bridge.hash_poseidon4_multi lib json s)
  answer (hash_poseidon8_multi s) = text (Bridge.hash_poseidon8_multi lib json s)
