-- ===== src/Tests/Dps.antt =====
-- A service with toy primitives, for runs of the client of the delegated proving service.
pub mod Tokens
pub mod Proofs
pub mod Texts
pub mod Rust
pub mod Managers
pub mod Accounts
use provable_sdk.Base.{
  ◌^◌, ℕ, false, ◌*◌, ◌+◌, refl, none, some, [], ◌∷◌, ◌++◌, pos, Bytes, codes, length, take, drop,
  ap, ◌≡◌, arith,
}
use provable_sdk.Exec.{ok, err}
use provable_sdk.Http.Env.{Env}
use provable_sdk.Json.{Json}
use provable_sdk.Types.{ProvingRequest, DelegatedProvingParams}
use provable_sdk.Memory.{Memory}
use provable_sdk.Security.{Primitives}
use provable_sdk.Security.RoundTrip.{IsBox}
use provable_sdk.Bridge.{Library}
use provable_sdk.Provable.{ProvableClient, Session}
use provable_sdk.Provable.Submit.{Service}
use provable_sdk.Tests.{codec, refusal}

abbrev toy_key : Bytes
toy_key = codes "0123456789abcdef0123456789abcdef"

-- One key for all; a box is the message behind 16 bytes.
abbrev toy_box : Primitives
toy_box = record {
  hex_decode = ok;
  base64_encode = λ b. b;
  base64_decode = ok;
  raw_url_decode = ok;
  generate_key = λ r. ok (toy_key, toy_key);
  hash_error = none;
  hash_24 = take 24;
  seal = λ m nonce pk sk. codes "0123456789abcdef" ++ m;
  unseal = λ box nonce pk sk. some (drop 16 box);
}

toy_generates :
    (randomness epk esk : Bytes) → toy_box.generate_key randomness ≡ ok (epk, esk) → length epk ≡ 32
toy_generates randomness epk esk e = ground (arith, e)

unfoldable toy_box-IsBox : IsBox toy_box
toy_box-IsBox = record {
  Pair = λ pk sk. length pk ≡ 32;
  generates = toy_generates;
  key_length = λ pk sk h. h;
  box_length = λ m nonce pk sk. omega arith;
  unseal-seal = λ m nonce pk sk epk esk h k. refl;
}

abbrev toy_library : Library
toy_library = record {
  private_key_new = λ a. none;
  derive_all_keys = λ a. none;
  sign_message = λ a b. none;
  verify_signature = λ a b c. pos 0;
  decrypt_record = λ a b. none;
  execute_program = λ a b c d. none;
  program_id = λ a. none;
  authorize = λ a b c d e. none;
  proving_request_to_bytes = λ a b c. none;
  hash_bhp256 = λ a. none;
  hash_bhp512 = λ a. none;
  hash_bhp768 = λ a. none;
  hash_bhp1024 = λ a. none;
  hash_ped64 = λ a. none;
  hash_ped128 = λ a. none;
  hash_psd2 = λ a. none;
  hash_psd4 = λ a. none;
  hash_psd8 = λ a. none;
  hash_psd2_multi = λ a. none;
  hash_psd4_multi = λ a. none;
  hash_psd8_multi = λ a. none;
  verify_execution = λ a. none;
}

-- One that has keys for every text, and authorizes all.
abbrev willing_library : Library
willing_library = record toy_library {
  derive_all_keys = λ sk. some (codes "{}");
  authorize = λ a b c d e. some (codes "{}");
}

abbrev no_memory : Memory
no_memory = record { next = 0; cell = λ p. [] }

abbrev dps_codec : Json
dps_codec = codec (λ body. err refusal)

abbrev service_on : Env → Service
service_on env = record { env = env; json = dps_codec; prim = toy_box; lib = toy_library }

abbrev dps_client : ProvableClient
dps_client = record {
  api_key = codes "key";
  consumer_id = codes "me";
  api_base = codes "https://dps";
  prover_base = codes "https://dps/prove/testnet";
  max_retries = pos 1;
  base_delay = 5;
}

abbrev plain_request : ProvingRequest
plain_request = record { authorization = codes "{}"; fee_authorization = []; broadcast = false }

abbrev no_privacy : DelegatedProvingParams
no_privacy = record { proving_request = plain_request; dps_privacy = false; url = [] }

-- A session whose token has a long time to live.
abbrev with_token : Session
with_token = record { trace = []; jwt = codes "t"; jwt_exp = 10 ^ 12 }
