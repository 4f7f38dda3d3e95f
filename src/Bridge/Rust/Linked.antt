-- ===== src/Bridge/Rust/Linked.antt =====
-- The functions of the Rust library as the Go side calls them: each of them hands over a C string that is
-- not NULL.
use provable_sdk.Base.{[], ◌∷◌, Option, none, some, Bytes, codes, length}
use provable_sdk.Bridge.{Library}
use provable_sdk.Bridge.Rust.Crates.{Crates}
use provable_sdk.Bridge.Rust.Account.{
  aleo_private_key_new, aleo_derive_all_keys, aleo_sign_message, aleo_verify_signature,
  aleo_decrypt_record, aleo_program_id,
}
use provable_sdk.Bridge.Rust.Authorize.{
  aleo_authorize, aleo_proving_request_to_bytes, aleo_execute_program, aleo_verify_execution,
}
use provable_sdk.Bridge.Rust.Hash.{
  define_bits_hash_ffi, define_psd_hash_ffi, define_psd_hash_multi_ffi,
}

-- msgPtr: NULL where the message is empty
unfoldable pub message_pointer : Bytes → Option Bytes
message_pointer [] = none
message_pointer (c ∷ s) = some (c ∷ s)

-- With the randomness of the functions that draw it.
unfoldable pub linked : Crates → Bytes → Bytes → Library
linked k rng rng' = record {
  private_key_new = λ r. some (aleo_private_key_new k r);
  derive_all_keys = λ sk. some (aleo_derive_all_keys k (some sk));
  sign_message =
      λ sk msg. some (aleo_sign_message k rng (some sk) (message_pointer msg) (length msg));
  verify_signature = λ addr msg sig.
      aleo_verify_signature k (some addr) (message_pointer msg) (length msg) (some sig);
  decrypt_record = λ ct vk. some (aleo_decrypt_record k (some ct) (some vk));
  execute_program = λ src fn inputs sk.
      some (aleo_execute_program k rng rng' (some src) (some fn) (some inputs) (some sk));
  program_id = λ src. some (aleo_program_id k (some src));
  authorize = λ sk src fn inputs imports.
      some (aleo_authorize k rng (some sk) (some src) (some fn) (some inputs) (some imports));
  proving_request_to_bytes =
      λ auth fee broadcast. some (aleo_proving_request_to_bytes k (some auth) fee broadcast);
  hash_bhp256 = λ s. some (define_bits_hash_ffi k k.hash_bhp256 (codes "hash_bhp256") (some s));
  hash_bhp512 = λ s. some (define_bits_hash_ffi k k.hash_bhp512 (codes "hash_bhp512") (some s));
  hash_bhp768 = λ s. some (define_bits_hash_ffi k k.hash_bhp768 (codes "hash_bhp768") (some s));
  hash_bhp1024 = λ s. some (define_bits_hash_ffi k k.hash_bhp1024 (codes "hash_bhp1024") (some s));
  hash_ped64 = λ s. some (define_bits_hash_ffi k k.hash_ped64 (codes "hash_ped64") (some s));
  hash_ped128 = λ s. some (define_bits_hash_ffi k k.hash_ped128 (codes "hash_ped128") (some s));
  hash_psd2 = λ s. some (define_psd_hash_ffi k k.hash_psd2 (codes "hash_psd2") (some s));
  hash_psd4 = λ s. some (define_psd_hash_ffi k k.hash_psd4 (codes "hash_psd4") (some s));
  hash_psd8 = λ s. some (define_psd_hash_ffi k k.hash_psd8 (codes "hash_psd8") (some s));
  hash_psd2_multi =
      λ s. some (define_psd_hash_multi_ffi k k.hash_psd2 (codes "hash_psd2") (some s));
  hash_psd4_multi =
      λ s. some (define_psd_hash_multi_ffi k k.hash_psd4 (codes "hash_psd4") (some s));
  hash_psd8_multi =
      λ s. some (define_psd_hash_multi_ffi k k.hash_psd8 (codes "hash_psd8") (some s));
  verify_execution = λ e. some (aleo_verify_execution k (some e));
}
