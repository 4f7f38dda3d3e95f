-- ===== src/Bridge/Rust/Account.antt =====
-- rust-bridge/src/account.rs, crypto.rs and program.rs but for execution: keys, signatures, records and
-- program IDs. The body of a function is what stands inside ffi_catch!.
use provable_sdk.Base.{ℕ, ℤ, pos, negsuc, Bool, true, false, Option, Bytes, codes}
use provable_sdk.Bridge.Rust.{Outcome, done, failed, panicked, ◌>>=◌, ffi_catch}
use provable_sdk.Bridge.Rust.Crates.{Crates}
use provable_sdk.Bridge.Rust.Pointer.{argument, slice}

-- Ok(Ok(true)), Ok(Ok(false)), and Ok(Err(_)) | Err(_)
unfoldable pub verdict : Outcome Bool → ℤ
verdict (done true) = pos 1
verdict (done false) = pos 0
verdict (failed e) = negsuc 0
verdict panicked = negsuc 0

module _ (k : Crates) where
  unfoldable pub private_key_new : Bytes → Outcome Bytes
  private_key_new rng = do sk ← k.new_private_key rng; done (k.print_private_key sk)

  unfoldable pub aleo_private_key_new : Bytes → Bytes
  unfolding private_key_new
  aleo_private_key_new rng =
      ffi_catch k.escape (codes "panic during key generation") (private_key_new rng)

  unfoldable pub derive_all_keys : Option Bytes → Outcome Bytes
  derive_all_keys sk_ptr = do
    sk_str ← argument (codes "null private key pointer") sk_ptr
    sk ← k.parse_private_key sk_str
    vk ← k.view_key_of sk
    addr ← k.address_of sk
    ck ← k.compute_key_of sk
    gk ← k.graph_key_of vk
    k.keys_json (k.print_view_key vk) (k.print_address addr) ck (k.print_graph_key gk)

  unfoldable pub aleo_derive_all_keys : Option Bytes → Bytes
  unfolding derive_all_keys
  aleo_derive_all_keys sk_ptr =
      ffi_catch k.escape (codes "panic during key derivation") (derive_all_keys sk_ptr)

  unfoldable pub sign_message : Bytes → Option Bytes → Option Bytes → ℕ → Outcome Bytes
  sign_message rng sk_ptr msg_ptr msg_len = do
    sk_str ← argument (codes "null private key pointer") sk_ptr
    let msg = slice msg_ptr msg_len
    sk ← k.parse_private_key sk_str
    sig ← k.sign_bytes sk msg rng
    done (k.print_signature sig)

  unfoldable pub aleo_sign_message : Bytes → Option Bytes → Option Bytes → ℕ → Bytes
  unfolding sign_message
  aleo_sign_message rng sk_ptr msg_ptr msg_len =
      ffi_catch k.escape (codes "panic during message signing")
        (sign_message rng sk_ptr msg_ptr msg_len)

  unfoldable pub verify_signature : Option Bytes → Option Bytes → ℕ → Option Bytes → Outcome Bool
  verify_signature addr_ptr msg_ptr msg_len sig_ptr = do
    addr_str ← argument (codes "null address pointer") addr_ptr
    sig_str ← argument (codes "null signature pointer") sig_ptr
    let msg = slice msg_ptr msg_len
    addr ← k.parse_address addr_str
    sig ← k.parse_signature sig_str
    k.verify_bytes sig addr msg

  unfoldable pub aleo_verify_signature : Option Bytes → Option Bytes → ℕ → Option Bytes → ℤ
  unfolding verify_signature verdict
  aleo_verify_signature addr_ptr msg_ptr msg_len sig_ptr =
      verdict (verify_signature addr_ptr msg_ptr msg_len sig_ptr)

  unfoldable pub decrypt_record : Option Bytes → Option Bytes → Outcome Bytes
  decrypt_record ciphertext_ptr vk_ptr = do
    ct_str ← argument (codes "null ciphertext pointer") ciphertext_ptr
    vk_str ← argument (codes "null view key pointer") vk_ptr
    ciphertext ← k.parse_ciphertext ct_str
    vk ← k.parse_view_key vk_str
    plaintext ← k.decrypt ciphertext vk
    done (k.print_plaintext plaintext)

  unfoldable pub aleo_decrypt_record : Option Bytes → Option Bytes → Bytes
  unfolding decrypt_record
  aleo_decrypt_record ciphertext_ptr vk_ptr =
      ffi_catch k.escape (codes "panic during record decryption")
        (decrypt_record ciphertext_ptr vk_ptr)

  unfoldable pub program_id : Option Bytes → Outcome Bytes
  program_id program_source_ptr = do
    source ← argument (codes "null program source") program_source_ptr
    program ← k.parse_program source
    done (k.program_id program)

  unfoldable pub aleo_program_id : Option Bytes → Bytes
  unfolding program_id
  aleo_program_id program_source_ptr =
      ffi_catch k.escape (codes "panic during program parsing") (program_id program_source_ptr)
