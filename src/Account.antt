-- ===== src/Account.antt =====
-- account.go: accounts, whose keys are byte slices, their erasure, and the encrypted private key. The
-- primitives of crypto/aes, crypto/cipher and argon2 are a parameter; slices that no caller can see
-- (the derived key, the plaintext) are values.
pub mod Erasure
pub mod Created
pub mod Encryption
pub mod Signing
use provable_sdk.Base.{
  ℕ, ◌+◌, ◌<◌, List, [], ◌∷◌, ◌++◌, Bool, true, false, Option, none, some, Bytes, codes, length,
  take, drop, ltb, if◌then◌else◌,
}
use provable_sdk.Text.{is_empty}
use provable_sdk.Fault.{Fault, annotate, plain, sentinel, no_private_key}
use provable_sdk.Exec.{Result, ok, err, map_fault, Exec, lift, raise, ◌>>=◌, pure}
use provable_sdk.Json.{Json}
use provable_sdk.Types.{DerivedKeys}
use provable_sdk.Bridge.{Library}
use provable_sdk.Bridge
use provable_sdk.Memory.{Memory, Slice, alloc, read, zero_bytes}

pub record Account : Type 0 where
  pub private_key : Slice
  pub view_key : Slice
  pub compute_key : Slice
  pub graph_key : Slice
  pub address : Bytes

-- PrivateKey, ViewKey, ComputeKey and GraphKey; Address is a field.
unfoldable pub private_key : Memory → Account → Bytes
private_key m a = read m a.private_key

unfoldable pub view_key : Memory → Account → Bytes
view_key m a = read m a.view_key

unfoldable pub compute_key : Memory → Account → Bytes
compute_key m a = read m a.compute_key

unfoldable pub graph_key : Memory → Account → Bytes
graph_key m a = read m a.graph_key

-- the slice that a decoder makes of a json.RawMessage, nil if there is none
alloc_raw : Option Bytes → Memory → Slice × Memory
alloc_raw none m = (none, m)
alloc_raw (some b) m = let (p, m') = alloc b m in (some p, m')

new_account_of : Bytes → DerivedKeys → Exec Memory Account
unfolding alloc_raw
new_account_of sk keys m =
    let (c, m1) = alloc_raw keys.compute_key m in
    let (s, m2) = alloc sk m1 in
    let (v, m3) = alloc keys.view_key m2 in
    let (g, m4) = alloc keys.graph_key m3 in
    (
      ok (record {
        private_key = some s;
        view_key = some v;
        compute_key = c;
        graph_key = some g;
        address = keys.address;
      }),
      m4,
    )

module _ (lib : Library) (json : Json) where
  unfoldable pub account_from_sk : Bytes → Exec Memory Account
  unfolding new_account_of
  account_from_sk sk = do
    keys_json ←
        lift (map_fault (annotate (codes "derive keys")) (Bridge.derive_all_keys lib json sk))
    keys ← lift (map_fault (annotate (codes "parse derived keys")) (json.derived_keys keys_json))
    new_account_of sk keys

  unfoldable new_account : Bytes → Exec Memory Account
  new_account randomness = do
    sk ← lift (
        map_fault (annotate (codes "generate private key"))
          (Bridge.private_key_new lib json randomness))
    account_from_sk sk

  unfoldable pub account_from_private_key : Bytes → Exec Memory Account
  unfolding is_empty
  account_from_private_key sk =
      if is_empty sk then raise (sentinel no_private_key) else account_from_sk sk

  -- Account.Sign
  unfoldable pub sign : Memory → Account → Bytes → Result Bytes
  sign m a msg = Bridge.sign_message lib json (read m a.private_key) msg

  -- Verify
  unfoldable pub verify : Bytes → Bytes → Bytes → Result Bool
  verify address msg signature = Bridge.verify_signature lib json address msg signature

-- The four loops of Zeroize.
zero_keys : Account → Memory → Memory
unfolding zero_bytes
zero_keys a m =
    zero_bytes a.graph_key
      (zero_bytes a.compute_key (zero_bytes a.view_key (zero_bytes a.private_key m)))

abbrev pub erased : Account
erased = record {
  private_key = none;
  view_key = none;
  compute_key = none;
  graph_key = none;
  address = [];
}

-- Account.Zeroize: the memory and the account afterwards
unfoldable pub zeroize : Account → Memory → Account × Memory
unfolding zero_keys
zeroize a m = (erased, zero_keys a m)

abbrev argon2_salt_len : ℕ
argon2_salt_len = 16

-- argon2.IDKey at the SDK's parameters, aes.NewCipher and cipher.NewGCM, by the key.
pub record Ciphers : Type 0 where
  pub id_key : Bytes → Bytes → Bytes
  pub cipher_error : Bytes → Option Fault
  pub gcm_error : Bytes → Option Fault
  pub nonce_size : ℕ
  -- Seal and Open with no associated text: nonce, then plaintext or ciphertext
  pub seal : Bytes → Bytes → Bytes → Bytes
  pub unseal : Bytes → Bytes → Bytes → Result Bytes
  pub base64_encode : Bytes → Bytes
  pub base64_decode : Bytes → Result Bytes

-- aes.NewCipher(key), then cipher.NewGCM(block)
ready_gcm : Option Fault → Option Fault → Result (Unit {0})
ready_gcm (some e) g = err (annotate (codes "create cipher") e)
ready_gcm none (some e) = err (annotate (codes "create GCM") e)
ready_gcm none none = ok tt

module _ (ciphers : Ciphers) where
  gcm_for : Bytes → Result (Unit {0})
  unfolding ready_gcm
  gcm_for key = ready_gcm (ciphers.cipher_error key) (ciphers.gcm_error key)

  -- What follows the two draws of randomness, each of which may fail.
  seal_private : Bytes → Bytes → Bytes → Result (Unit {0}) → Result Bytes → Result Bytes
  seal_private plaintext salt key (err e) nonce = err e
  seal_private plaintext salt key (ok _) (err e) = err (annotate (codes "generate nonce") e)
  seal_private plaintext salt key (ok _) (ok nonce) =
      ok (ciphers.base64_encode (salt ++ (nonce ++ ciphers.seal key nonce plaintext)))

  seal_salted : Bytes → Bytes → Result Bytes → Result Bytes → Result Bytes
  unfolding seal_private gcm_for
  seal_salted plaintext password (err e) nonce = err (annotate (codes "generate salt") e)
  seal_salted plaintext password (ok salt) nonce =
      let key = ciphers.id_key password salt in seal_private plaintext salt key (gcm_for key) nonce

  seal_held : Memory → Slice → Bytes → Result Bytes → Result Bytes → Result Bytes
  unfolding seal_salted
  seal_held m none password salt nonce = err (sentinel no_private_key)
  seal_held m (some p) password salt nonce = seal_salted (m.cell p) password salt nonce

  -- Account.EncryptPrivateKey, with what rand.Read gives for the salt and for the nonce
  unfoldable pub encrypt_private_key :
      Result Bytes → Result Bytes → Memory → Account → Bytes → Result Bytes
  unfolding seal_held
  encrypt_private_key salt nonce m a password = seal_held m a.private_key password salt nonce

  open_private : Bytes → Bytes → Result (Unit {0}) → Result Bytes
  open_private payload key (err e) = err e
  open_private payload key (ok _) =
      let rest = drop argon2_salt_len payload in
      if ltb (length payload) (argon2_salt_len + ciphers.nonce_size)
      then err (plain (codes "encrypted data too short for nonce"))
      else map_fault (annotate (codes "decrypt private key"))
          (ciphers.unseal key (take ciphers.nonce_size rest) (drop ciphers.nonce_size rest))

  open_decoded : Bytes → Result Bytes → Result Bytes
  unfolding open_private gcm_for
  open_decoded password (err e) = err (annotate (codes "decode encrypted key") e)
  open_decoded password (ok payload) =
      let key = ciphers.id_key password (take argon2_salt_len payload) in
      if ltb (length payload) (argon2_salt_len + 12)
      then err (plain (codes "encrypted data too short"))
      else open_private payload key (gcm_for key)

  -- AccountFromEncryptedPrivateKey up to its last call: the private key
  unfoldable pub decrypt_private_key : Bytes → Bytes → Result Bytes
  unfolding open_decoded
  decrypt_private_key encrypted password = open_decoded password (ciphers.base64_decode encrypted)

  unfoldable pub account_from_encrypted_private_key :
      Library → Json → Bytes → Bytes → Exec Memory Account
  account_from_encrypted_private_key lib json encrypted password = do
    sk ← lift (decrypt_private_key encrypted password)
    account_from_private_key lib json sk
