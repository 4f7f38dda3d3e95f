-- ===== src/Account/Encryption.antt =====
-- EncryptPrivateKey, and AccountFromEncryptedPrivateKey on what it gives.
use provable_sdk.Base.{
  ◌+◌, ◌≡◌, refl, ap, ◌∙◌, false, none, some, ◌++◌, Bytes, arith, length, length-append, ltb,
  take-append, drop-append,
}
use provable_sdk.Exec.{Result, ok, err}
use provable_sdk.Json.{Json}
use provable_sdk.Bridge.{Library}
use provable_sdk.Memory.{Memory, Slice, read}
use provable_sdk.Account.{
  Account, Ciphers, private_key, argon2_salt_len, gcm_for, seal_private, seal_salted, seal_held,
  encrypt_private_key, open_private, open_decoded, decrypt_private_key,
  account_from_encrypted_private_key, account_from_private_key,
}

-- What crypto/cipher and encoding/base64 document: Open undoes Seal under the same key and nonce, a
-- nonce of GCM has 12 bytes, and decoding undoes encoding.
pub record IsAead (ciphers : Ciphers) : Type 0 where
  pub unseal-seal :
      (key nonce text : Bytes) → ciphers.unseal key nonce (ciphers.seal key nonce text) ≡ ok text
  pub nonce_12 : ciphers.nonce_size ≡ 12
  pub decode-encode : (s : Bytes) → ciphers.base64_decode (ciphers.base64_encode s) ≡ ok s

module _ (ciphers : Ciphers) (laws : IsAead ciphers) where
  -- The payload that is put together.
  abbrev IsPayload : Bytes → Bytes → Bytes → Bytes → Bytes → Type 0
  IsPayload text password salt nonce s =
      (gcm_for ciphers (ciphers.id_key password salt) ≡ ok tt)
      × (s
          ≡ ciphers.base64_encode
              (salt ++ (nonce ++ ciphers.seal (ciphers.id_key password salt) nonce text)))

  seal_private-IsPayload :
      (text password salt nonce : Bytes) (g : Result (Unit {0})) {s : Bytes}
      → gcm_for ciphers (ciphers.id_key password salt) ≡ g
      → seal_private ciphers text salt (ciphers.id_key password salt) g (ok nonce) ≡ ok s
      → IsPayload text password salt nonce s
  unfolding seal_private
  seal_private-IsPayload text password salt nonce (ok _) e h = (e, ground (arith, h))
  seal_private-IsPayload text password salt nonce (err x) e h = absurd (cc h)

  open_payload :
      (text password salt nonce : Bytes)
      → length salt ≡ argon2_salt_len
      → length nonce ≡ ciphers.nonce_size
      → gcm_for ciphers (ciphers.id_key password salt) ≡ ok tt
      → open_decoded ciphers password
          (ok (salt ++ (nonce ++ ciphers.seal (ciphers.id_key password salt) nonce text)))
        ≡ ok text
  unfolding open_decoded open_private
  open_payload text password salt nonce hs hn g =
      let box = ciphers.seal (ciphers.id_key password salt) nonce text in
      let long : ltb (length (salt ++ (nonce ++ box))) 28 ≡ false = ground (
        arith,
        length-append salt (nonce ++ box),
        length-append nonce box,
        hs,
        hn,
        laws.nonce_12,
      ) in
      let fits : ltb (length (salt ++ (nonce ++ box))) (argon2_salt_len + ciphers.nonce_size)
          ≡ false =
        ground (arith, length-append salt (nonce ++ box), length-append nonce box, hs, hn) in
      let front = take-append argon2_salt_len salt (nonce ++ box) hs in
      let back = drop-append argon2_salt_len salt (nonce ++ box) hs in
      rw (long, front)
        (rw g (
          rw (fits, back)
            (rw
              (
                take-append ciphers.nonce_size nonce box hn,
                drop-append ciphers.nonce_size nonce box hn,
              )
              (rw (laws.unseal-seal (ciphers.id_key password salt) nonce text) refl))))

  seal_held-IsPayload :
      (m : Memory) (held : Slice) (password salt nonce : Bytes) {s : Bytes}
      → seal_held ciphers m held password (ok salt) (ok nonce) ≡ ok s
      → IsPayload (read m held) password salt nonce s
  unfolding seal_held seal_salted read
  seal_held-IsPayload m none password salt nonce h = absurd (cc h)
  seal_held-IsPayload m (some p) password salt nonce h =
      seal_private-IsPayload (m.cell p) password salt nonce _ refl h

  decrypt-encrypt :
      (m : Memory) (a : Account) (salt nonce password : Bytes) {s : Bytes}
      → length salt ≡ argon2_salt_len
      → length nonce ≡ ciphers.nonce_size
      → encrypt_private_key ciphers (ok salt) (ok nonce) m a password ≡ ok s
      → decrypt_private_key ciphers s password ≡ ok (private_key m a)
  unfolding encrypt_private_key decrypt_private_key private_key
  decrypt-encrypt m a salt nonce password hs hn e =
      let (g, shape) = seal_held-IsPayload m a.private_key password salt nonce e in
      ap (λ x. open_decoded ciphers password (ciphers.base64_decode x)) shape
      ∙ ap (open_decoded ciphers password) (laws.decode-encode _)
      ∙ open_payload (read m a.private_key) password salt nonce hs hn g

  -- Where Open undoes Seal, base64 decoding undoes encoding, and GCM's nonce has 12 bytes: from what
  -- EncryptPrivateKey gives, with a salt of 16 bytes and a nonce of GCM's size,
  -- AccountFromEncryptedPrivateKey with the same password makes the account that AccountFromPrivateKey
  -- makes from the private key, or fails as that does.
  pub account_from_encrypted-encrypt :
      (lib : Library) (json : Json) (m m' : Memory) (a : Account) (salt nonce password : Bytes)
      {s : Bytes}
      → length salt ≡ argon2_salt_len
      → length nonce ≡ ciphers.nonce_size
      → encrypt_private_key ciphers (ok salt) (ok nonce) m a password ≡ ok s
      → account_from_encrypted_private_key ciphers lib json s password m'
        ≡ account_from_private_key lib json (private_key m a) m'
  unfolding account_from_encrypted_private_key
  account_from_encrypted-encrypt lib json m m' a salt nonce password hs hn e =
      rw (decrypt-encrypt m a salt nonce password hs hn e) refl
