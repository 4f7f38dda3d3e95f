-- ===== src/Security.antt =====
-- security.go: sealed boxes, and the encryption of proving requests. The primitives of x/crypto,
-- encoding/hex and encoding/base64 are a parameter.
pub mod RoundTrip
use provable_sdk.Base.{
  ℕ, ◌+◌, List, [], ◌∷◌, ◌++◌, Bool, true, false, not, Option, none, some, Bytes, codes, length,
  take, drop, ltb, ◌==◌, if◌then◌else◌,
}
use provable_sdk.Text.Decimal.{format_uint}
use provable_sdk.Fault.{Fault, annotate, plain}
use provable_sdk.Exec.{Result, ok, err, map_fault}

pub record Primitives : Type 0 where
  pub hex_decode : Bytes → Result Bytes
  pub base64_encode : Bytes → Bytes
  pub base64_decode : Bytes → Result Bytes
  -- base64.RawURLEncoding
  pub raw_url_decode : Bytes → Result Bytes
  -- box.GenerateKey of some randomness: a public and a secret key
  pub generate_key : Bytes → Result (Bytes × Bytes)
  -- the error of blake2b.New(24, nil), and the hash of what is written to it
  pub hash_error : Option Fault
  pub hash_24 : Bytes → Bytes
  -- box.Seal and box.Open, with message or box, nonce, peer's public key and own secret key
  pub seal : Bytes → Bytes → Bytes → Bytes → Bytes
  pub unseal : Bytes → Bytes → Bytes → Bytes → Option Bytes

-- box.Overhead
abbrev overhead : ℕ
overhead = 16

module _ (prim : Primitives) where
  -- the nonce: BLAKE2b of the ephemeral and the recipient's public key
  hash_keys : Option Fault → Bytes → Result Bytes
  hash_keys none keys = ok (prim.hash_24 keys)
  hash_keys (some e) keys = err (annotate (codes "create blake2b hasher") e)

  seal_with : Bytes → Bytes → Bytes × Bytes → Result Bytes → Result Bytes
  seal_with recipient_pk message (epk, esk) (err e) = err e
  seal_with recipient_pk message (epk, esk) (ok nonce) =
      ok (epk ++ prim.seal message nonce recipient_pk esk)

  seal_keys : Bytes → Bytes → Result (Bytes × Bytes) → Result Bytes
  unfolding seal_with hash_keys
  seal_keys recipient_pk message (err e) = err (annotate (codes "generate ephemeral keypair") e)
  seal_keys recipient_pk message (ok (epk, esk)) =
      seal_with recipient_pk message (epk, esk) (hash_keys prim.hash_error (epk ++ recipient_pk))

  -- sealedBoxEncrypt, with the randomness of the ephemeral key
  unfoldable pub sealed_box_encrypt : Bytes → Bytes → Bytes → Result Bytes
  unfolding seal_keys
  sealed_box_encrypt randomness recipient_pk message =
      seal_keys recipient_pk message (prim.generate_key randomness)

  encode_sealed : Result Bytes → Result Bytes
  encode_sealed (ok sealed) = ok (prim.base64_encode sealed)
  encode_sealed (err e) = err (annotate (codes "seal") e)

  encrypt_for : Bytes → Bytes → Result Bytes → Result Bytes
  unfolding encode_sealed
  encrypt_for randomness message (err e) = err (annotate (codes "decode public key hex") e)
  encrypt_for randomness message (ok pk) =
      if length pk == 32
      then encode_sealed (sealed_box_encrypt randomness pk message)
      else err (plain (codes "public key must be 32 bytes, got " ++ format_uint (length pk)))

  -- encryptProvingRequest
  unfoldable pub encrypt_proving_request : Bytes → Bytes → Bytes → Result Bytes
  unfolding encrypt_for
  encrypt_proving_request randomness public_key_hex message =
      encrypt_for randomness message (prim.hex_decode public_key_hex)

  opened : Option Bytes → Result Bytes
  opened (some plaintext) = ok plaintext
  opened none = err (plain (codes "decryption failed"))

  open_with : Bytes → Bytes → Bytes → Result Bytes → Result Bytes
  unfolding opened
  open_with epk recipient_sk box (err e) = err e
  open_with epk recipient_sk box (ok nonce) = opened (prim.unseal box nonce epk recipient_sk)

  -- sealedBoxDecrypt
  unfoldable pub sealed_box_decrypt : Bytes → Bytes → Bytes → Result Bytes
  unfolding open_with hash_keys
  sealed_box_decrypt recipient_pk recipient_sk ciphertext =
      let epk = take 32 ciphertext in
      if ltb (length ciphertext) (32 + overhead)
      then err (plain (codes "ciphertext too short"))
      else open_with epk recipient_sk (drop 32 ciphertext)
          (hash_keys prim.hash_error (epk ++ recipient_pk))
