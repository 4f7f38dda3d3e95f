-- ===== src/Security/RoundTrip.antt =====
-- security.go: sealedBoxEncrypt and then sealedBoxDecrypt, with the laws of NaCl boxes that they need.
use provable_sdk.Base.{
  ◌+◌, ◌≤◌, ◌≡◌, refl, ap, ◌∙◌, ◌++◌, false, Option, none, some, arith, Bytes, length,
  length-append, take-append, drop-append, ltb,
}
use provable_sdk.Fault.{Fault}
use provable_sdk.Exec.{Result, ok, err}
use provable_sdk.Security.{
  Primitives, overhead, hash_keys, seal_with, seal_keys, sealed_box_encrypt, opened,
  sealed_box_decrypt,
}

-- What NaCl documents of box.GenerateKey, box.Seal and box.Open: public keys have 32 bytes, a box has
-- 16 bytes more than its message, and the owner of the recipient's secret key opens a box that was
-- sealed for the recipient with the same nonce.
pub record IsBox (prim : Primitives) : Type 1 where
  pub Pair : Bytes → Bytes → Type 0
  pub generates :
      (randomness epk esk : Bytes) → prim.generate_key randomness ≡ ok (epk, esk) → Pair epk esk
  pub key_length : (pk sk : Bytes) → Pair pk sk → length pk ≡ 32
  pub box_length :
      (message nonce pk sk : Bytes)
      → length (prim.seal message nonce pk sk) ≡ length message + overhead
  pub unseal-seal :
      (message nonce pk sk epk esk : Bytes)
      → Pair pk sk
      → Pair epk esk
      → prim.unseal (prim.seal message nonce pk esk) nonce epk sk ≡ some message

module _ (prim : Primitives) where
  -- What a sealed box is made of.
  abbrev IsSealed : Bytes → Bytes → Bytes → Bytes → Bytes → Type 0
  IsSealed pk message epk esk sealed =
      (prim.hash_error ≡ none)
      × (sealed ≡ epk ++ prim.seal message (prim.hash_24 (epk ++ pk)) pk esk)

  seal_with-IsSealed :
      (pk message epk esk : Bytes) (o : Option Fault) {sealed : Bytes}
      → prim.hash_error ≡ o
      → seal_with prim pk message (epk, esk) (hash_keys prim o (epk ++ pk)) ≡ ok sealed
      → IsSealed pk message epk esk sealed
  unfolding seal_with hash_keys
  seal_with-IsSealed pk message epk esk none e h = (e, ground arith)
  seal_with-IsSealed pk message epk esk (some x) e h = absurd (cc h)

  seal_keys-IsSealed :
      (pk message : Bytes) (g : Result (Bytes × Bytes)) {sealed : Bytes}
      → seal_keys prim pk message g ≡ ok sealed
      → (epk : Bytes) × (esk : Bytes) × (g ≡ ok (epk, esk)) × IsSealed pk message epk esk sealed
  unfolding seal_keys
  seal_keys-IsSealed pk message (ok (epk, esk)) h =
      (epk, esk, refl, seal_with-IsSealed pk message epk esk prim.hash_error refl h)
  seal_keys-IsSealed pk message (err x) h = absurd (cc h)

  decrypt_parts :
      (pk sk epk box : Bytes)
      → prim.hash_error ≡ none
      → length epk ≡ 32
      → overhead ≤ length box
      → sealed_box_decrypt prim pk sk (epk ++ box)
        ≡ opened prim (prim.unseal box (prim.hash_24 (epk ++ pk)) epk sk)
  unfolding sealed_box_decrypt
  decrypt_parts pk sk epk box h key size =
      let long : ltb (length (epk ++ box)) (32 + overhead) ≡ false =
        ground (arith, length-append epk box) in
      rw (long, take-append 32 epk box key, drop-append 32 epk box key, h)

module _ (prim : Primitives) (laws : IsBox prim) where
  -- Where the primitives generate key pairs and open what they seal for a pair, sealedBoxDecrypt with
  -- the recipient's pair gives back the message that sealedBoxEncrypt has sealed for it.
  pub sealed_box_decrypt-encrypt :
      (randomness pk sk message : Bytes) {sealed : Bytes}
      → laws.Pair pk sk
      → sealed_box_encrypt prim randomness pk message ≡ ok sealed
      → sealed_box_decrypt prim pk sk sealed ≡ ok message
  unfolding sealed_box_encrypt opened
  sealed_box_decrypt-encrypt randomness pk sk message pair e =
      let (epk, esk, g, (no_error, shape)) =
        seal_keys-IsSealed prim pk message (prim.generate_key randomness) e in
      let fresh = laws.generates randomness epk esk g in
      let box = prim.seal message (prim.hash_24 (epk ++ pk)) pk esk in
      let size = laws.box_length message (prim.hash_24 (epk ++ pk)) pk esk in
      let key = laws.key_length epk esk fresh in
      ap (sealed_box_decrypt prim pk sk) shape
      ∙ decrypt_parts prim pk sk epk box no_error key (omega (arith, size))
      ∙ ap (opened prim)
          (laws.unseal-seal message (prim.hash_24 (epk ++ pk)) pk sk epk esk pair fresh)
