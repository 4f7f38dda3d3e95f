-- ===== src/Account/Signing.antt =====
-- Accounts, their signatures and Verify, through the Go side and the Rust library.
use provable_sdk.Base.{◌≡◌, refl, ◌∙◌, true, false, Bytes, codes}
use provable_sdk.Text.{is_empty}
use provable_sdk.Exec.{ok}
use provable_sdk.Json.{Json}
use provable_sdk.Types.{DerivedKeys}
use provable_sdk.Memory.{Memory}
use provable_sdk.Bridge
use provable_sdk.Bridge.{Library, c_string}
use provable_sdk.Bridge.Rust.{done, has_nul}
use provable_sdk.Bridge.Rust.Crates.{Crates}
use provable_sdk.Bridge.Rust.Pointer.{is_utf8, argument-done}
use provable_sdk.Bridge.Rust.Account.{
  derive_all_keys, aleo_derive_all_keys, sign_message, aleo_sign_message,
}
use provable_sdk.Bridge.Rust.Linked.{linked}
use provable_sdk.Bridge.Rust.Calls.{IsPlain, c_string-eq_self, slice-message_pointer, handed_over}
use provable_sdk.Bridge.Rust.Verdicts.{verify_signature-Judges}
use provable_sdk.Account.{
  Account, private_key, account_from_private_key, account_from_sk, new_account_of, sign, verify,
}
use provable_sdk.Account.Created.{account_from_private_key-IsCreated}

-- What snarkVM documents: printed addresses and signatures are plain UTF-8 texts that are read back,
-- and the address of a key accepts what the key has signed.
pub record IsSound (k : Crates) : Type 0 where
  pub parse-print_address : (a : k.Address) → k.parse_address (k.print_address a) ≡ done a
  pub parse-print_signature : (s : k.Signature) → k.parse_signature (k.print_signature s) ≡ done s
  pub address_utf8 : (a : k.Address) → is_utf8 (k.print_address a) ≡ true
  pub address_no_nul : (a : k.Address) → has_nul (k.print_address a) ≡ false
  pub signature_utf8 : (s : k.Signature) → is_utf8 (k.print_signature s) ≡ true
  pub signature_plain : (s : k.Signature) → IsPlain (k.print_signature s)
  pub verify_bytes-sign_bytes :
      (sk : k.PrivateKey) (a : k.Address) (msg rng : Bytes) (s : k.Signature)
      → k.address_of sk ≡ done a
      → k.sign_bytes sk msg rng ≡ done s
      → k.verify_bytes s a msg ≡ done true

new_account_of-ok :
    (sk : Bytes) (keys : DerivedKeys) (m : Memory)
    → (a : Account) × (m' : Memory) × (new_account_of sk keys m ≡ (ok a, m'))
      × (a.address ≡ keys.address)
unfolding new_account_of
new_account_of-ok sk keys m = (_, _, refl, refl)

-- An account is made where the keys are derived and decoded.
made_of :
    (lib : Library) (json : Json) (sk : Bytes) (m : Memory) {text : Bytes} {keys : DerivedKeys}
    → is_empty sk ≡ false
    → Bridge.derive_all_keys lib json sk ≡ ok text
    → json.derived_keys text ≡ ok keys
    → (a : Account) × (m' : Memory) × (account_from_private_key lib json sk m ≡ (ok a, m'))
      × (a.address ≡ keys.address)
unfolding account_from_private_key account_from_sk
made_of lib json sk m {text} {keys} given derived decoded =
    let (a, m', e, same) = new_account_of-ok sk keys m in
    (a, m', rw (given, derived, decoded) e, same)

module _ (k : Crates) (json : Json) (rng rng' : Bytes) where
  -- The text of a private key that snarkVM reads, with all that it derives, and that encoding/json
  -- reads back.
  pub record IsKey (sk : Bytes) : Type 0 where
    pub given : is_empty sk ≡ false
    pub utf8 : is_utf8 (c_string sk) ≡ true
    pub key : k.PrivateKey
    pub view_key : k.ViewKey
    pub address : k.Address
    pub compute_key : k.ComputeKey
    pub graph_key : k.GraphKey
    pub key_read : k.parse_private_key (c_string sk) ≡ done key
    pub view_key_made : k.view_key_of key ≡ done view_key
    pub address_made : k.address_of key ≡ done address
    pub compute_key_made : k.compute_key_of key ≡ done compute_key
    pub graph_key_made : k.graph_key_of view_key ≡ done graph_key
    pub text : Bytes
    pub written :
        k.keys_json
          (k.print_view_key view_key)
          (k.print_address address)
          compute_key
          (k.print_graph_key graph_key)
        ≡ done text
    pub text_plain : IsPlain text
    pub keys : DerivedKeys
    pub decoded : json.derived_keys text ≡ ok keys
    pub same_address : keys.address ≡ k.print_address address

  module _ (sk : Bytes) (is_key : IsKey sk) where
    derived : Bridge.derive_all_keys (linked k rng rng') json sk ≡ ok is_key.text
    unfolding Bridge.derive_all_keys linked aleo_derive_all_keys derive_all_keys
    derived =
        handed_over json k.escape _ _ is_key.text
          (rw
            (
              argument-done (codes "null private key pointer") (c_string sk) is_key.utf8,
              is_key.key_read,
              is_key.view_key_made,
              is_key.address_made,
              is_key.compute_key_made,
              is_key.graph_key_made,
            )
            is_key.written)
          is_key.text_plain

    -- The account that is made, the key that it signs with, and its address.
    made :
        (m : Memory)
        → (a : Account) × (m' : Memory) × (account_from_private_key (linked k rng rng') json sk m
            ≡ (ok a, m'))
          × (a.address ≡ k.print_address is_key.address)
    made m =
        let (a, m', e, same) =
          made_of (linked k rng rng') json sk m is_key.given derived is_key.decoded in
        (a, m', e, same ∙ is_key.same_address)

    signed :
        (m : Memory) (a : Account) (msg : Bytes) {s : k.Signature}
        → private_key m a ≡ sk
        → k.sign_bytes is_key.key msg rng ≡ done s
        → IsPlain (k.print_signature s)
        → sign (linked k rng rng') json m a msg ≡ ok (k.print_signature s)
    unfolding sign private_key Bridge.sign_message linked aleo_sign_message sign_message
    signed m a msg {s} e h plain =
        handed_over json k.escape _ _ (k.print_signature s)
          (rw (
            e,
            argument-done (codes "null private key pointer") (c_string sk) is_key.utf8,
            is_key.key_read,
            slice-message_pointer msg,
            h,
          ))
          plain

    -- If the text of a private key is not empty and is UTF-8, snarkVM reads it and derives all that belongs
    -- to it, the JSON text of this is plain and encoding/json reads it back, snarkVM signs the message, and
    -- its printing, reading and verifying are as documented, then AccountFromPrivateKey makes an account,
    -- the account signs the message, and Verify accepts the signature under the account's address.
    pub verify-sign :
        (m : Memory) (msg : Bytes) {s : k.Signature}
        → IsSound k
        → k.sign_bytes is_key.key msg rng ≡ done s
        → (a : Account) × (m' : Memory) × (account_from_private_key (linked k rng rng') json sk m
            ≡ (ok a, m'))
          × (sign (linked k rng rng') json m' a msg ≡ ok (k.print_signature s))
          × (verify (linked k rng rng') json a.address msg (k.print_signature s) ≡ ok true)
    unfolding verify
    verify-sign m msg {s} sound h =
        let (a, m', e, same) = made m in
        let created = account_from_private_key-IsCreated (linked k rng rng') json sk m e in
        let plain = sound.signature_plain s in
        let address_text =
          c_string-eq_self (k.print_address is_key.address) (sound.address_no_nul is_key.address) in
        let signature_text = c_string-eq_self (k.print_signature s) plain.no_nul in
        (
          a,
          m',
          e,
          signed m' a msg created.holds h plain,
          rw same (
              (verify_signature-Judges k rng rng' json (k.print_address is_key.address) msg
                  (k.print_signature s) true).1
                record {
                  utf8 = (
                    rw address_text (sound.address_utf8 is_key.address),
                    rw signature_text (sound.signature_utf8 s),
                  );
                  address = is_key.address;
                  signature = s;
                  address_read = rw address_text (sound.parse-print_address is_key.address);
                  signature_read = rw signature_text (sound.parse-print_signature s);
                  judged =
                      sound.verify_bytes-sign_bytes is_key.key is_key.address msg rng s
                        is_key.address_made h;
                }),
        )
