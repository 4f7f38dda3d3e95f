-- ===== src/Tests/Dps/Accounts.antt =====
-- Accounts, hashes and clients on concrete data.
use provable_sdk.Base.{ℕ, ◌≡◌, refl, none, some, [], ◌++◌, ◌==◌, if◌then◌else◌, arith, Bytes, codes}
use provable_sdk.Text.{is_empty}
use provable_sdk.Exec.{ok}
use provable_sdk.Memory.{Memory, read, zeros}
use provable_sdk.Bridge.{derive_all_keys, result_or_error, c_string}
use provable_sdk.Account.{
  Account, private_key, account_from_sk, account_from_private_key, zeroize, erased, Ciphers,
  encrypt_private_key, account_from_encrypted_private_key,
}
use provable_sdk.Account.Erasure.{owns, zeroize-zeros}
use provable_sdk.Account.Created.{zeroize-separate}
use provable_sdk.Account.Encryption.{IsAead, account_from_encrypted-encrypt}
use provable_sdk.Tests.Dps.{willing_library, no_memory, dps_codec}

abbrev key : Bytes
key = codes "sk"

abbrev created : Account × Memory
created = (
  record {
    private_key = some 0;
    view_key = some 1;
    compute_key = none;
    graph_key = some 2;
    address = codes "a";
  },
  record {
    next = 3;
    cell =
        λ q. if q == 2 then codes "g" else if q == 1 then codes "v" else if q == 0 then key else [];
  },
)

creates :
    account_from_private_key willing_library dps_codec key no_memory ≡ (ok created.0, created.1)
unfolding account_from_private_key account_from_sk derive_all_keys result_or_error c_string is_empty
creates = refl

zeroize-zeros_example :
    ((zeroize created.0 created.1).0 ≡ erased)
    × ((p : ℕ)
        → (zeroize created.0 created.1).1.cell p
          ≡ (if owns created.0 p then zeros (created.1.cell p) else created.1.cell p))
zeroize-zeros_example = zeroize-zeros created.0 created.1

-- A second account, made after the first.
abbrev twice : Account × Memory
twice = (
  record {
    private_key = some 3;
    view_key = some 4;
    compute_key = none;
    graph_key = some 5;
    address = codes "a";
  },
  record {
    next = 6;
    cell = λ q.
        if q == 5
        then codes "g"
        else if q == 4
        then codes "v"
        else if q == 3
        then codes "sk2"
        else created.1.cell q;
  },
)

creates_again :
    account_from_private_key willing_library dps_codec (codes "sk2") created.1
    ≡ (ok twice.0, twice.1)
unfolding account_from_private_key account_from_sk derive_all_keys result_or_error c_string is_empty
creates_again = refl

zeroize-separate_example : read (zeroize twice.0 twice.1).1 (some 0) ≡ read created.1 (some 0)
zeroize-separate_example =
    zeroize-separate willing_library dps_codec (codes "sk2") created.1 (some 0) creates_again
      (omega arith)

abbrev toy_ciphers : Ciphers
toy_ciphers = record {
  id_key = λ password salt. password ++ salt;
  cipher_error = λ k. none;
  gcm_error = λ k. none;
  nonce_size = 12;
  seal = λ k nonce text. text;
  unseal = λ k nonce box. ok box;
  base64_encode = λ b. b;
  base64_decode = ok;
}

toy_ciphers-IsAead : IsAead toy_ciphers
toy_ciphers-IsAead = record {
  unseal-seal = λ k nonce text. refl;
  nonce_12 = refl;
  decode-encode = λ s. refl;
}

abbrev salt : Bytes
salt = codes "0123456789abcdef"

abbrev nonce : Bytes
nonce = codes "0123456789ab"

encrypts :
    encrypt_private_key toy_ciphers (ok salt) (ok nonce) created.1 created.0 (codes "pw")
    ≡ ok (salt ++ nonce ++ key)
unfolding encrypt_private_key
encrypts = refl

account_from_encrypted-encrypt_example :
    account_from_encrypted_private_key toy_ciphers willing_library dps_codec
      (salt ++ nonce ++ key)
      (codes "pw")
      no_memory
    ≡ account_from_private_key willing_library dps_codec (private_key created.1 created.0) no_memory
account_from_encrypted-encrypt_example =
    account_from_encrypted-encrypt toy_ciphers toy_ciphers-IsAead willing_library dps_codec
      created.1 no_memory created.0 salt nonce (codes "pw") refl refl encrypts
