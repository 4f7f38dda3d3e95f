-- ===== src/Types.antt =====
-- types.go: the SDK's data. A json.RawMessage is its bytes.
use provable_sdk.Base.{ℕ, ℤ, Bool, ◌||◌, Option, Bytes, codes}
use provable_sdk.Text.{bytes_eq}
use provable_sdk.Exec.{Result, ok}

-- type Network string
abbrev pub Network : Type 0
Network = Bytes

abbrev mainnet_v0 : Network
mainnet_v0 = codes "mainnet"

abbrev pub testnet_v0 : Network
testnet_v0 = codes "testnet"

abbrev canary_v0 : Network
canary_v0 = codes "canary"

unfoldable is_valid_network : Network → Bool
unfolding bytes_eq
is_valid_network n = bytes_eq n mainnet_v0 || bytes_eq n testnet_v0 || bytes_eq n canary_v0

-- Network.String
unfoldable network_string : Network → Bytes
network_string n = n

pub record Authorization : Type 0 where
  pub raw : Bytes

-- Authorization.String, MarshalJSON and UnmarshalJSON, which makes a copy
unfoldable authorization_string : Authorization → Bytes
authorization_string a = a.raw

unfoldable marshal_authorization : Authorization → Result Bytes
marshal_authorization a = ok a.raw

unfoldable unmarshal_authorization : Bytes → Result Authorization
unmarshal_authorization data_bytes = ok (record { raw = data_bytes })

-- ExecutionResult and the keys that the bridge derives: a nil ComputeKey is `none`.
pub record ExecutionResult : Type 0 where
  pub raw : Bytes

pub record DerivedKeys : Type 0 where
  pub view_key : Bytes
  pub address : Bytes
  pub compute_key : Option Bytes
  pub graph_key : Bytes

pub record Block : Type 0 where
  pub hash : Bytes
  pub previous_hash : Bytes
  pub height : ℕ
  pub header : Bytes
  pub authority : Bytes
  pub ratifications : Bytes
  pub solutions : Bytes
  pub aborted_solution_ids : Bytes
  pub transactions : Bytes
  pub aborted_transaction_ids : Bytes

-- The field Type is `kind`.
pub record Transaction : Type 0 where
  pub kind : Bytes
  pub id : Bytes
  pub execution : Bytes
  pub fee : Bytes
  pub deployment : Bytes

pub record ProvingRequest : Type 0 where
  pub authorization : Bytes
  pub fee_authorization : Bytes
  pub broadcast : Bool

pub record BroadcastResult : Type 0 where
  pub status : Bytes
  pub message : Bytes
  pub status_code : ℤ

-- A nil pointer is `none`.
pub record ProvingResponse : Type 0 where
  pub transaction : Bytes
  pub broadcast_result : Option BroadcastResult

pub record DelegatedProvingParams : Type 0 where
  pub proving_request : ProvingRequest
  pub dps_privacy : Bool
  pub url : Bytes

pub record ProvingError : Type 0 where
  pub message : Bytes

-- The field OK is `success`, and Error is `error`.
pub record ProvingResult : Type 0 where
  pub success : Bool
  pub payload : Option ProvingResponse
  pub status : ℕ
  pub error : Option ProvingError

pub record PubKeyResponse : Type 0 where
  pub key_id : Bytes
  pub public_key : Bytes

pub record EncryptedProvingRequest : Type 0 where
  pub key_id : Bytes
  pub ciphertext : Bytes
