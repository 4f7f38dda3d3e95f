-- ===== src/Json.antt =====
-- encoding/json at the types that the SDK decodes and encodes, as a parameter: the error of a
-- decoder is the library's own. No law of it is assumed unless a theorem names it.
use provable_sdk.Base.{ℕ, ℤ, List, Option, Bytes}
use provable_sdk.Exec.{Result}
use provable_sdk.Types.{
  DerivedKeys, Block, Transaction, ProvingRequest, ProvingResponse, PubKeyResponse,
  EncryptedProvingRequest,
}

pub record Json : Type 0 where
  pub string : Bytes → Result Bytes
  pub uint : Bytes → Result ℕ
  pub int : Bytes → Result ℤ
  pub strings : Bytes → Result (List Bytes)
  pub block : Bytes → Result Block
  -- []*Block, where a JSON null is a nil pointer
  pub blocks : Bytes → Result (List (Option Block))
  pub transaction : Bytes → Result Transaction
  pub proving_response : Bytes → Result ProvingResponse
  pub pub_key : Bytes → Result PubKeyResponse
  -- struct { Message string `json:"message"` }, struct { ID string `json:"id"` } and
  -- struct { Error string `json:"error"` }
  pub message : Bytes → Result Bytes
  pub id : Bytes → Result Bytes
  pub error : Bytes → Result Bytes
  -- the text of the json.Number in struct { Exp json.Number `json:"exp"` }
  pub exp : Bytes → Result Bytes
  -- []string, where `none` is the nil slice, which is written as null
  pub marshal_strings : Option (List Bytes) → Result Bytes
  -- the struct of view_key, address, compute_key and graph_key
  pub derived_keys : Bytes → Result DerivedKeys
  pub marshal_proving : ProvingRequest → Result Bytes
  pub marshal_encrypted : EncryptedProvingRequest → Result Bytes
