-- ===== src/Network/Queries.antt =====
-- The queries of NetworkClient: a URL, a GET with retries, and a decoder, with the context that each
-- error is given.
pub mod Empty
use provable_sdk.Base.{ℕ, ℤ, List, ◌++◌, Option, Bytes, codes}
use provable_sdk.Text.{trim}
use provable_sdk.Text.Decimal.{format_uint}
use provable_sdk.Fault.{annotate}
use provable_sdk.Exec.{Result, ok, err, pure, lift, on_fault, map_fault, ◌>>=◌}
use provable_sdk.Http.Env.{Env, Net}
use provable_sdk.Json.{Json}
use provable_sdk.Types.{Block, Transaction}
use provable_sdk.Network.{NetworkClient, endpoint}
use provable_sdk.Network.Get.{fetch}

-- A decoder's value, or the bytes themselves where it fails.
unfoldable pub or_raw : Result Bytes → Bytes → Bytes
or_raw (ok s) body = s
or_raw (err e) body = body

module _ (env : Env) (json : Json) (c : NetworkClient) where
  unfoldable get_block : (height : ℕ) → Net Block
  get_block height = do
    body ←
        on_fault (annotate (codes "get block " ++ format_uint height))
          (fetch env c (endpoint c (codes "/block/" ++ format_uint height)))
    lift (map_fault (annotate (codes "decode block " ++ format_uint height)) (json.block body))

  unfoldable get_block_by_hash : (hash : Bytes) → Net Block
  get_block_by_hash hash = do
    body ←
        on_fault (annotate (codes "get block " ++ hash))
          (fetch env c (endpoint c (codes "/block/" ++ hash)))
    lift (map_fault (annotate (codes "decode block " ++ hash)) (json.block body))

  -- The node sends the source as a JSON text; what is none is taken as it is.
  unfoldable pub get_program : (program_id : Bytes) → Net Bytes
  unfolding or_raw
  get_program program_id = do
    body ←
        on_fault (annotate (codes "get program " ++ program_id))
          (fetch env c (endpoint c (codes "/program/" ++ program_id)))
    pure (or_raw (json.string body) body)

  unfoldable pub get_mapping_value : (program_id mapping_name key : Bytes) → Net Bytes
  unfolding or_raw
  get_mapping_value program_id mapping_name key = do
    body ←
        on_fault
          (annotate
            (codes "get mapping " ++ program_id ++ codes "/" ++ mapping_name ++ codes "/" ++ key))
          (fetch env c (
            endpoint c (
              codes "/program/"
              ++ program_id
              ++ codes "/mapping/"
              ++ mapping_name
              ++ codes "/"
              ++ key)))
    pure (or_raw (json.string body) body)

  unfoldable pub get_transaction : (tx_id : Bytes) → Net Transaction
  get_transaction tx_id = do
    body ←
        on_fault (annotate (codes "get transaction " ++ tx_id))
          (fetch env c (endpoint c (codes "/transaction/" ++ tx_id)))
    lift (map_fault (annotate (codes "decode transaction " ++ tx_id)) (json.transaction body))

  unfoldable get_transaction_raw : (tx_id : Bytes) → Net Bytes
  get_transaction_raw tx_id = do
    body ←
        on_fault (annotate (codes "get transaction " ++ tx_id))
          (fetch env c (endpoint c (codes "/transaction/" ++ tx_id)))
    pure body

  unfoldable get_latest_block_height : Net ℕ
  get_latest_block_height = do
    body ←
        on_fault (annotate (codes "get latest height"))
          (fetch env c (endpoint c (codes "/latest/height")))
    lift (map_fault (annotate (codes "decode height")) (json.uint body))

  unfoldable get_latest_block : Net Block
  get_latest_block = do
    body ←
        on_fault (annotate (codes "get latest block"))
          (fetch env c (endpoint c (codes "/latest/block")))
    lift (map_fault (annotate (codes "decode latest block")) (json.block body))

  unfoldable get_latest_hash : Net Bytes
  get_latest_hash = do
    body ←
        on_fault (annotate (codes "get latest hash"))
          (fetch env c (endpoint c (codes "/latest/hash")))
    pure (trim body (codes "\" \n"))

  unfoldable get_state_root : Net Bytes
  get_state_root = do
    body ←
        on_fault (annotate (codes "get state root"))
          (fetch env c (endpoint c (codes "/latest/stateRoot")))
    pure (trim body (codes "\" \n"))

  unfoldable get_committee : Net Bytes
  get_committee = do
    body ←
        on_fault (annotate (codes "get committee"))
          (fetch env c (endpoint c (codes "/committee/latest")))
    pure body

  unfoldable get_mempool : Net Bytes
  get_mempool = do
    body ←
        on_fault (annotate (codes "get mempool"))
          (fetch env c (endpoint c (codes "/memoryPool/transactions")))
    pure body

  unfoldable get_peers : Net (List Bytes)
  get_peers = do
    body ← on_fault (annotate (codes "get peers")) (fetch env c (endpoint c (codes "/peers/all")))
    lift (map_fault (annotate (codes "decode peers")) (json.strings body))

  unfoldable get_peer_count : Net ℤ
  get_peer_count = do
    body ←
        on_fault (annotate (codes "get peer count"))
          (fetch env c (endpoint c (codes "/peers/count")))
    lift (map_fault (annotate (codes "decode peer count")) (json.int body))

  unfoldable pub get_block_range : (start : ℕ) (end : ℕ) → Net (List (Option Block))
  get_block_range start end = do
    body ←
        on_fault
          (annotate (codes "get block range " ++ format_uint start ++ codes "-" ++ format_uint end))
          (fetch env c (
            endpoint c
              (codes "/blocks?start=" ++ format_uint start ++ codes "&end=" ++ format_uint end)))
    lift (map_fault (annotate (codes "decode block range")) (json.blocks body))

  unfoldable get_transactions_by_block : (height : ℕ) → Net Bytes
  get_transactions_by_block height = do
    body ←
        on_fault (annotate (codes "get transactions for block " ++ format_uint height)) (
          fetch env c (endpoint c (codes "/block/" ++ format_uint height ++ codes "/transactions")))
    pure body

  unfoldable get_mapping_names : (program_id : Bytes) → Net (List Bytes)
  get_mapping_names program_id = do
    body ←
        on_fault (annotate (codes "get mappings " ++ program_id))
          (fetch env c (endpoint c (codes "/program/" ++ program_id ++ codes "/mappings")))
    lift (map_fault (annotate (codes "decode mappings")) (json.strings body))
