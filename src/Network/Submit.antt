-- ===== src/Network/Submit.antt =====
-- GetPublicBalance, which parses a mapping's value, and the methods that POST: a transaction's
-- broadcast and the state paths. Those are sent once, with no retry.
pub mod Balance
use provable_sdk.Base.{
  ℕ, ℤ, List, [], ◌∷◌, ◌++◌, Bool, true, false, not, ◌||◌, ◌&&◌, Option, none, some, Bytes, codes,
  ◌==◌, if◌then◌else◌,
}
use provable_sdk.Text.{trim, trim_space, trim_suffix, quote}
use provable_sdk.Text.Decimal.{format_uint, parse_uint, parse_uint_fault}
use provable_sdk.Fault.{Fault, annotate, foreign, plain}
use provable_sdk.Exec.{Result, ok, err, Exec, pure, raise, lift, on_fault, map_fault, ◌>>=◌}
use provable_sdk.Http.{Headers, set_header}
use provable_sdk.Http.Env.{
  Method, get, post, Request, Response, Exchange, failed, answered, Env, Net, new_request,
  do_request,
}
use provable_sdk.Json.{Json}
use provable_sdk.Types.{Block, Transaction}
use provable_sdk.Network.{NetworkClient, endpoint}
use provable_sdk.Network.Queries.{get_mapping_value}
use provable_sdk.Network.Get.{fetch, apply_headers}

-- GetPublicBalance behind its query: spaces, quotes and the suffix go, and a uint64 is read.
unfoldable balance_text : Bytes → Bytes
balance_text val = trim_suffix (trim (trim_space val) (codes "\"")) (codes "u64")

balance_of : Bytes → Option ℕ → Result ℕ
balance_of text (some balance) = ok balance
balance_of text none = err (annotate (codes "parse balance " ++ quote text) (parse_uint_fault text))

unfoldable pub parse_balance : Bytes → Result ℕ
unfolding balance_text balance_of
parse_balance val = balance_of (balance_text val) (parse_uint (balance_text val))

-- resp.StatusCode == http.StatusOK || resp.StatusCode == http.StatusCreated
unfoldable pub is_accepted : ℕ → Bool
is_accepted status = status == 200 || status == 201

status_error : Bytes → ℕ → Bytes → Fault
status_error what status body =
    plain (what ++ codes " (status " ++ format_uint status ++ codes "): " ++ body)

broadcast_reply : ℕ → Result Bytes → Net Bytes
unfolding status_error is_accepted
broadcast_reply status (err e) = raise (annotate (codes "read broadcast response") e)
broadcast_reply status (ok body) =
    if is_accepted status
    then pure (trim body (codes "\" \n"))
    else raise (status_error (codes "broadcast failed") status body)

broadcast_answer : Exchange → Net Bytes
unfolding broadcast_reply
broadcast_answer (failed e) = raise (annotate (codes "broadcast request failed") e)
broadcast_answer (answered r) = broadcast_reply r.status r.body

state_path_reply : ℕ → Result Bytes → Net Bytes
unfolding status_error
state_path_reply status (err e) = raise (annotate (codes "read state path response") e)
state_path_reply status (ok body) =
    if status == 200
    then pure body
    else raise (status_error (codes "state path failed") status body)

state_path_answer : Exchange → Net Bytes
unfolding state_path_reply
state_path_answer (failed e) = raise (annotate (codes "state path request failed") e)
state_path_answer (answered r) = state_path_reply r.status r.body

-- A POST of JSON with the client's headers.
unfoldable post_request : NetworkClient → Bytes → Bytes → Request
post_request c url body = record {
  method = post;
  url = url;
  headers = apply_headers c (set_header (codes "Content-Type") (codes "application/json") []);
  body = body;
}

module _ (env : Env) (json : Json) (c : NetworkClient) where
  unfoldable get_public_balance : (address : Bytes) → Net ℕ
  unfolding parse_balance
  get_public_balance address = do
    val ←
        on_fault (annotate (codes "get public balance"))
          (get_mapping_value env json c (codes "credits.aleo") (codes "account") address)
    lift (parse_balance val)

  unfoldable broadcast_url : Bool → Bytes
  broadcast_url debug =
      endpoint c (codes "/transaction/broadcast") ++ (if debug then codes "?debug=true" else [])

  submit : Bytes → Bool → Net Bytes
  unfolding broadcast_answer broadcast_url post_request
  submit transaction debug = do
    req ←
        on_fault (annotate (codes "create broadcast request"))
          (new_request env (post_request c (broadcast_url debug) transaction))
    answer ← do_request env req
    broadcast_answer answer

  unfoldable pub submit_transaction : Bytes → Net Bytes
  unfolding submit
  submit_transaction transaction = submit transaction false

  unfoldable submit_transaction_debug : Bytes → Net Bytes
  unfolding submit
  submit_transaction_debug transaction = submit transaction true

  unfoldable get_state_paths : Option (List Bytes) → Net Bytes
  unfolding state_path_answer post_request
  get_state_paths commitments = do
    body ←
        lift (map_fault (annotate (codes "marshal commitments")) (json.marshal_strings commitments))
    req ←
        on_fault (annotate (codes "create state path request"))
          (new_request env (post_request c (endpoint c (codes "/statePath")) body))
    answer ← do_request env req
    state_path_answer answer
