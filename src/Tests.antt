-- ===== src/Tests.antt =====
-- Concrete data for runs of the model: a clock that stands still, servers, a client, a codec.
pub mod Node
pub mod Waiting
pub mod Sources
pub mod Dps
use provable_sdk.Base.{ℕ, refl, false, Option, none, some, [], ◌∷◌, pos, Bytes, codes, List}
use provable_sdk.Exec.{Result, ok, err}
use provable_sdk.Fault.{Fault, plain}
use provable_sdk.Http.Env.{Request, Exchange, answered, Trace, Env}
use provable_sdk.Types.{Block, Transaction, testnet_v0}
use provable_sdk.Json.{Json}
use provable_sdk.Network.{NetworkClient}
use provable_sdk.Network.Get.Steps.{IsCalm}

abbrev refusal : Fault
refusal = plain (codes "invalid")

abbrev pub reply : ℕ → Bytes → Exchange
reply status body = answered (record { status = status; headers = []; body = ok body })

-- Nothing is cancelled or rejected, and the server is as given.
abbrev calm_env : (Trace → Request → Exchange) → Env
calm_env respond = record {
  reject_url = λ url. none;
  respond = respond;
  interrupted = λ t d. none;
  throttled = λ t. none;
  now = λ t. 0;
  random = λ t. [];
  huge_power = λ k. 0;
}

calm_env-IsCalm :
    (respond : Trace → Request → Exchange) (c : NetworkClient) (url : Bytes)
    → IsCalm (calm_env respond) c url
calm_env-IsCalm respond c url = record {
  accepts = refl;
  alive = λ t d. refl;
  open_gate = λ t. refl;
}

-- The answer where nothing was done before, and the answer afterwards.
abbrev at_first : Exchange → Exchange → Trace → Request → Exchange
at_first x y [] q = x
at_first x y (a ∷ t) q = y

abbrev node_client : NetworkClient
node_client = record {
  host = codes "http://node";
  network = testnet_v0;
  headers = [];
  max_retries = pos 1;
  base_delay = 5;
  limited = false;
  limit = 0;
}

abbrev block_at : ℕ → Option Block
block_at height = some (record {
  hash = [];
  previous_hash = [];
  height = height;
  header = [];
  authority = [];
  ratifications = [];
  solutions = [];
  aborted_solution_ids = [];
  transactions = [];
  aborted_transaction_ids = [];
})

abbrev transfer : Transaction
transfer = record { kind = []; id = codes "at1"; execution = []; fee = []; deployment = [] }

-- A codec that decodes lists of blocks as given, every transaction as `transfer`, texts as themselves
-- and nothing else.
abbrev codec : (Bytes → Result (List (Option Block))) → Json
codec blocks = record {
  string = ok;
  uint = λ b. err refusal;
  int = λ b. err refusal;
  strings = λ b. err refusal;
  block = λ b. err refusal;
  blocks = blocks;
  transaction = λ b. ok transfer;
  proving_response = λ b. ok (record { transaction = b; broadcast_result = none });
  pub_key = λ b. err refusal;
  message = ok;
  id = ok;
  error = λ b. ok (codes "no key");
  exp = λ b. err refusal;
  marshal_strings = λ b. ok [];
  derived_keys = λ b. ok (record {
    view_key = codes "v";
    address = codes "a";
    compute_key = none;
    graph_key = codes "g";
  });
  marshal_proving = λ r. ok [];
  marshal_encrypted = λ r. ok [];
}
