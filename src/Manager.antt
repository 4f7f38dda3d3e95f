-- ===== src/Manager.antt =====
-- program_manager.go: the ProgramManager, its making, and what its methods change: the world and the
-- cached token (the session), and the cache of program sources.
pub mod Config
pub mod Execute
pub mod Credits
pub mod Batch
use provable_sdk.Base.{ℕ, List, [], ◌∷◌, Bool, Option, none, some, Bytes, codes, if◌then◌else◌}
use provable_sdk.Text.{is_empty}
use provable_sdk.Fault.{annotate}
use provable_sdk.Exec.{Result, ok, err, map_fault}
use provable_sdk.Partial.{Partial}
use provable_sdk.Json.{Json}
use provable_sdk.Types.{Network, testnet_v0}
use provable_sdk.Bridge.{Library}
use provable_sdk.Memory.{Memory}
use provable_sdk.Account.{Account, account_from_private_key}
use provable_sdk.Network.{NetworkClient, new_network_client}
use provable_sdk.Provable.{ProvableConfig, ProvableClient, Session, new_provable_client}
use provable_sdk.Imports.{Programs}

-- The options that matter here: HTTPClient is in the environment, and no code reads KeyCache. `provable`
-- is what the pointer points to, and `none` where it is nil.
pub record ProgramManagerOptions : Type 0 where
  pub host : Bytes
  pub network : Network
  pub private_key : Bytes
  pub provable : Option ProvableConfig

-- A nil pointer is `none`.
pub record ProgramManager : Type 0 where
  pub account : Option Account
  pub network_client : NetworkClient
  pub provable_client : Option ProvableClient
  pub network : Network

default_host : Bytes → Bytes
default_host host = if is_empty host then codes "https://api.explorer.provable.com/v2" else host

pub default_network : Network → Network
default_network network = if is_empty network then testnet_v0 else network

-- if opts.Provable.Network == "" { opts.Provable.Network = string(opts.Network) }: the caller's config
-- is changed
fill_network : Network → ProvableConfig → ProvableConfig
fill_network network cfg = if is_empty cfg.network then record cfg { network = network } else cfg

init_account : Result Account × Memory → Result (Option Account) × Memory
init_account (ok a, m) = (ok (some a), m)
init_account (err e, m) = (err (annotate (codes "init account") e), m)

account_for : Library → Json → Bytes → Memory → Result (Option Account) × Memory
unfolding init_account
account_for lib json sk m =
    if is_empty sk then (ok none, m) else init_account (account_from_private_key lib json sk m)

init_provable : Result ProvableClient → Result (Option ProvableClient)
init_provable (ok c) = ok (some c)
init_provable (err e) = err (annotate (codes "init provable client") e)

provable_for : Option ProvableConfig → Result (Option ProvableClient)
unfolding init_provable
provable_for none = ok none
provable_for (some cfg) = init_provable (new_provable_client cfg)

fill_config : Network → Option ProvableConfig → Option ProvableConfig
unfolding fill_network
fill_config network none = none
fill_config network (some cfg) = some (fill_network network cfg)

assemble : Bytes → Network → Option Account → Result (Option ProvableClient) → Result ProgramManager
assemble host network account (err e) = err e
assemble host network account (ok provable) = ok (record {
  account = account;
  network_client = new_network_client host network [];
  provable_client = provable;
  network = network;
})

-- What is left behind: the caller's config, and the memory.
pub record Made : Type 0 where
  pub result : Result ProgramManager
  pub config : Option ProvableConfig
  pub memory : Memory

with_account : ProgramManagerOptions → Bytes → Network → Result (Option Account) × Memory → Made
unfolding assemble fill_config provable_for
with_account opts host network (err e, m) = record {
  result = err e;
  config = opts.provable;
  memory = m;
}
with_account opts host network (ok account, m) =
    let config = fill_config network opts.provable in
    record {
      result = assemble host network account (provable_for config);
      config = config;
      memory = m;
    }

-- NewProgramManager
unfoldable pub new_program_manager : Library → Json → ProgramManagerOptions → Memory → Made
unfolding with_account account_for default_host default_network
new_program_manager lib json opts m =
    with_account opts (default_host opts.host) (default_network opts.network)
      (account_for lib json opts.private_key m)

-- SetAccount
unfoldable set_account : ProgramManager → Option Account → ProgramManager
set_account pm a = record pm { account = a }

-- What changes while a manager is used.
pub record Managed : Type 0 where
  pub session : Session
  -- programCache, which is always there
  pub programs : List (Bytes × Bytes)

abbrev Managing : Type 0 → Type 0
Managing A = Partial Managed A
