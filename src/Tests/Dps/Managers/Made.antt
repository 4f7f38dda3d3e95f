-- ===== src/Tests/Dps/Managers/Made.antt =====
-- Two managers made with one configuration.
use provable_sdk.Base.{◌^◌, ◌≡◌, refl, none, some, [], pos, codes}
use provable_sdk.Text.{is_empty, trim_right, index}
use provable_sdk.Exec.{ok}
use provable_sdk.Types.{Network}
use provable_sdk.Network.{new_network_client}
use provable_sdk.Provable.{
  ProvableConfig, ProvableClient, new_provable_client, api_base, prover_base,
}
use provable_sdk.Manager.{
  ProgramManagerOptions, ProgramManager, default_network, new_program_manager,
}
use provable_sdk.Manager.Config.{public_prover, new_program_manager_reused}
use provable_sdk.Tests.Dps.{willing_library, no_memory, dps_codec}

-- A configuration that names neither a network nor a prover, for two managers.
abbrev config : ProvableConfig
config = record { api_key = codes "k"; consumer_id = codes "c"; prover_url = []; network = [] }

abbrev on_network : Network → ProvableConfig → ProgramManagerOptions
on_network n cfg = record { host = []; network = n; private_key = []; provable = some cfg }

abbrev manager_on : Network → ProvableClient → ProgramManager
manager_on n c = record {
  account = none;
  network_client = new_network_client (codes "https://api.explorer.provable.com/v2") n [];
  provable_client = some c;
  network = n;
}

abbrev on_testnet : ProgramManagerOptions
on_testnet = on_network (codes "testnet") config

abbrev then_mainnet : ProgramManagerOptions
then_mainnet = on_network (codes "mainnet") (record config { network = codes "testnet" })

abbrev prover : ProvableClient
prover = record {
  api_key = codes "k";
  consumer_id = codes "c";
  api_base = codes "https://api.provable.com";
  prover_base = codes "https://api.provable.com/prove/testnet";
  max_retries = pos 3;
  base_delay = 10 ^ 9;
}

makes :
    (new_program_manager willing_library dps_codec on_testnet no_memory).result
    ≡ ok (manager_on (codes "testnet") prover)
unfolding new_program_manager new_provable_client new_network_client is_empty trim_right api_base
    prover_base index
makes = refl

leaves :
    some (record config { network = codes "testnet" })
    ≡ (new_program_manager willing_library dps_codec on_testnet no_memory).config
unfolding new_program_manager is_empty
leaves = refl

makes_again :
    (new_program_manager willing_library dps_codec then_mainnet no_memory).result
    ≡ ok (manager_on (codes "mainnet") prover)
unfolding new_program_manager new_provable_client new_network_client is_empty trim_right api_base
    prover_base index
makes_again = refl

new_program_manager_reused_example :
    (c : ProvableClient) × ((manager_on (codes "mainnet") prover).provable_client ≡ some c)
    × (c.prover_base ≡ public_prover (default_network (codes "testnet")))
    × ((manager_on (codes "mainnet") prover).network_client.network
        ≡ default_network (codes "mainnet"))
new_program_manager_reused_example =
    new_program_manager_reused willing_library dps_codec on_testnet no_memory config then_mainnet
      no_memory refl refl refl makes leaves makes_again
