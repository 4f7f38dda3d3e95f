-- ===== src/Manager/Config.antt =====
-- NewProgramManager: the networks of the parts of a manager, and the caller's configuration that it
-- writes to.
use mathlib.Core.Path.{subst, sym}
use provable_sdk.Base.{
  ◌≡◌, ◌≢◌, refl, ap, ◌∙◌, ◌++◌, [], ◌∷◌, Bool-cases, inl, inr, Option, some, Bytes, codes, arith,
}
use provable_sdk.Text.{is_empty, trim_right}
use provable_sdk.Exec.{Result, ok, err, ok_inj}
use provable_sdk.Json.{Json}
use provable_sdk.Types.{Network}
use provable_sdk.Bridge.{Library}
use provable_sdk.Memory.{Memory}
use provable_sdk.Account.{Account}
use provable_sdk.Network.{new_network_client}
use provable_sdk.Provable.{
  ProvableConfig, ProvableClient, prover_base, default_prover, new_provable_client,
}
use provable_sdk.Manager.{
  ProgramManagerOptions, ProgramManager, default_network, default_host, fill_network, fill_config,
  init_provable, provable_for, assemble, with_account, account_for, new_program_manager,
}

-- The base URL of the public prover for a network.
unfoldable pub public_prover : Network → Bytes
unfolding trim_right
public_prover network = trim_right (default_prover ++ network) (codes "/")

new_provable_client-prover_base :
    (cfg : ProvableConfig) {c : ProvableClient}
    → new_provable_client cfg ≡ ok c
    → c.prover_base ≡ prover_base cfg
unfolding new_provable_client
new_provable_client-prover_base cfg {c} h = elim (Bool-cases (is_empty cfg.api_key)) [
  | inl e ↦ absurd (ground (arith, e, h))
  | inr e ↦ elim (Bool-cases (is_empty cfg.consumer_id)) [
    | inl e' ↦ absurd (ground (arith, e, e', h))
    | inr e' ↦ ground (arith, e, e', h)
  ]
]

default_network-ne-nil : (n : Network) → default_network n ≢ []
unfolding default_network is_empty
default_network-ne-nil [] h = absurd (cc h)
default_network-ne-nil (x ∷ n) h = absurd (cc h)

base_of :
    (n url key id : Bytes)
    → n ≢ []
    → url ≡ []
    → prover_base (record { api_key = key; consumer_id = id; prover_url = url; network = n })
      ≡ public_prover n
unfolding prover_base public_prover is_empty
base_of [] url key id ne e = absurd (ne refl)
base_of (x ∷ n) [] key id ne e = refl
base_of (x ∷ n) (y ∷ url) key id ne e = absurd (cc e)

filled-prover_base :
    (network : Network) (cfg : ProvableConfig)
    → network ≢ []
    → cfg.network ≡ []
    → cfg.prover_url ≡ []
    → (fill_network network cfg).network ≡ network
      × (prover_base (fill_network network cfg) ≡ public_prover network)
unfolding fill_network is_empty
filled-prover_base network cfg ne e e' = rw e (refl, base_of network cfg.prover_url _ _ ne e')

-- A configuration that was filled stays as it is.
fill_network-fill_network :
    (n n' : Network) (cfg : ProvableConfig)
    → n ≢ []
    → cfg.network ≡ []
    → fill_network n' (fill_network n cfg) ≡ fill_network n cfg
unfolding fill_network is_empty
fill_network-fill_network [] n' cfg ne e = absurd (ne refl)
fill_network-fill_network (x ∷ n) n' cfg ne e = rw e refl

-- What a manager made with a configuration is: its prover is that of the filled configuration.
record IsMade (network : Network) (cfg : ProvableConfig) (pm : ProgramManager) : Type 0 where
  client : ProvableClient
  made : new_provable_client (fill_network network cfg) ≡ ok client
  is_client : pm.provable_client ≡ some client
  is_network : pm.network ≡ network
  same_network : pm.network_client.network ≡ network

assemble-IsMade :
    (host : Bytes) (network : Network) (account : Option Account) (cfg : ProvableConfig)
    (r : Result ProvableClient) {pm : ProgramManager}
    → new_provable_client (fill_network network cfg) ≡ r
    → assemble host network account (init_provable r) ≡ ok pm
    → IsMade network cfg pm
unfolding assemble init_provable new_network_client
assemble-IsMade host network account cfg (err e) h h' = absurd (cc h')
assemble-IsMade host network account cfg (ok c) {pm} h h' =
    subst (IsMade network cfg) (ok_inj h')
      (record { client = c; made = h; is_client = refl; is_network = refl; same_network = refl })

with_account-IsMade :
    (opts : ProgramManagerOptions) (host : Bytes) (network : Network)
    (x : Result (Option Account) × Memory) (cfg : ProvableConfig) {pm : ProgramManager}
    → opts.provable ≡ some cfg
    → (with_account opts host network x).result ≡ ok pm
    → IsMade network cfg pm
      × ((with_account opts host network x).config ≡ some (fill_network network cfg))
unfolding with_account fill_config provable_for
with_account-IsMade opts host network (err e, m) cfg h h' = absurd (cc h')
with_account-IsMade opts host network (ok account, m) cfg {pm} h h' =
    let filled : fill_config network opts.provable ≡ some (fill_network network cfg) =
      ap (fill_config network) h in
    (
      assemble-IsMade host network account cfg (new_provable_client (fill_network network cfg)) refl
          (ap (λ o. assemble host network account (provable_for o)) (sym filled) ∙ h'),
      filled,
    )

module _ (lib : Library) (json : Json) where
  new_program_manager-IsMade :
      (opts : ProgramManagerOptions) (m : Memory) (cfg : ProvableConfig) {pm : ProgramManager}
      → opts.provable ≡ some cfg
      → (new_program_manager lib json opts m).result ≡ ok pm
      → IsMade (default_network opts.network) cfg pm
        × ((new_program_manager lib json opts m).config
            ≡ some (fill_network (default_network opts.network) cfg))
  unfolding new_program_manager
  new_program_manager-IsMade opts m cfg h h' =
      with_account-IsMade opts (default_host opts.host) (default_network opts.network)
        (account_for lib json opts.private_key m) cfg h h'

  -- A manager made with a configuration that names neither a network nor a prover has its client of the
  -- node and its prover on the same network: that of the options, or testnet where they name none.
  pub new_program_manager_networks :
      (opts : ProgramManagerOptions) (m : Memory) (cfg : ProvableConfig) {pm : ProgramManager}
      → opts.provable ≡ some cfg
      → cfg.network ≡ []
      → cfg.prover_url ≡ []
      → (new_program_manager lib json opts m).result ≡ ok pm
      → (c : ProvableClient) × (pm.provable_client ≡ some c)
        × (c.prover_base ≡ public_prover (default_network opts.network))
        × (pm.network_client.network ≡ default_network opts.network)
  new_program_manager_networks opts m cfg h unnamed unset h' =
      let (made, filled) = new_program_manager-IsMade opts m cfg h h' in
      let (_, base) =
        filled-prover_base _ cfg (default_network-ne-nil opts.network) unnamed unset in
      (
        made.client,
        made.is_client,
        new_provable_client-prover_base _ made.made ∙ base,
        made.same_network,
      )

  -- When a configuration that names neither a network nor a prover is used for one manager and then, as
  -- NewProgramManager has left it, for a second, the prover of the second is on the network of the
  -- first, while its client of the node is on the network of its own options.
  pub new_program_manager_reused :
      (opts : ProgramManagerOptions) (m : Memory) (cfg : ProvableConfig) {pm : ProgramManager}
      (opts' : ProgramManagerOptions) (m' : Memory) {pm' : ProgramManager}
      → opts.provable ≡ some cfg
      → cfg.network ≡ []
      → cfg.prover_url ≡ []
      → (new_program_manager lib json opts m).result ≡ ok pm
      → opts'.provable ≡ (new_program_manager lib json opts m).config
      → (new_program_manager lib json opts' m').result ≡ ok pm'
      → (c : ProvableClient) × (pm'.provable_client ≡ some c)
        × (c.prover_base ≡ public_prover (default_network opts.network))
        × (pm'.network_client.network ≡ default_network opts'.network)
  new_program_manager_reused opts m cfg opts' m' h unnamed unset h' again h'' =
      let ne = default_network-ne-nil opts.network in
      let (made, filled) = new_program_manager-IsMade opts m cfg h h' in
      let (made', filled') = new_program_manager-IsMade opts' m' _ (again ∙ filled) h'' in
      let (_, base) = filled-prover_base _ cfg ne unnamed unset in
      (
        made'.client,
        made'.is_client,
        new_provable_client-prover_base _ made'.made
            ∙ ap prover_base
                (fill_network-fill_network _ (default_network opts'.network) cfg ne unnamed)
            ∙ base,
        made'.same_network,
      )
