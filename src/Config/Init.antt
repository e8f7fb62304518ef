-- ===== src/Config/Init.antt =====
-- The init functions of config/config.go, which ReadConfig calls on what it has read: defaults are
-- filled in, names of chains resolved, and the lists of tokens checked. A map is a list of its
-- entries; a bridge that is refused refuses the configuration.
pub mod Ready
use tokenbridge_monitor.Base.{
  ℕ, ◌-◌, ◌^◌, String, Bool, Option, none, some, List, [], ◌∷◌, map, ltb, ◌==◌, nat_eq, string_eq,
  if◌then◌else◌,
}
use tokenbridge_monitor.Config.Types.{
  ChainConfig, TokenConfig, BridgeSideConfig, BridgeAlertConfig, BridgeMode, BridgeConfig,
  arbitrary_message, erc_to_native, other,
}

pub data ConfigError : Type 0 where
  invalid_config empty_token_list non_empty_token_list : ConfigError

pub data Init (A : Type 0) : Type 0 where
  ready : A → Init A
  refused : ConfigError → Init A

infixl 10 ◌>>=◌ ◌>>◌
abbrev pub ◌>>=◌ : {A B : Type 0} → Init A → (A → Init B) → Init B
ready a >>= f = f a
refused e >>= f = refused e

abbrev ◌>>◌ : {A B : Type 0} → Init A → Init B → Init B
m >> n = m >>= λ _. n

-- The maps of the YAML file: chains by name, bridges by id.
pub record Config : Type 0 where
  pub chains : List (String × ChainConfig)
  pub bridges : List BridgeConfig

abbrev chain_named : List (String × ChainConfig) → String → Init ChainConfig
chain_named [] name = refused invalid_config
chain_named ((n, chain) ∷ chains) name = if n == name then ready chain else chain_named chains name

abbrev init_token : ℕ → TokenConfig → TokenConfig
init_token start_block t = record t {
  start_block = if t.start_block == 0 then start_block else t.start_block;
  end_block = if t.end_block == 0 then 2 ^ 32 - 1 else t.end_block;
}

unfoldable pub init_side : List (String × ChainConfig) → BridgeSideConfig → Init BridgeSideConfig
init_side chains cfg = do
  chain ← chain_named chains cfg.chain_name
  ready (record cfg {
    max_block_range_size = if cfg.max_block_range_size == 0 then 1000 else cfg.max_block_range_size;
    chain = chain;
    erc_to_native_tokens = map (init_token cfg.start_block) cfg.erc_to_native_tokens;
  })

abbrev at_least : ℕ → ℕ → ℕ
at_least block start = if ltb block start then start else block

abbrev alert_or_empty : Option BridgeAlertConfig → BridgeAlertConfig
alert_or_empty none = record { home_start_block = 0; foreign_start_block = 0 }
alert_or_empty (some a) = a

abbrev init_alert : BridgeSideConfig → BridgeSideConfig → BridgeAlertConfig → BridgeAlertConfig
init_alert home foreign a = record {
  home_start_block = at_least a.home_start_block home.start_block;
  foreign_start_block = at_least a.foreign_start_block foreign.start_block;
}

abbrev no_tokens : BridgeSideConfig → Init Unit
no_tokens side = elim side.erc_to_native_tokens [
  | [] ↦ ready tt
  | t ∷ ts ↦ refused non_empty_token_list
]

abbrev some_tokens : BridgeSideConfig → Init Unit
some_tokens side = elim side.erc_to_native_tokens [
  | [] ↦ refused empty_token_list
  | t ∷ ts ↦ ready tt
]

-- Any mode but ERC-TO-NATIVE becomes AMB.
abbrev checked_mode : BridgeMode → BridgeSideConfig → Init BridgeMode
checked_mode erc_to_native foreign = do some_tokens foreign; ready erc_to_native
checked_mode arbitrary_message foreign = do no_tokens foreign; ready arbitrary_message
checked_mode (other _) foreign = do no_tokens foreign; ready arbitrary_message

unfoldable pub init_bridge : List (String × ChainConfig) → BridgeConfig → Init BridgeConfig
unfolding init_side
init_bridge chains cfg = do
  home ← init_side chains cfg.home
  foreign ← init_side chains cfg.foreign
  no_tokens home
  mode ← checked_mode cfg.bridge_mode foreign
  ready (record cfg {
    bridge_mode = mode;
    home = home;
    foreign = foreign;
    alerts = map (λ a. (a.0, some (init_alert home foreign (alert_or_empty a.1)))) cfg.alerts;
  })

unfoldable pub init_bridges :
    List (String × ChainConfig) → List BridgeConfig → Init (List BridgeConfig)
unfolding init_bridge
init_bridges chains [] = ready []
init_bridges chains (b ∷ bs) = do
  bridge ← init_bridge chains b
  bridges ← init_bridges chains bs
  ready (bridge ∷ bridges)

unfoldable pub init_config : Config → Init Config
unfolding init_bridges
init_config cfg = do
  bridges ← init_bridges cfg.chains cfg.bridges
  ready (record cfg { bridges = bridges })

-- GetChainConfig: by name first, then by id.
abbrev with_id : List (String × ChainConfig) → String → Option ChainConfig
with_id [] id = none
with_id ((_, chain) ∷ chains) id = if chain.chain_id == id then some chain else with_id chains id

abbrev named_or : Init ChainConfig → Option ChainConfig → Option ChainConfig
named_or (ready chain) other_chain = some chain
named_or (refused e) other_chain = other_chain

unfoldable pub get_chain_config : Config → String → Option ChainConfig
get_chain_config cfg chain_id =
    named_or (chain_named cfg.chains chain_id) (with_id cfg.chains chain_id)
