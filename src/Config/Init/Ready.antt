-- ===== src/Config/Init/Ready.antt =====
-- What a configuration that ReadConfig accepts is sure to satisfy.
use tokenbridge_monitor.Base.{
  ℕ, ◌≤◌, ◌<◌, ◌≡◌, refl, sym, subst, ◌⊎◌, inl, inr, String, Option, some, List, [], ◌∷◌, map, All,
  length, arith, nat_eq,
}
use tokenbridge_monitor.Config.Types.{
  ChainConfig, TokenConfig, BridgeSideConfig, BridgeAlertConfig, BridgeMode, BridgeConfig,
  arbitrary_message, erc_to_native, other,
}
use tokenbridge_monitor.Config.Init.{
  Init, ready, refused, Config, ◌>>=◌, chain_named, init_token, init_side, at_least, alert_or_empty,
  init_alert, no_tokens, some_tokens, checked_mode, init_bridge, init_bridges, init_config,
}

abbrev pub HasToken : BridgeSideConfig → Type 0
HasToken side = 0 < length side.erc_to_native_tokens

-- An alert looks at no block before the bridge starts.
abbrev pub AlertInRange : BridgeConfig → Option BridgeAlertConfig → Type 0
AlertInRange b alert =
    (a : BridgeAlertConfig) × (alert ≡ some a)
    × (b.home.start_block ≤ a.home_start_block)
    × (b.foreign.start_block ≤ a.foreign_start_block)

pub record IsReady (b : BridgeConfig) : Type 0 where
  pub home_range : 0 < b.home.max_block_range_size
  pub foreign_range : 0 < b.foreign.max_block_range_size
  pub home_tokens : b.home.erc_to_native_tokens ≡ []
  pub mode :
      ((b.bridge_mode ≡ erc_to_native) × HasToken b.foreign)
      ⊎ ((b.bridge_mode ≡ arbitrary_message) × (b.foreign.erc_to_native_tokens ≡ []))
  pub token_ends : All (λ t. 0 < t.end_block) b.foreign.erc_to_native_tokens
  pub alerts_in_range : All (λ a. AlertInRange b a.1) b.alerts

bind-ready :
    {A B : Type 0} (m : Init A) (f : A → Init B) {b : B}
    → (m >>= f) ≡ ready b
    → (a : A) × (m ≡ ready a) × (f a ≡ ready b)
bind-ready (ready a) f h = (a, refl, h)
bind-ready (refused e) f h = absurd (cc h)

tokens-end :
    (start : ℕ) (ts : List TokenConfig) → All (λ t. 0 < t.end_block) (map (init_token start) ts)
tokens-end start [] = tt
tokens-end start (t ∷ ts) = (ground arith, tokens-end start ts)

-- What init leaves of one side.
pub record SideReady (side : BridgeSideConfig) : Type 0 where
  pub range : 0 < side.max_block_range_size
  pub ends : All (λ t. 0 < t.end_block) side.erc_to_native_tokens

ready-injective : {A : Type 0} {a b : A} → ready a ≡ ready b → a ≡ b
ready-injective h = cc h

init_side-SideReady :
    (chains : List (String × ChainConfig)) (cfg cfg' : BridgeSideConfig)
    → init_side chains cfg ≡ ready cfg'
    → SideReady cfg'
unfolding init_side
init_side-SideReady chains cfg cfg' h =
    let (chain, e, w) = bind-ready (chain_named chains cfg.chain_name) _ h in
    subst SideReady (ready-injective w)
      (record { range = ground arith; ends = tokens-end cfg.start_block cfg.erc_to_native_tokens })

no_tokens-ready :
    (side : BridgeSideConfig) → no_tokens side ≡ ready tt → side.erc_to_native_tokens ≡ []
no_tokens-ready side h = go side.erc_to_native_tokens refl h
  where
    go :
        (ts : List TokenConfig)
        → side.erc_to_native_tokens ≡ ts
        → no_tokens side ≡ ready tt
        → side.erc_to_native_tokens ≡ []
    go [] e h = e
    go (t ∷ ts) e h = absurd (cc (rw e at h))

some_tokens-ready : (side : BridgeSideConfig) → some_tokens side ≡ ready tt → HasToken side
some_tokens-ready side h = go side.erc_to_native_tokens refl h
  where
    go :
        (ts : List TokenConfig)
        → side.erc_to_native_tokens ≡ ts
        → some_tokens side ≡ ready tt
        → HasToken side
    go [] e h = absurd (cc (rw e at h))
    go (t ∷ ts) e h = rw e (omega arith)

abbrev ModeReady : BridgeMode → BridgeSideConfig → Type 0
ModeReady mode foreign =
    ((mode ≡ erc_to_native) × HasToken foreign)
    ⊎ ((mode ≡ arbitrary_message) × (foreign.erc_to_native_tokens ≡ []))

amb-ModeReady :
    (foreign : BridgeSideConfig) (mode' : BridgeMode)
    → (no_tokens foreign >>= λ _. ready arbitrary_message) ≡ ready mode'
    → ModeReady mode' foreign
amb-ModeReady foreign mode' h =
    let (u, e, w) = bind-ready (no_tokens foreign) _ h in
    inr (sym (ready-injective w), no_tokens-ready foreign e)

checked_mode-ModeReady :
    (mode : BridgeMode) (foreign : BridgeSideConfig) (mode' : BridgeMode)
    → checked_mode mode foreign ≡ ready mode'
    → ModeReady mode' foreign
checked_mode-ModeReady arbitrary_message foreign mode' h = amb-ModeReady foreign mode' h
checked_mode-ModeReady (other name) foreign mode' h = amb-ModeReady foreign mode' h
checked_mode-ModeReady erc_to_native foreign mode' h =
    let (u, e, w) = bind-ready (some_tokens foreign) _ h in
    inl (sym (ready-injective w), some_tokens-ready foreign e)

at_least-le : (block start : ℕ) → start ≤ at_least block start
at_least-le block start = ground arith

alerts-AlertInRange :
    (b : BridgeConfig) (alerts : List (String × Option BridgeAlertConfig))
    → All
        (λ (a : String × Option BridgeAlertConfig). AlertInRange b a.1)
        (map (λ a. (a.0, some (init_alert b.home b.foreign (alert_or_empty a.1)))) alerts)
alerts-AlertInRange b [] = tt
alerts-AlertInRange b ((name, a) ∷ alerts) = (
  (
    init_alert b.home b.foreign (alert_or_empty a),
    refl,
    at_least-le (alert_or_empty a).home_start_block b.home.start_block,
    at_least-le (alert_or_empty a).foreign_start_block b.foreign.start_block,
  ),
  alerts-AlertInRange b alerts,
)

init_bridge-IsReady :
    (chains : List (String × ChainConfig)) (cfg cfg' : BridgeConfig)
    → init_bridge chains cfg ≡ ready cfg'
    → IsReady cfg'
unfolding init_bridge
init_bridge-IsReady chains cfg cfg' h0 =
    let (home, eh, h1) = bind-ready (init_side chains cfg.home) _ h0 in
    let (foreign, ef, h2) = bind-ready (init_side chains cfg.foreign) _ h1 in
    let (u, en, h3) = bind-ready (no_tokens home) _ h2 in
    let (mode, em, h4) = bind-ready (checked_mode cfg.bridge_mode foreign) _ h3 in
    let home_ready = init_side-SideReady chains cfg.home home eh in
    let foreign_ready = init_side-SideReady chains cfg.foreign foreign ef in
    subst IsReady (ready-injective h4) (record {
      home_range = home_ready.range;
      foreign_range = foreign_ready.range;
      home_tokens = no_tokens-ready home en;
      mode = checked_mode-ModeReady cfg.bridge_mode foreign mode em;
      token_ends = foreign_ready.ends;
      alerts_in_range =
          alerts-AlertInRange (record cfg { home = home; foreign = foreign }) cfg.alerts;
    })

init_bridges-IsReady :
    (chains : List (String × ChainConfig)) (bs bs' : List BridgeConfig)
    → init_bridges chains bs ≡ ready bs'
    → All IsReady bs'
unfolding init_bridges
init_bridges-IsReady chains [] bs' h = subst (All IsReady) (ready-injective h) tt
init_bridges-IsReady chains (b ∷ bs) bs' h0 =
    let (first, eb, h1) = bind-ready (init_bridge chains b) _ h0 in
    let (others, eo, h2) = bind-ready (init_bridges chains bs) _ h1 in
    subst (All IsReady) (ready-injective h2)
      (init_bridge-IsReady chains b first eb, init_bridges-IsReady chains bs others eo)

-- In a configuration that init accepts, every bridge has block ranges that are not empty on both
-- sides and no tokens on its home side; it is an ERC-TO-NATIVE bridge with at least one token or an
-- AMB bridge with none, each token with an end block that is not 0; and each of its alerts starts no
-- earlier than the bridge on either side.
pub init_config-IsReady :
    (cfg cfg' : Config) → init_config cfg ≡ ready cfg' → All IsReady cfg'.bridges
unfolding init_config
init_config-IsReady cfg cfg' h =
    let (bridges, e, w) = bind-ready (init_bridges cfg.chains cfg.bridges) _ h in
    subst (λ (c : Config). All IsReady c.bridges) (ready-injective w)
      (init_bridges-IsReady cfg.chains cfg.bridges bridges e)
