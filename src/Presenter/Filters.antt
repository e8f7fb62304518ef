-- ===== src/Presenter/Filters.antt =====
-- presenter/http/middleware/filter.go: what a request asks for, read from its path and its query.
-- A text that is missing is empty; a number is read from the bytes of its text. The conversion of
-- a hexadecimal hash is go-ethereum's, a parameter.
pub mod Bounds
use tokenbridge_monitor.Base.{
  ℕ, ◌+◌, ◌-◌, ◌*◌, ◌^◌, ◌≤◌, String, Bool, true, false, ◌&&◌, Option, none, some, List, [], ◌∷◌,
  Bytes, ◌==◌, string_eq, leb, ltb, find_by, if◌then◌else◌,
}
use tokenbridge_monitor.Entity.{Hash}
use tokenbridge_monitor.Config.{BridgeConfig, ChainConfig}
use tokenbridge_monitor.Config.Init.{Config, get_chain_config}
use tokenbridge_monitor.Presenter.Search.{FilterContext}

pub record Request : Type 0 where
  pub bridge_id_param : String
  pub chain_id_param : String
  pub block_number_param : Bytes
  pub tx_hash_param : String
  pub chain_id_query : String
  pub block_number_query : Bytes
  pub from_block_query : Bytes
  pub to_block_query : Bytes
  pub tx_hash_query : String

-- The values of the request's context.
pub record RequestContext : Type 0 where
  pub chain_cfg : Option ChainConfig
  pub from_block_number : Option ℕ
  pub to_block_number : Option ℕ
  pub tx_hash : Option Hash

-- The next handler is called, or the request is answered at once.
pub data Outcome (A : Type 0) : Type 0 where
  next : A → Outcome A
  status_not_found : Outcome A
  invalid_number invalid_block_number : Outcome A

infixl 10 ◌>>=◌
abbrev pub ◌>>=◌ : {A B : Type 0} → Outcome A → (A → Outcome B) → Outcome B
next a >>= f = f a
status_not_found >>= f = status_not_found
invalid_number >>= f = invalid_number
invalid_block_number >>= f = invalid_block_number

-- `strconv.ParseUint(s, 10, 32)`: digits only, at least one, and a value below 2^32.
abbrev is_digit : ℕ → Bool
is_digit c = leb 48 c && leb c 57

abbrev pub parse_digits : ℕ → Bytes → Option ℕ
parse_digits n [] = some n
parse_digits n (c ∷ cs) =
    let rest = parse_digits (10 * n + (c - 48)) cs in if is_digit c then rest else none

abbrev pub below_2_32 : Option ℕ → Option ℕ
below_2_32 none = none
below_2_32 (some n) = if ltb n (2 ^ 32) then some n else none

abbrev pub parse_uint32 : Bytes → Option ℕ
parse_uint32 [] = none
parse_uint32 (c ∷ cs) = below_2_32 (parse_digits 0 (c ∷ cs))

-- `if s == "" { s = t }`
abbrev pub or_text : Bytes → Bytes → Bytes
or_text [] t = t
or_text (c ∷ cs) t = c ∷ cs

abbrev pub or_string : String → String → String
or_string s t = if s == "" then t else s

abbrev or_status_not_found : {A : Type 0} → Option A → Outcome A
or_status_not_found none = status_not_found
or_status_not_found (some a) = next a

unfoldable pub get_bridge_config_middleware : Config → Request → Outcome BridgeConfig
get_bridge_config_middleware cfg r =
    or_status_not_found (find_by (λ b. b.id == r.bridge_id_param) cfg.bridges)

unfoldable pub get_chain_config_middleware :
    Config → Request → RequestContext → Outcome RequestContext
get_chain_config_middleware cfg r ctx =
    let chain_id = or_string r.chain_id_param r.chain_id_query in
    if chain_id == ""
    then next ctx
    else (or_status_not_found (get_chain_config cfg chain_id) >>= λ chain.
        next (record ctx { chain_cfg = some chain }))

abbrev pub check_range : ℕ → ℕ → RequestContext → Outcome RequestContext
check_range from_block to_block ctx =
    if ltb to_block from_block
    then invalid_block_number
    else (if ltb 10000 (to_block - from_block)
        then invalid_block_number
        else next
            (record ctx { from_block_number = some from_block; to_block_number = some to_block }))

abbrev pub numbers_in_range : Option ℕ → Option ℕ → RequestContext → Outcome RequestContext
numbers_in_range none to_block ctx = invalid_number
numbers_in_range (some from_block) none ctx = invalid_number
numbers_in_range (some from_block) (some to_block) ctx = check_range from_block to_block ctx

-- Without both bounds there is no range.
abbrev pub block_range : Bytes → Bytes → RequestContext → Outcome RequestContext
block_range [] to_str ctx = next ctx
block_range (c ∷ cs) [] ctx = next ctx
block_range (c ∷ cs) (d ∷ ds) ctx =
    numbers_in_range (parse_uint32 (c ∷ cs)) (parse_uint32 (d ∷ ds)) ctx

abbrev pub one_block_or_range : Bytes → Request → RequestContext → Outcome RequestContext
one_block_or_range [] r ctx = block_range r.from_block_query r.to_block_query ctx
one_block_or_range (c ∷ cs) r ctx = block_range (c ∷ cs) (c ∷ cs) ctx

unfoldable pub get_block_number_middleware : Request → RequestContext → Outcome RequestContext
get_block_number_middleware r ctx =
    one_block_or_range (or_text r.block_number_param r.block_number_query) r ctx

module _ (hex_to_hash : String → Hash) where
  unfoldable pub get_tx_hash_middleware : Request → RequestContext → Outcome RequestContext
  get_tx_hash_middleware r ctx =
      let tx_hash = or_string r.tx_hash_param r.tx_hash_query in
      if tx_hash == "" then next ctx else next (record ctx { tx_hash = some (hex_to_hash tx_hash) })

abbrev chain_id_of : Option ChainConfig → Option String
chain_id_of none = none
chain_id_of (some chain) = some chain.chain_id

unfoldable pub get_filter_middleware : RequestContext → FilterContext
get_filter_middleware ctx = record {
  chain_id = chain_id_of ctx.chain_cfg;
  from_block = ctx.from_block_number;
  to_block = ctx.to_block_number;
  tx_hash = ctx.tx_hash;
}

abbrev pub no_context : RequestContext
no_context = record {
  chain_cfg = none;
  from_block_number = none;
  to_block_number = none;
  tx_hash = none;
}

-- The middlewares of the routes /logs and /messages, in the order of presenter.Serve.
module _ (cfg : Config) (hex_to_hash : String → Hash) where
  unfoldable pub filter_of_request : Request → Outcome FilterContext
  unfolding get_chain_config_middleware get_block_number_middleware get_tx_hash_middleware
      get_filter_middleware
  filter_of_request r = do
    with_chain ← get_chain_config_middleware cfg r no_context
    with_blocks ← get_block_number_middleware r with_chain
    with_hash ← get_tx_hash_middleware hex_to_hash r with_blocks
    next (get_filter_middleware with_hash)
