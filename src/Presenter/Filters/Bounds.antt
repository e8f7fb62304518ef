-- ===== src/Presenter/Filters/Bounds.antt =====
-- The block range that a request may ask for.
use tokenbridge_monitor.Base.{
  ℕ, ◌-◌, ◌^◌, ◌≤◌, ◌<◌, ◌≡◌, refl, subst, String, Option, none, some, [], ◌∷◌, Bytes, ltb,
  Bool-cases, Option-cases, inl, inr, arith, ◌==◌, string_eq,
}
use tokenbridge_monitor.Entity.{Hash}
use tokenbridge_monitor.Config.Init.{Config, get_chain_config}
use tokenbridge_monitor.Presenter.Search.{FilterContext}
use tokenbridge_monitor.Presenter.Filters.{
  Request, RequestContext, Outcome, next, status_not_found, invalid_number, invalid_block_number,
  parse_uint32, block_range, numbers_in_range, check_range, one_block_or_range, or_text,
  get_block_number_middleware, get_chain_config_middleware, get_tx_hash_middleware,
  get_filter_middleware, filter_of_request, no_context, below_2_32, parse_digits, or_string, ◌>>=◌,
}

-- No range, or one of at most 10001 blocks with numbers of 32 bits.
abbrev pub InBounds : Option ℕ → Option ℕ → Type 0
InBounds none none = Unit
InBounds (some from_block) none = ⊥
InBounds none (some to_block) = ⊥
InBounds (some from_block) (some to_block) =
    (from_block ≤ to_block) × (to_block < 2 ^ 32) × (to_block - from_block ≤ 10000)

abbrev BoundedContext : RequestContext → Type 0
BoundedContext ctx = InBounds ctx.from_block_number ctx.to_block_number

abbrev BoundedFilter : FilterContext → Type 0
BoundedFilter filter = InBounds filter.from_block filter.to_block

-- What holds of the context that is passed on, if one is.
abbrev Passes : {A : Type 0} → (A → Type 0) → Outcome A → Type 0
Passes P (next a) = P a
Passes P status_not_found = Unit
Passes P invalid_number = Unit
Passes P invalid_block_number = Unit

below_2_32-bound : (o : Option ℕ) (n : ℕ) → below_2_32 o ≡ some n → n < 2 ^ 32
below_2_32-bound none n h = absurd (cc h)
below_2_32-bound (some m) n h = ground arith

parse_uint32-bound : (s : Bytes) (n : ℕ) → parse_uint32 s ≡ some n → n < 2 ^ 32
parse_uint32-bound [] n h = absurd (cc h)
parse_uint32-bound (c ∷ cs) n h = below_2_32-bound (parse_digits 0 (c ∷ cs)) n h

check_range-Passes :
    (from_block to_block : ℕ) (ctx : RequestContext)
    → to_block < 2 ^ 32
    → Passes BoundedContext (check_range from_block to_block ctx)
check_range-Passes from_block to_block ctx l = elim (Bool-cases (ltb to_block from_block)) [
  | inl crossed ↦ rw crossed tt
  | inr in_order ↦ elim (Bool-cases (ltb 10000 (to_block - from_block))) [
    | inl wide ↦ rw (in_order, wide) tt
    | inr narrow ↦ rw (in_order, narrow) (ground arith, l, ground arith)
  ]
]

numbers_in_range-Passes :
    (o o' : Option ℕ) (ctx : RequestContext)
    → ((n : ℕ) → o' ≡ some n → n < 2 ^ 32)
    → Passes BoundedContext (numbers_in_range o o' ctx)
numbers_in_range-Passes none o' ctx small = tt
numbers_in_range-Passes (some n) none ctx small = tt
numbers_in_range-Passes (some n) (some n') ctx small = check_range-Passes n n' ctx (small n' refl)

block_range-Passes :
    (from_str to_str : Bytes) (ctx : RequestContext)
    → BoundedContext ctx
    → Passes BoundedContext (block_range from_str to_str ctx)
block_range-Passes [] to_str ctx b = b
block_range-Passes (c ∷ cs) [] ctx b = b
block_range-Passes (c ∷ cs) (d ∷ ds) ctx b =
    numbers_in_range-Passes (parse_uint32 (c ∷ cs)) (parse_uint32 (d ∷ ds)) ctx
      (parse_uint32-bound (d ∷ ds))

one_block_or_range-Passes :
    (s : Bytes) (r : Request) (ctx : RequestContext)
    → BoundedContext ctx
    → Passes BoundedContext (one_block_or_range s r ctx)
one_block_or_range-Passes [] r ctx b = block_range-Passes r.from_block_query r.to_block_query ctx b
one_block_or_range-Passes (c ∷ cs) r ctx b = block_range-Passes (c ∷ cs) (c ∷ cs) ctx b

block_number-Passes :
    (r : Request) (ctx : RequestContext)
    → BoundedContext ctx
    → Passes BoundedContext (get_block_number_middleware r ctx)
unfolding get_block_number_middleware
block_number-Passes r ctx b =
    one_block_or_range-Passes (or_text r.block_number_param r.block_number_query) r ctx b

module _ {A B : Type 0} (P : A → Type 0) (Q : B → Type 0) (f : A → Outcome B) where
  Passes-bind : (m : Outcome A) → Passes P m → ((a : A) → P a → Passes Q (f a)) → Passes Q (m >>= f)
  Passes-bind (next a) p q = q a p
  Passes-bind status_not_found p q = tt
  Passes-bind invalid_number p q = tt
  Passes-bind invalid_block_number p q = tt

Passes-next : {A : Type 0} (P : A → Type 0) (m : Outcome A) (a : A) → Passes P m → m ≡ next a → P a
Passes-next P m a p h = subst (Passes P) h p

chain_config-Passes :
    (cfg : Config) (r : Request) (ctx : RequestContext)
    → BoundedContext ctx
    → Passes BoundedContext (get_chain_config_middleware cfg r ctx)
unfolding get_chain_config_middleware
chain_config-Passes cfg r ctx b =
    elim (Bool-cases (or_string r.chain_id_param r.chain_id_query == "")) [
      | inl empty ↦ rw empty b
      | inr full ↦
          rw full
            (elim (Option-cases
              (get_chain_config cfg (or_string r.chain_id_param r.chain_id_query))) [
                | inl unknown ↦ rw unknown tt
                | inr (chain, known) ↦ rw known b
              ])
    ]

tx_hash-Passes :
    (hex_to_hash : String → Hash) (r : Request) (ctx : RequestContext)
    → BoundedContext ctx
    → Passes BoundedContext (get_tx_hash_middleware hex_to_hash r ctx)
unfolding get_tx_hash_middleware
tx_hash-Passes hex_to_hash r ctx b =
    elim (Bool-cases (or_string r.tx_hash_param r.tx_hash_query == "")) [
      | inl empty ↦ rw empty b
      | inr full ↦ rw full b
    ]

-- A request for logs or messages that gets past the middlewares has no block bounds at all, or it
-- has both: the first at most the second, the second below 2^32, and at most 10000 between them.
pub filter_of_request-InBounds :
    (cfg : Config) (hex_to_hash : String → Hash) (r : Request) (filter : FilterContext)
    → filter_of_request cfg hex_to_hash r ≡ next filter
    → InBounds filter.from_block filter.to_block
unfolding filter_of_request get_filter_middleware
filter_of_request-InBounds cfg hex_to_hash r filter h =
    Passes-next BoundedFilter _ filter
      (Passes-bind BoundedContext BoundedFilter _ _ (chain_config-Passes cfg r no_context tt)
        λ ctx b.
          Passes-bind BoundedContext BoundedFilter _ _ (block_number-Passes r ctx b) λ ctx' b'.
            Passes-bind BoundedContext BoundedFilter _ _ (tx_hash-Passes hex_to_hash r ctx' b')
              λ ctx'' b''. b'')
      h
