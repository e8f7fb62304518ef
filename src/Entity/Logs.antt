-- ===== src/Entity/Logs.antt =====
-- entity/log.go: a log as the node sends it and as a row, and the filter of a search.
use tokenbridge_monitor.Base.{
  ℕ, String, Option, none, some, List, [], ◌∷◌, Bytes, ◌≡◌, refl, take, arith,
}

-- What the code reads of go-ethereum's `types.Log`.
pub record EthLog : Type 0 where
  pub address : Bytes
  pub eth_topics : List Bytes
  pub payload : Bytes
  pub block_number : ℕ
  pub index : ℕ
  pub tx_hash : Bytes

pub record Log : Type 0 where
  pub id : ℕ
  pub chain_id : String
  pub address : Bytes
  pub topic0 : Option Bytes
  pub topic1 : Option Bytes
  pub topic2 : Option Bytes
  pub topic3 : Option Bytes
  pub payload : Bytes
  pub block_number : ℕ
  pub log_index : ℕ
  pub transaction_hash : Bytes

-- An empty list or `none` sets no condition.
pub record LogsFilter : Type 0 where
  pub chain_id : Option String
  pub addresses : List Bytes
  pub from_block : Option ℕ
  pub to_block : Option ℕ
  pub tx_hash : Option Bytes
  pub topic0 : List Bytes
  pub topic1 : List Bytes
  pub topic2 : List Bytes
  pub topic3 : List Bytes
  pub data_length : Option ℕ

abbrev fill_topics : List Bytes → Log → Log
fill_topics [] res = res
fill_topics (t0 ∷ []) res = record res { topic0 = some t0 }
fill_topics (t0 ∷ t1 ∷ []) res = record res { topic0 = some t0; topic1 = some t1 }
fill_topics (t0 ∷ t1 ∷ t2 ∷ []) res = record res {
  topic0 = some t0;
  topic1 = some t1;
  topic2 = some t2;
}
fill_topics (t0 ∷ t1 ∷ t2 ∷ t3 ∷ _) res = record res {
  topic0 = some t0;
  topic1 = some t1;
  topic2 = some t2;
  topic3 = some t3;
}

unfoldable pub new_log : String → EthLog → Log
new_log chain_id log = fill_topics log.eth_topics (record {
  id = 0;
  chain_id = chain_id;
  address = log.address;
  topic0 = none;
  topic1 = none;
  topic2 = none;
  topic3 = none;
  payload = log.payload;
  block_number = log.block_number;
  log_index = log.index;
  transaction_hash = log.tx_hash;
})

-- A topic counts only if all before it are there.
abbrev prepend : Option Bytes → List Bytes → List Bytes
prepend none rest = []
prepend (some t) rest = t ∷ rest

unfoldable pub topics : Log → List Bytes
topics l = prepend l.topic0 (prepend l.topic1 (prepend l.topic2 (prepend l.topic3 [])))

take_four_cases :
    (ts : List Bytes) (res : Log)
    → res.topic0 ≡ none
    → res.topic1 ≡ none
    → res.topic2 ≡ none
    → res.topic3 ≡ none
    → topics (fill_topics ts res) ≡ take 4 ts
unfolding topics
take_four_cases [] res h0 h1 h2 h3 = ground arith
take_four_cases (t0 ∷ []) res h0 h1 h2 h3 = ground arith
take_four_cases (t0 ∷ t1 ∷ []) res h0 h1 h2 h3 = ground arith
take_four_cases (t0 ∷ t1 ∷ t2 ∷ []) res h0 h1 h2 h3 = ground arith
take_four_cases (t0 ∷ t1 ∷ t2 ∷ t3 ∷ rest) res h0 h1 h2 h3 = ground arith

-- The topics read back from the row of a log are its first four topics, in order.
pub topics-new_log :
    (chain_id : String) (log : EthLog) → topics (new_log chain_id log) ≡ take 4 log.eth_topics
unfolding new_log
topics-new_log chain_id log = take_four_cases log.eth_topics _ refl refl refl refl
