-- ===== src/Monitor/ContractMonitor/Fetcher/Coverage.antt =====
-- The blocks that StartBlockFetcher schedules, and what it does where the chain is shorter than the
-- confirmations asked for.
use mathlib.Core.List.{append_assoc, append-nil, map-append}
use tokenbridge_monitor.Base.{
  ℕ, ◌+◌, ◌-◌, ◌≤◌, ◌<◌, ◌≡◌, refl, sym, ap, ◌∙◌, inl, inr, true, false, Option, none, some, List,
  [], ◌∷◌, ◌++◌, map, arith, All, ltb, leb, uint_mod, add_uint, ◌^◌, lt→ltb, leb→le, Bool-cases,
  le→ltb_false,
}
use tokenbridge_monitor.Monitor.Types.{BlocksRange, split_block_range}
use tokenbridge_monitor.Monitor.Types.SplitRange.{hits, hits-split_block_range}
use tokenbridge_monitor.Monitor.ContractMonitor.{
  Contract, State, record_head_block_number, record_is_synced,
}
use tokenbridge_monitor.Monitor.ContractMonitor.Fetcher.{safe_head, fetch_round, fetch_rounds}

-- The chain is at least as long as the confirmations, so that the head does not wrap, and no block of
-- a range has a number past the end of the integers.
abbrev pub InBounds : Contract → Option ℕ → Type 0
InBounds c none = Unit
InBounds c (some answer) =
    (c.cfg.block_confirmations ≤ answer) × (answer + c.cfg.max_block_range_size < uint_mod)

-- Each block from `start` to the head of the answer is in one of the ranges at least.
abbrev pub Reaches : Contract → ℕ → List BlocksRange → Option ℕ → Type 0
Reaches c start rs none = Unit
Reaches c start rs (some answer) =
    (b : ℕ) → start ≤ b → b ≤ answer - c.cfg.block_confirmations → 0 < hits b rs

hits-append : (b : ℕ) (xs ys : List BlocksRange) → hits b (xs ++ ys) ≡ hits b xs + hits b ys
hits-append b [] ys = omega arith
hits-append b (x ∷ xs) ys = omega (arith, hits-append b xs ys)

record_head_chan :
    (n : ℕ) (st : State) → (record_head_block_number n st).blocks_range_chan ≡ st.blocks_range_chan
record_head_chan n st = elim (Bool-cases (ltb n st.head_block)) [
  | inl low ↦ unfold record_head_block_number in rw low refl
  | inr high ↦ unfold record_head_block_number record_is_synced in rw high refl
]

safe_head-lem :
    (c : Contract) (a : ℕ) → InBounds c (some a) → safe_head c a ≡ a - c.cfg.block_confirmations
safe_head-lem c a h = omega arith

-- What was scheduled from `start` on reaches what the answers ask for.
pub record Scheduled (c : Contract) (answers : List (Option ℕ)) (start : ℕ) (st : State)
    : Type 0 where
  pub next : ℕ
  pub after : State
  pub ranges : List BlocksRange
  pub runs : fetch_rounds c answers start st ≡ some (next, after)
  pub sent : after.blocks_range_chan ≡ st.blocks_range_chan ++ map (λ r. some r) ranges
  pub reaches : All (Reaches c start ranges) answers

fetch_round-none :
    (c : Contract) (start : ℕ) (st : State) → fetch_round c none start st ≡ some (start, st)
unfolding fetch_round
fetch_round-none c start st = refl

fetch_round-some :
    (c : Contract) (a start : ℕ) (st : State) (rs : List BlocksRange)
    → InBounds c (some a)
    → 0 < c.cfg.max_block_range_size
    → split_block_range start (a - c.cfg.block_confirmations) c.cfg.max_block_range_size ≡ some rs
    → fetch_round c (some a) start st
      ≡ some (
        a - c.cfg.block_confirmations + 1,
        record (record_head_block_number (a - c.cfg.block_confirmations) st) {
          blocks_range_chan = st.blocks_range_chan ++ map (λ r. some r) rs;
        },
      )
unfolding fetch_round
fetch_round-some c a start st rs h p e =
    let head = a - c.cfg.block_confirmations in
    let next : add_uint head 1 ≡ head + 1 = omega arith in
    rw (safe_head-lem c a h, e, next, record_head_chan head st) refl

Reaches-widen :
    (c : Contract) (head start : ℕ) (rs more : List BlocksRange) (answers : List (Option ℕ))
    → ((b : ℕ) → start ≤ b → b ≤ head → 0 < hits b rs)
    → All (Reaches c (head + 1) more) answers
    → All (Reaches c start (rs ++ more)) answers
Reaches-widen c head start rs more [] f h = tt
Reaches-widen c head start rs more (none ∷ answers) f h =
    (tt, Reaches-widen c head start rs more answers f h.1)
Reaches-widen c head start rs more (some a ∷ answers) f h = (
  λ b l u. elim (Bool-cases (leb b head)) [
    | inl here ↦ omega (arith, hits-append b rs more, f b l (leb→le b head here))
    | inr later ↦ omega (arith, hits-append b rs more, h.0 b (ground arith) u)
  ],
  Reaches-widen c head start rs more answers f h.1,
)

-- Where the size of a range is not 0, and each head that the node answers is at least the
-- confirmations and away from 2^64, StartBlockFetcher ends each round, and what it sends on the
-- channel is a list of ranges that holds each block from the start block to any head answered, less
-- the confirmations. Among the answers may be errors, and heads that have fallen back.
pub fetch_rounds-Scheduled :
    (c : Contract) (answers : List (Option ℕ)) (start : ℕ) (st : State)
    → 0 < c.cfg.max_block_range_size
    → All (InBounds c) answers
    → Scheduled c answers start st
unfolding fetch_rounds
fetch_rounds-Scheduled c [] start st p h = record {
  next = start;
  after = st;
  ranges = [];
  runs = refl;
  sent = sym (append-nil _);
  reaches = tt;
}
fetch_rounds-Scheduled c (none ∷ answers) start st p h =
    let rest = fetch_rounds-Scheduled c answers start st p h.1 in
    record {
      next = rest.next;
      after = rest.after;
      ranges = rest.ranges;
      runs = rw (fetch_round-none c start st) rest.runs;
      sent = rest.sent;
      reaches = (tt, rest.reaches);
    }
fetch_rounds-Scheduled c (some a ∷ answers) start st p h =
    let head = a - c.cfg.block_confirmations in
    let (rs, e, count) =
      hits-split_block_range start head c.cfg.max_block_range_size p (omega (arith, h.0)) in
    let now = record (record_head_block_number head st) {
      blocks_range_chan = st.blocks_range_chan ++ map (λ r. some r) rs;
    } in
    let rest = fetch_rounds-Scheduled c answers (head + 1) now p h.1 in
    let here : (b : ℕ) → start ≤ b → b ≤ head → 0 < hits b rs = λ b l u. ground (arith, count b) in
    record {
      next = rest.next;
      after = rest.after;
      ranges = rs ++ rest.ranges;
      runs = rw (fetch_round-some c a start st rs h.0 p e) rest.runs;
      sent =
          rest.sent
          ∙ (append_assoc st.blocks_range_chan (map (λ r. some r) rs)
                (map (λ r. some r) rest.ranges)
              ∙ ap (◌++◌ st.blocks_range_chan) (sym (map-append (λ r. some r) rs rest.ranges)));
      reaches = (
        λ b l u. omega (arith, hits-append b rs rest.ranges, here b l u),
        Reaches-widen c head start rs rest.ranges answers here rest.reaches,
      );
    }

-- Where the first answer is below the confirmations, its head wraps past every later head: a later
-- head, if below 2^63, changes nothing, and the contract is not synced; provided that the
-- confirmations, the head known before and the last processed block are below 2^63.
pub short_chain_lem :
    (c : Contract) (answer later : ℕ) (st : State)
    → answer < c.cfg.block_confirmations
    → c.cfg.block_confirmations ≤ 2 ^ 63
    → st.head_block ≤ 2 ^ 63
    → later < 2 ^ 63
    → st.logs_cursor.last_processed_block + 10 ≤ 2 ^ 63
    → let first = record_head_block_number (safe_head c answer) st in
      (record_head_block_number later first ≡ first) × (first.is_synced ≡ false)
unfolding record_head_block_number record_is_synced
short_chain_lem c answer later st a b d e f =
    let wrapped : safe_head c answer ≡ uint_mod - (c.cfg.block_confirmations - answer) =
      omega arith in
    let high : ltb (safe_head c answer) st.head_block ≡ false =
      le→ltb_false (safe_head c answer) st.head_block (omega arith) in
    let low : ltb later (safe_head c answer) ≡ true =
      lt→ltb later (safe_head c answer) (omega arith) in
    rw high (
      rw low refl,
      le→ltb_false (safe_head c answer) (add_uint st.logs_cursor.last_processed_block 10)
          (omega arith),
    )
