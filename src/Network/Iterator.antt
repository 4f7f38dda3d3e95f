-- ===== src/Network/Iterator.antt =====
-- BlockIterator: a range of blocks, fetched in batches of 50. Heights are uint64 with wrap-around.
pub mod Steps
pub mod Complete
pub mod Short
use provable_sdk.Base.{
  ℕ, zero, suc, ◌+◌, ◌-◌, ◌%◌, ◌^◌, List, [], ◌∷◌, Bool, true, false, Option, none, some, length,
  get_elem?, ltb, if◌then◌else◌,
}
use provable_sdk.Fault.{Fault}
use provable_sdk.Exec.{Result, ok, err}
use provable_sdk.Http.Env.{Env, Trace}
use provable_sdk.Json.{Json}
use provable_sdk.Types.{Block}
use provable_sdk.Network.{NetworkClient}
use provable_sdk.Network.Queries.{get_block_range}

-- The field err is `error`. A nil *Block is `none`.
pub record BlockIterator : Type 0 where
  pub cur : ℕ
  pub end : ℕ
  pub batch_size : ℕ
  pub buf : List (Option Block)
  pub buf_idx : ℕ
  pub block : Option Block
  pub error : Option Fault

abbrev default_block_batch_size : ℕ
default_block_batch_size = 50

-- NetworkClient.BlockIterator
unfoldable pub block_iterator : ℕ → ℕ → BlockIterator
block_iterator start end = record {
  cur = start;
  end = end;
  batch_size = default_block_batch_size;
  buf = [];
  buf_idx = 0;
  block = none;
  error = none;
}

-- cur + batchSize - 1 in uint64, cut at the end of the range
unfoldable pub batch_end : ℕ → ℕ → ℕ → ℕ
batch_end cur batch_size end =
    let last = (cur + batch_size + (2 ^ 64 - 1)) % 2 ^ 64 in if ltb end last then end else last

-- it.buf[it.bufIdx], which is asked for in range only
unfoldable at_index : List (Option Block) → ℕ → Option Block
at_index buf i = elim (get_elem? buf i) [ some b ↦ b | none ↦ none ]

unfoldable serve : BlockIterator → BlockIterator
unfolding at_index
serve it = record it { block = at_index it.buf it.buf_idx; buf_idx = it.buf_idx + 1 }

-- What a fetched batch does; `last` is batchEnd.
unfoldable refill : BlockIterator → ℕ → Result (List (Option Block)) → Bool × BlockIterator
unfolding serve
refill it last (err e) = (false, record it { error = some e })
refill it last (ok []) = (false, record it { cur = (last + 1) % 2 ^ 64; buf = []; buf_idx = 0 })
refill it last (ok (b ∷ blocks)) =
    (true, serve (record it { cur = (last + 1) % 2 ^ 64; buf = b ∷ blocks; buf_idx = 0 }))

-- The blocks that a caller has seen, and the iterator and the trace behind them.
abbrev Drained : Type 0
Drained = List (Option Block) × BlockIterator × Trace

keep_going : (BlockIterator → Trace → Drained) → Bool × BlockIterator × Trace → Drained
keep_going rest (false, it, t) = ([], it, t)
keep_going rest (true, it, t) = let (blocks, it', u) = rest it t in (it.block ∷ blocks, it', u)

module _ (env : Env) (json : Json) (c : NetworkClient) where
  pub fetch_batch : BlockIterator → Trace → Bool × BlockIterator × Trace
  unfolding batch_end refill
  fetch_batch it t =
      let last = batch_end it.cur it.batch_size it.end in
      let (r, u) = get_block_range env json c it.cur last t in
      let (more, it') = refill it last r in (more, it', u)

  advance : Option Fault → BlockIterator → Trace → Bool × BlockIterator × Trace
  unfolding serve fetch_batch
  advance (some e) it t = (false, it, t)
  advance none it t =
      if ltb it.buf_idx (length it.buf)
      then (true, serve it, t)
      else if ltb it.end it.cur
      then (false, it, t)
      else fetch_batch it t

  -- BlockIterator.Next
  unfoldable pub next : BlockIterator → Trace → Bool × BlockIterator × Trace
  unfolding advance
  next it t = advance it.error it t

  -- for it.Next() { use(it.Block()) }, with the number of calls of Next bounded
  unfoldable pub drain : ℕ → BlockIterator → Trace → Drained
  unfolding keep_going
  drain zero it t = ([], it, t)
  drain (suc fuel) it t = keep_going (drain fuel) (next it t)
