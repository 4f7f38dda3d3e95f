-- ===== src/Network/Iterator/Steps.antt =====
-- One call of BlockIterator.Next, by the state of its buffer.
use provable_sdk.Base.{
  ℕ, zero, suc, ◌+◌, ◌%◌, ◌^◌, ◌≤◌, ◌<◌, ◌≡◌, ap, List, [], ◌∷◌, true, false, Option, none, length,
  drop, arith, ltb,
}
use provable_sdk.Exec.{ok}
use provable_sdk.Http.Env.{Env, Trace}
use provable_sdk.Json.{Json}
use provable_sdk.Types.{Block}
use provable_sdk.Network.{NetworkClient}
use provable_sdk.Network.Queries.{get_block_range}
use provable_sdk.Network.Iterator.{
  BlockIterator, at_index, batch_end, serve, refill, fetch_batch, next,
}

drop_cons :
    (i : ℕ) (xs : List (Option Block)) {y : Option Block} {ys : List (Option Block)}
    → drop i xs ≡ y ∷ ys
    → (at_index xs i ≡ y) × (drop (suc i) xs ≡ ys) × (ltb i (length xs) ≡ true)
unfolding at_index
drop_cons zero [] h = cc
drop_cons zero (x ∷ xs) h = ground arith
drop_cons (suc i) [] h = cc
drop_cons (suc i) (x ∷ xs) h = let (a, b, l) = drop_cons i xs h in (a, b, ground arith)

drop_nil : (i : ℕ) (xs : List (Option Block)) → drop i xs ≡ [] → ltb i (length xs) ≡ false
drop_nil zero [] h = ground arith
drop_nil zero (x ∷ xs) h = cc
drop_nil (suc i) [] h = ground arith
drop_nil (suc i) (x ∷ xs) h = let l = drop_nil i xs h in ground arith

module _ (env : Env) (json : Json) (c : NetworkClient) (it : BlockIterator) (t : Trace) where
  -- A block is left in the buffer.
  pub next_buffered :
      {y : Option Block} {ys : List (Option Block)}
      → it.error ≡ none
      → drop it.buf_idx it.buf ≡ y ∷ ys
      → (next env json c it t ≡ (true, serve it, t))
        × ((serve it).block ≡ y)
        × (drop (serve it).buf_idx (serve it).buf ≡ ys)
  unfolding next serve
  next_buffered e h =
      let (a, b, l) = drop_cons it.buf_idx it.buf h in
      (ground arith, a, let p : it.buf_idx + 1 ≡ suc it.buf_idx = omega arith in rw p b)

  -- The buffer is used up, and so is the range.
  pub next_finished :
      it.error ≡ none
      → drop it.buf_idx it.buf ≡ []
      → it.end < it.cur
      → next env json c it t ≡ (false, it, t)
  unfolding next
  next_finished e h lt = let l = drop_nil it.buf_idx it.buf h in ground arith

  -- The buffer is used up, and blocks are left in the range.
  pub next_fetch :
      it.error ≡ none
      → drop it.buf_idx it.buf ≡ []
      → it.cur ≤ it.end
      → next env json c it t ≡ fetch_batch env json c it t
  unfolding next
  next_fetch e h le = let l = drop_nil it.buf_idx it.buf h in ground arith

  -- A batch with a block in it has come.
  pub fetch_batch_full :
      {y : Option Block} {ys : List (Option Block)}
      → (get_block_range env json c it.cur (batch_end it.cur it.batch_size it.end) t).0
        ≡ ok (y ∷ ys)
      → fetch_batch env json c it t ≡ (
        true,
        serve (record it {
          cur = (batch_end it.cur it.batch_size it.end + 1) % 2 ^ 64;
          buf = y ∷ ys;
          buf_idx = 0;
        }),
        (get_block_range env json c it.cur (batch_end it.cur it.batch_size it.end) t).1,
      )
  unfolding fetch_batch refill
  fetch_batch_full h =
      ap
        (λ r.
          let (more, it') = refill it (batch_end it.cur it.batch_size it.end) r in
          (
            more,
            it',
            (get_block_range env json c it.cur (batch_end it.cur it.batch_size it.end) t).1,
          ))
        h
