-- ===== src/Network/Iterator/Complete.antt =====
-- BlockIterator over a whole range, against a node that serves it.
use provable_sdk.Base.{
  ℕ, zero, suc, ◌+◌, ◌-◌, ◌*◌, ◌%◌, ◌^◌, ◌≤◌, ◌<◌, ◌≡◌, refl, ap, ◌∙◌, ◌⊎◌, inl, inr, List, [], ◌∷◌,
  true, Option, none, drop, arith, ltb, if◌then◌else◌,
}
use provable_sdk.Exec.{ok}
use provable_sdk.Http.Env.{Env, Trace}
use provable_sdk.Json.{Json}
use provable_sdk.Types.{Block}
use provable_sdk.Network.{NetworkClient}
use provable_sdk.Network.Queries.{get_block_range}
use provable_sdk.Network.Iterator.{
  BlockIterator, block_iterator, batch_end, serve, next, keep_going, drain,
}
use provable_sdk.Network.Iterator.Steps.{next_buffered, next_finished, next_fetch, fetch_batch_full}

-- The `n` blocks from height `s` on.
abbrev pub chain : (ℕ → Option Block) → ℕ → ℕ → List (Option Block)
chain b s zero = []
chain b s (suc n) = b s ∷ chain b (suc s) n

-- The last height of a batch, with no wrap-around.
abbrev pub window_end : ℕ → ℕ → ℕ
window_end s end = if ltb end (s + 49) then end else s + 49

module _ (env : Env) (json : Json) (c : NetworkClient) (b : ℕ → Option Block) (start end : ℕ) where
  -- Whenever it is asked for the batch from `start + 50 i` on, the node sends its blocks.
  abbrev pub Serves : Type 0
  Serves =
      (i : ℕ) (t : Trace)
      → start + 50 * i ≤ end
      → (get_block_range env json c (start + 50 * i) (window_end (start + 50 * i) end) t).0
        ≡ ok (chain b (start + 50 * i) (window_end (start + 50 * i) end + 1 - (start + 50 * i)))

  -- `s` is the next height to give, and `m` blocks are in the buffer.
  record IsAt (it : BlockIterator) (s m : ℕ) : Type 0 where
    sound : it.error ≡ none
    size : it.batch_size ≡ 50
    last : it.end ≡ end
    ahead : it.cur ≡ s + m
    within : it.cur ≤ end + 1
    rest : drop it.buf_idx it.buf ≡ chain b s m
    aligned : ((i : ℕ) × (it.cur ≡ start + 50 * i)) ⊎ (end < it.cur)

  module _ (small : end + 50 < 2 ^ 64) (serves : Serves) where
    batch_end-window_end :
        (it : BlockIterator) (s : ℕ)
        → IsAt it s 0
        → s ≤ end
        → batch_end it.cur it.batch_size it.end ≡ window_end s end
    unfolding batch_end
    batch_end-window_end it s h le = ground (arith, h.ahead, h.size, h.last)

    window_end-bounds :
        (s : ℕ)
        → s ≤ end
        → (s ≤ window_end s end)
          × (window_end s end ≤ end)
          × ((window_end s end ≡ end) ⊎ (window_end s end ≡ s + 49))
    window_end-bounds s le = ground arith

    chain_first : (s : ℕ) {n k : ℕ} → n ≡ suc k → chain b s n ≡ b s ∷ chain b (suc s) k
    chain_first s e = ap (chain b s) e

    serves_at :
        (s i : ℕ) (t : Trace)
        → s ≡ start + 50 * i
        → s ≤ end
        → (get_block_range env json c s (window_end s end) t).0
          ≡ ok (chain b s (window_end s end + 1 - s))
    serves_at s i t e le = rw e (serves i t (omega arith))

    next_aligned :
        (it : BlockIterator) (s : ℕ)
        → IsAt it s 0
        → s ≤ end
        → ((i : ℕ) × ((batch_end it.cur it.batch_size it.end + 1) % 2 ^ 64 ≡ start + 50 * i))
          ⊎ (end < (batch_end it.cur it.batch_size it.end + 1) % 2 ^ 64)
    next_aligned it s h le =
        let full = window_end-bounds s le in
        let e = batch_end-window_end it s h le in
        elim (full.2) [
          | inl p ↦ inr (omega (arith, e, p))
          | inr p ↦ elim (h.aligned) [
            | inl (i, q) ↦ inl (suc i, omega (arith, e, p, q, h.ahead))
            | inr lt ↦ absurd (omega (arith, h.ahead))
          ]
        ]

    -- The batch that is fetched at height `s`.
    batch :
        (it : BlockIterator) (t : Trace) (s : ℕ)
        → IsAt it s 0
        → s ≤ end
        → (get_block_range env json c it.cur (batch_end it.cur it.batch_size it.end) t).0
          ≡ ok (b s ∷ chain b (suc s) (window_end s end - s))
    batch it t s h le = elim (h.aligned) [
      | inl (i, p) ↦
          let cur : it.cur ≡ s = omega (arith, h.ahead) in
          let k : window_end s end + 1 - s ≡ suc (window_end s end - s) =
            omega (arith, window_end-bounds s le) in
          cc (
            serves_at s i t (omega (arith, cur, p)) le,
            cur,
            batch_end-window_end it s h le,
            chain_first s k,
          )
      | inr lt ↦ absurd (omega (arith, h.ahead))
    ]

    -- The step from height `s` to the next.
    give :
        (it : BlockIterator) (t : Trace) (s m : ℕ)
        → IsAt it s m
        → s ≤ end
        → (it' : BlockIterator) × (u : Trace) × (m' : ℕ) × (next env json c it t ≡ (true, it', u))
          × (it'.block ≡ b s)
          × IsAt it' (suc s) m'
    unfolding serve
    give it t s (suc m) h le =
        let (e, f, g) = next_buffered env json c it t h.sound h.rest in
        (
          serve it,
          t,
          m,
          e,
          f,
          record {
            sound = h.sound;
            size = h.size;
            last = h.last;
            ahead = omega (arith, h.ahead);
            within = h.within;
            rest = g;
            aligned = h.aligned;
          },
        )
    give it t s zero h le =
        let w = window_end s end in
        let full = window_end-bounds s le in
        let e = batch_end-window_end it s h le in
        let cur : it.cur ≡ s = omega (arith, h.ahead) in
        (
          serve (record it {
            cur = (batch_end it.cur it.batch_size it.end + 1) % 2 ^ 64;
            buf = b s ∷ chain b (suc s) (w - s);
            buf_idx = 0;
          }),
          (get_block_range env json c it.cur (batch_end it.cur it.batch_size it.end) t).1,
          w - s,
          next_fetch env json c it t h.sound h.rest (omega (arith, h.last))
              ∙ fetch_batch_full env json c it t (batch it t s h le),
          refl,
          record {
            sound = h.sound;
            size = h.size;
            last = h.last;
            ahead = omega (arith, e, full);
            within = omega (arith, e, full);
            rest = refl;
            aligned = next_aligned it s h le;
          },
        )

    drain_all :
        (r fuel : ℕ) (it : BlockIterator) (t : Trace) (s m : ℕ)
        → IsAt it s m
        → s + r ≡ end + 1
        → r < fuel
        → ((drain env json c fuel it t).0 ≡ chain b s r)
          × ((drain env json c fuel it t).1.error ≡ none)
    unfolding drain keep_going
    drain_all r zero it t s m h e lt = absurd (omega arith)
    drain_all zero (suc fuel) it t s (suc m) h e lt = absurd (omega (arith, h.ahead, h.within))
    drain_all zero (suc fuel) it t s zero h e lt =
        let e' = next_finished env json c it t h.sound h.rest (omega (arith, h.ahead, h.last)) in
        rw e' (refl, h.sound)
    drain_all (suc r) (suc fuel) it t s m h e lt =
        let (it', u, m', e', f, h') = give it t s m h (omega arith) in
        let (p, q) = drain_all r fuel it' u (suc s) m' h' (omega arith) (omega arith) in
        rw e' (cc (f, p), q)

    -- Over a range that ends 50 below 2^64, and against a node that sends the blocks of each batch it
    -- is asked for, the caller of Next sees the blocks from `start` to `end`, each once and in order,
    -- and then Next stops with no error, when it may be called once more than there are blocks.
    pub drain_complete :
        (fuel : ℕ) (t : Trace)
        → start ≤ end
        → end + 1 - start < fuel
        → ((drain env json c fuel (block_iterator start end) t).0 ≡ chain b start (end + 1 - start))
          × ((drain env json c fuel (block_iterator start end) t).1.error ≡ none)
    unfolding block_iterator
    drain_complete fuel t le lt =
        drain_all (end + 1 - start) fuel (block_iterator start end) t start 0
          (record {
            sound = refl;
            size = refl;
            last = refl;
            ahead = omega arith;
            within = omega arith;
            rest = refl;
            aligned = inl (0, omega arith);
          })
          (omega arith) lt
