-- ===== src/Network/Iterator/Short.antt =====
-- BlockIterator over a range that ends behind the last block that the node has.
use mathlib.Core.Path.{subst}
use provable_sdk.Base.{
  ℕ, zero, suc, ◌+◌, ◌-◌, ◌*◌, ◌%◌, ◌^◌, ◌≤◌, ◌<◌, ◌≡◌, refl, ap, ◌∙◌, ◌⊎◌, inl, inr, [], ◌∷◌, true,
  false, Option, none, drop, arith, ltb, leb, Bool-cases, if◌then◌else◌,
}
use provable_sdk.Exec.{ok}
use provable_sdk.Http.Env.{Env, Trace}
use provable_sdk.Json.{Json}
use provable_sdk.Types.{Block}
use provable_sdk.Network.{NetworkClient}
use provable_sdk.Network.Queries.{get_block_range}
use provable_sdk.Network.Iterator.{
  BlockIterator, block_iterator, batch_end, serve, refill, fetch_batch, next, keep_going, drain,
}
use provable_sdk.Network.Iterator.Steps.{next_buffered, next_finished, next_fetch, fetch_batch_full}
use provable_sdk.Network.Iterator.Complete.{chain, window_end}

-- A batch with no blocks has come.
fetch_batch_empty :
    (env : Env) (json : Json) (c : NetworkClient) (it : BlockIterator) (t : Trace)
    → (get_block_range env json c it.cur (batch_end it.cur it.batch_size it.end) t).0 ≡ ok []
    → fetch_batch env json c it t ≡ (
      false,
      record it {
        cur = (batch_end it.cur it.batch_size it.end + 1) % 2 ^ 64;
        buf = [];
        buf_idx = 0;
      },
      (get_block_range env json c it.cur (batch_end it.cur it.batch_size it.end) t).1,
    )
unfolding fetch_batch refill
fetch_batch_empty env json c it t h =
    ap
      (λ r.
        let (more, it') = refill it (batch_end it.cur it.batch_size it.end) r in
        (
          more,
          it',
          (get_block_range env json c it.cur (batch_end it.cur it.batch_size it.end) t).1,
        ))
      h

compare : (m n : ℕ) → (m ≤ n) ⊎ (n < m)
compare m n = elim (Bool-cases (leb m n)) [
  | inl e ↦ inl (ground arith)
  | inr e ↦ inr (ground arith)
]

module _ (env : Env) (json : Json) (c : NetworkClient) (b : ℕ → Option Block)
    (start end tip : ℕ) where
  -- The last height of a batch that the node has a block for.
  abbrev pub known_end : ℕ → ℕ
  known_end s = if ltb tip (window_end s end) then tip else window_end s end

  -- Whenever it is asked for the batch from `start + 50 i` on, the node sends those of its blocks that it
  -- has, up to height `tip`.
  abbrev pub ServesUpTo : Type 0
  ServesUpTo =
      (i : ℕ) (t : Trace)
      → start + 50 * i ≤ end
      → (get_block_range env json c (start + 50 * i) (window_end (start + 50 * i) end) t).0
        ≡ ok (chain b (start + 50 * i) (known_end (start + 50 * i) + 1 - (start + 50 * i)))

  -- `s` is the next height to give, and `m` blocks are in the buffer.
  record IsNear (it : BlockIterator) (s m : ℕ) : Type 0 where
    sound : it.error ≡ none
    size : it.batch_size ≡ 50
    last : it.end ≡ end
    rest : drop it.buf_idx it.buf ≡ chain b s m
    within : s + m ≤ tip + 1
    ahead : (it.cur ≡ s + m) ⊎ ((s + m ≡ tip + 1) × (tip < it.cur))
    aligned : ((i : ℕ) × (it.cur ≡ start + 50 * i)) ⊎ (end < it.cur)

  module _ (small : end + 50 < 2 ^ 64) (short : tip < end) (serves : ServesUpTo) where
    batch_end-window_end :
        (it : BlockIterator)
        → it.batch_size ≡ 50
        → it.end ≡ end
        → it.cur ≤ end
        → batch_end it.cur it.batch_size it.end ≡ window_end it.cur end
    unfolding batch_end
    batch_end-window_end it size last le = ground (arith, size, last)

    window_end-bounds :
        (s : ℕ)
        → s ≤ end
        → (s ≤ window_end s end)
          × (window_end s end ≤ end)
          × ((window_end s end ≡ end) ⊎ (window_end s end ≡ s + 49))
    window_end-bounds s le = ground arith

    known_end-cases :
        (s : ℕ)
        → ((known_end s ≡ tip) × (tip < window_end s end))
          ⊎ ((known_end s ≡ window_end s end) × (window_end s end ≤ tip))
    known_end-cases s = ground arith

    served_at :
        (it : BlockIterator) (i : ℕ) (t : Trace)
        → it.batch_size ≡ 50
        → it.end ≡ end
        → it.cur ≡ start + 50 * i
        → it.cur ≤ end
        → (get_block_range env json c it.cur (batch_end it.cur it.batch_size it.end) t).0
          ≡ ok (chain b it.cur (known_end it.cur + 1 - it.cur))
    served_at it i t size last e le =
        rw (batch_end-window_end it size last le, e) (serves i t (omega (arith, e, le)))

    -- Behind the last known block there is nothing to see.
    stops :
        (fuel : ℕ) (it : BlockIterator) (t : Trace)
        → IsNear it (tip + 1) 0
        → ((drain env json c (suc fuel) it t).0 ≡ [])
          × ((drain env json c (suc fuel) it t).1.error ≡ none)
    unfolding drain keep_going
    stops fuel it t h = elim h.aligned [
      | inr lt ↦
          let e = next_finished env json c it t h.sound h.rest (omega (arith, h.last, lt)) in
          rw e (refl, h.sound)
      | inl (i, e) ↦ elim (compare it.cur end) [
        | inr lt ↦
            let e = next_finished env json c it t h.sound h.rest (omega (arith, h.last, lt)) in
            rw e (refl, h.sound)
        | inl le ↦
            let behind : tip < it.cur = elim h.ahead [
              | inl p ↦ omega (arith, p)
              | inr (p, lt) ↦ lt
            ] in
            let none_left : known_end it.cur + 1 - it.cur ≡ 0 = elim (known_end-cases it.cur) [
              | inl (p, lt) ↦ omega (arith, p, behind)
              | inr (p, le') ↦ absurd (omega (arith, window_end-bounds it.cur le, behind, le'))
            ] in
            let gone =
              next_fetch env json c it t h.sound h.rest (omega (arith, h.last, le))
              ∙ fetch_batch_empty env json c it t (
                  served_at it i t h.size h.last e le
                  ∙ ap (λ n. ok (chain b it.cur n)) none_left) in
            rw gone (refl, h.sound)
      ]
    ]

    -- The step from height `s` to the next.
    give :
        (it : BlockIterator) (t : Trace) (s m : ℕ)
        → IsNear it s m
        → s ≤ tip
        → (it' : BlockIterator) × (u : Trace) × (m' : ℕ) × (next env json c it t ≡ (true, it', u))
          × (it'.block ≡ b s)
          × IsNear it' (suc s) m'
    unfolding serve
    give it t s (suc m) h le =
        let (e, f, g) = next_buffered env json c it t h.sound h.rest in
        (
          serve it,
          t,
          m,
          e,
          f,
          record {
            sound = h.sound;
            size = h.size;
            last = h.last;
            rest = g;
            within = omega (arith, h.within);
            ahead = elim h.ahead [
              | inl p ↦ inl (omega (arith, p))
              | inr (p, lt) ↦ inr (omega (arith, p), lt)
            ];
            aligned = h.aligned;
          },
        )
    give it t s zero h le =
        let cur : it.cur ≡ s = elim h.ahead [
          | inl p ↦ omega (arith, p)
          | inr (p, lt) ↦ absurd (omega (arith, p, le))
        ] in
        let below : it.cur ≤ end = omega (arith, cur, le, short) in
        let w = window_end-bounds it.cur below in
        let e = batch_end-window_end it h.size h.last below in
        let i : (i : ℕ) × (it.cur ≡ start + 50 * i) = elim h.aligned [
          | inl a ↦ a
          | inr lt ↦ absurd (omega (arith, lt, below))
        ] in
        let count : known_end it.cur + 1 - it.cur ≡ suc (known_end it.cur - s) =
          elim (known_end-cases it.cur) [
            | inl (p, lt) ↦ omega (arith, p, cur, le)
            | inr (p, le') ↦ omega (arith, p, cur, w)
          ] in
        let batch : (get_block_range env json c it.cur (batch_end it.cur it.batch_size it.end) t).0
            ≡ ok (b s ∷ chain b (suc s) (known_end it.cur - s)) =
          cc (served_at it (i.0) t h.size h.last (i.1) below, ap (chain b it.cur) count, cur) in
        (
          serve (record it {
            cur = (batch_end it.cur it.batch_size it.end + 1) % 2 ^ 64;
            buf = b s ∷ chain b (suc s) (known_end it.cur - s);
            buf_idx = 0;
          }),
          (get_block_range env json c it.cur (batch_end it.cur it.batch_size it.end) t).1,
          known_end it.cur - s,
          next_fetch env json c it t h.sound h.rest (omega (arith, h.last, below))
              ∙ fetch_batch_full env json c it t batch,
          refl,
          record {
            sound = h.sound;
            size = h.size;
            last = h.last;
            rest = refl;
            within = elim (known_end-cases it.cur) [
              | inl (p, lt) ↦ omega (arith, p, cur, le)
              | inr (p, le') ↦ omega (arith, p, cur, w, le')
            ];
            ahead = elim (known_end-cases it.cur) [
              | inl (p, lt) ↦ inr (omega (arith, p, cur, le), omega (arith, e, lt, w))
              | inr (p, le') ↦ inl (omega (arith, p, cur, e, w))
            ];
            aligned = elim (w.2) [
              | inl p ↦ inr (omega (arith, e, p))
              | inr p ↦ inl (suc (i.0), omega (arith, e, p, i.1, w))
            ];
          },
        )

    drain_known :
        (r fuel : ℕ) (it : BlockIterator) (t : Trace) (s m : ℕ)
        → IsNear it s m
        → s + r ≡ tip + 1
        → r < fuel
        → ((drain env json c fuel it t).0 ≡ chain b s r)
          × ((drain env json c fuel it t).1.error ≡ none)
    unfolding drain keep_going
    drain_known r zero it t s m h e lt = absurd (omega arith)
    drain_known zero (suc fuel) it t s (suc m) h e lt = absurd (omega (arith, h.within))
    drain_known zero (suc fuel) it t s zero h e lt =
        stops fuel it t (subst (λ s. IsNear it s 0) (let p : s ≡ tip + 1 = omega arith in p) h)
    drain_known (suc r) (suc fuel) it t s m h e lt =
        let (it', u, m', e', f, h') = give it t s m h (omega arith) in
        let (p, q) = drain_known r fuel it' u (suc s) m' h' (omega arith) (omega arith) in
        rw e' (cc (f, p), q)

    -- Over a range that begins at or below height `tip`, and ends above it and 50 below 2^64, and against
    -- a node that has the blocks up to `tip` and sends of each batch those that it has, the caller of
    -- Next sees the blocks from `start` to `tip`, each once and in order. Then Next stops, with no error,
    -- though the range has not ended, when it may be called once more than there are blocks.
    pub drain_short :
        (fuel : ℕ) (t : Trace)
        → start ≤ tip
        → tip + 1 - start < fuel
        → ((drain env json c fuel (block_iterator start end) t).0 ≡ chain b start (tip + 1 - start))
          × ((drain env json c fuel (block_iterator start end) t).1.error ≡ none)
    unfolding block_iterator
    drain_short fuel t le lt =
        drain_known (tip + 1 - start) fuel (block_iterator start end) t start 0
          (record {
            sound = refl;
            size = refl;
            last = refl;
            rest = refl;
            within = omega arith;
            ahead = inl (omega arith);
            aligned = inl (0, omega arith);
          })
          (omega arith) lt
