-- ===== src/Manager/Batch/Moves.antt =====
-- What a step keeps of the invariant, and that it leaves one step less.
use mathlib.Core.Path.{subst}
use mathlib.Core.List.{map-append}
use provable_sdk.Base.{
  ℕ, ◌+◌, ◌*◌, ◌≤◌, ◌≡◌, refl, ap, sym, ◌∙◌, List, [], ◌∷◌, ◌++◌, arith, map, length, Bytes, All,
  append_assoc, All-append,
}
use provable_sdk.Exec.{Result}
use provable_sdk.Manager.Batch.{
  ExecuteRequest, Slot, Batch, max_batch_concurrency, Move, acquire, store, release, done, Step,
  spawn, turn, started, Run, start, later,
}
use provable_sdk.Manager.Batch.Invariant.{
  total, total-append, token, waits, left, holds, lives, steps, measure, IsAnswer, IsRight, Settled,
  Inv,
}

All-replace :
    (P : Slot → Type 0) (xs : List Slot) {y y' : Slot} (ys : List Slot)
    → (P y → P y')
    → All P (xs ++ y ∷ ys)
    → All P (xs ++ y' ∷ ys)
All-replace P [] ys f h = (f (h.0), h.1)
All-replace P (x ∷ xs) ys f h = (h.0, All-replace P xs ys f (h.1))

request-replace :
    (xs : List Slot) (y y' : Slot) (ys : List Slot)
    → y'.request ≡ y.request
    → map Slot.request (xs ++ y' ∷ ys) ≡ map Slot.request (xs ++ y ∷ ys)
request-replace [] y y' ys h = ap (λ r. r ∷ map Slot.request ys) h
request-replace (x ∷ xs) y y' ys h = ap (λ rs. x.request ∷ rs) (request-replace xs y y' ys h)

total-replace :
    (w : Slot → ℕ) (xs : List Slot) (y y' : Slot) (ys : List Slot)
    → total w (xs ++ y' ∷ ys) + w y ≡ total w (xs ++ y ∷ ys) + w y'
total-replace w xs y y' ys = omega (arith, total-append w xs (y ∷ ys), total-append w xs (y' ∷ ys))

module _ (Returns : ExecuteRequest → Result Bytes → Type 0) where
  record Kept (sem wg : ℕ) (y : Slot) (sem' wg' : ℕ) (y' : Slot) : Type 0 where
    request : y'.request ≡ y.request
    tokens : sem' + holds y ≡ sem + holds y'
    counted : wg' + lives y ≡ wg + lives y'
    fewer : steps y ≡ steps y' + 1
    capacity : sem ≤ max_batch_concurrency → sem' ≤ max_batch_concurrency
    settled : Settled Returns y → Settled Returns y'

  Move-Kept :
      {sem wg sem' wg' : ℕ} {y y' : Slot}
      → Move Returns sem wg y sem' wg' y'
      → Kept sem wg y sem' wg' y'
  unfolding IsAnswer
  Move-Kept (acquire h lt) = record {
    request = refl;
    tokens = omega (arith, ap token h);
    counted = omega (arith, ap waits h);
    fewer = omega (arith, ap left h);
    capacity = λ _. omega (arith, lt);
    settled = λ _. tt;
  }
  Move-Kept {y} (store o h r) = record {
    request = refl;
    tokens = omega (arith, ap token h);
    counted = omega (arith, ap waits h);
    fewer = omega (arith, ap left h);
    capacity = λ le. le;
    settled = λ _. (o, r, refl);
  }
  Move-Kept {y} (release h lt) = record {
    request = refl;
    tokens = omega (arith, lt, ap token h);
    counted = omega (arith, ap waits h);
    fewer = omega (arith, ap left h);
    capacity = λ le. omega (arith, le);
    settled = subst (λ p. IsRight Returns p y.request y.result) h;
  }
  Move-Kept {y} (done h lt) = record {
    request = refl;
    tokens = omega (arith, ap token h);
    counted = omega (arith, lt, ap waits h);
    fewer = omega (arith, ap left h);
    capacity = λ le. le;
    settled = subst (λ p. IsRight Returns p y.request y.result) h;
  }

  turn-Inv :
      (requests : List ExecuteRequest) (b : Batch) (xs : List Slot) (y : Slot) (ys : List Slot)
      {sem wg : ℕ} {y' : Slot}
      → b.slots ≡ xs ++ y ∷ ys
      → Kept b.sem b.wg y sem wg y'
      → Inv Returns requests b
      → Inv Returns requests (record b { slots = xs ++ y' ∷ ys; sem = sem; wg = wg })
  turn-Inv requests b xs y ys {y'} e k inv = record {
    capacity = k.capacity inv.capacity;
    tokens =
        omega (arith, k.tokens, inv.tokens, total-replace holds xs y y' ys, ap (total holds) e);
    counted =
        omega (arith, k.counted, inv.counted, total-replace lives xs y y' ys, ap (total lives) e);
    kept =
        ap (λ rs. rs ++ b.pending)
          (request-replace xs y y' ys k.request ∙ sym (ap (map Slot.request) e))
        ∙ inv.kept;
    settled =
        All-replace (Settled Returns) xs ys k.settled (subst (All (Settled Returns)) e inv.settled);
  }

  spawn-Inv :
      (requests : List ExecuteRequest) (b : Batch) (r : ExecuteRequest) (rs : List ExecuteRequest)
      → b.pending ≡ r ∷ rs
      → Inv Returns requests b
      → Inv Returns requests
          (record b { pending = rs; slots = b.slots ++ (started r ∷ []); wg = b.wg + 1 })
  spawn-Inv requests b r rs e inv = record {
    capacity = inv.capacity;
    tokens = omega (arith, inv.tokens, total-append holds b.slots (started r ∷ []));
    counted = omega (arith, inv.counted, total-append lives b.slots (started r ∷ []));
    kept =
        ap (λ qs. qs ++ rs) (map-append Slot.request b.slots (started r ∷ []))
        ∙ append_assoc _ (r ∷ []) rs
        ∙ ap (λ ps. map Slot.request b.slots ++ ps) (sym e)
        ∙ inv.kept;
    settled = All-append (Settled Returns) b.slots (started r ∷ []) inv.settled (tt, tt);
  }

  Step-Inv :
      (requests : List ExecuteRequest) {b b' : Batch}
      → Step Returns b b'
      → Inv Returns requests b
      → Inv Returns requests b'
  Step-Inv requests {b} (spawn r rs e) inv = spawn-Inv requests b r rs e inv
  Step-Inv requests {b} (turn xs y ys e mv) inv = turn-Inv requests b xs y ys e (Move-Kept mv) inv

  pub Step-measure : {b b' : Batch} → Step Returns b b' → measure b ≡ measure b' + 1
  Step-measure {b} (spawn r rs e) =
      omega (arith, ap length e, total-append steps b.slots (started r ∷ []))
  Step-measure (turn xs y ys {y' = y'} e mv) =
      let k = Move-Kept mv in
      omega (arith, k.fewer, total-replace steps xs y y' ys, ap (total steps) e)

  -- In every state of a run of ExecuteBatch, at most maxBatchConcurrency tokens are in the semaphore,
  -- which are those of the goroutines between their send and their receive; the WaitGroup counts the
  -- goroutines that are not done; the goroutines and what the loop has left are the requests in order;
  -- and an element of the results that was written is what Execute returned for its request.
  pub Run-Inv :
      (requests : List ExecuteRequest) {k : ℕ} {b : Batch}
      → Run Returns requests k b
      → Inv Returns requests b
  Run-Inv requests start = record {
    capacity = omega arith;
    tokens = refl;
    counted = refl;
    kept = refl;
    settled = tt;
  }
  Run-Inv requests (later run st) = Step-Inv requests st (Run-Inv requests run)

  pub Run-measure :
      (requests : List ExecuteRequest) {k : ℕ} {b : Batch}
      → Run Returns requests k b
      → k + measure b ≡ 5 * length requests
  Run-measure requests start = omega arith
  Run-measure requests (later run st) = omega (arith, Run-measure requests run, Step-measure st)
