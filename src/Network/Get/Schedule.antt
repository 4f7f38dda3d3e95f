-- ===== src/Network/Get/Schedule.antt =====
-- The whole run of NetworkClient.get while the context lives: how long it goes on, what it sends and
-- how long it waits in between.
use provable_sdk.Base.{
  ℕ, zero, suc, ◌≤◌, ◌<◌, ◌≡◌, refl, sym, ap, ◌∙◌, inl, inr, Bool-cases, Bool, true, false, Option,
  none, some, List, [], ◌∷◌, ◌++◌, append-nil, append_assoc, arith, pos, rounds, Bytes,
}
use provable_sdk.Fault.{Fault}
use provable_sdk.Exec.{ok, err}
use provable_sdk.Http.Env.{Action, sent, paused, queued, Trace, Env, backoff}
use provable_sdk.Network.{NetworkClient}
use provable_sdk.Network.Get.{get_request, loop, finish, fetch}
use provable_sdk.Network.Get.Steps.{
  passing_fault, success_body, final_fault, IsCalm, ready, visited, loop-passing, loop-success,
  loop-final,
}

module _ (env : Env) (c : NetworkClient) (url : Bytes) where
  -- The trace behind `n` more rounds, of which the first is round number `k`.
  abbrev visits : ℕ → ℕ → Trace → Trace
  visits zero k t = t
  visits (suc n) k t = visits n (suc k) (visited env c url k t)

  -- The next `n` answers of the server fail in passing.
  abbrev IsFailing : ℕ → ℕ → Trace → Type 0
  IsFailing zero k t = Unit
  IsFailing (suc n) k t =
      ((e : Fault) × (passing_fault (env.respond (ready env c url k t) (get_request c url))
          ≡ some e))
      × IsFailing n (suc k) (visited env c url k t)

  -- The next `n` answers fail in passing, and the one behind them is a 200 with body `b`.
  abbrev RecoversAfter : Bytes → ℕ → ℕ → Trace → Type 0
  RecoversAfter b zero k t =
      success_body (env.respond (ready env c url k t) (get_request c url)) ≡ some b
  RecoversAfter b (suc n) k t =
      ((e : Fault) × (passing_fault (env.respond (ready env c url k t) (get_request c url))
          ≡ some e))
      × RecoversAfter b n (suc k) (visited env c url k t)

  -- The same with a status that is not retried.
  abbrev StopsAfter : Fault → ℕ → ℕ → Trace → Type 0
  StopsAfter e zero k t =
      final_fault (env.respond (ready env c url k t) (get_request c url)) ≡ some e
  StopsAfter e (suc n) k t =
      ((e' : Fault) × (passing_fault (env.respond (ready env c url k t) (get_request c url))
          ≡ some e'))
      × StopsAfter e n (suc k) (visited env c url k t)

  -- lastErr behind `n` rounds that fail in passing
  abbrev last_fault : ℕ → ℕ → Option Fault → Trace → Option Fault
  last_fault zero k last t = last
  last_fault (suc n) k last t =
      last_fault n (suc k) (passing_fault (env.respond (ready env c url k t) (get_request c url)))
        (visited env c url k t)

  abbrev gate : Bool → List Action
  gate true = queued ∷ sent (get_request c url) ∷ []
  gate false = sent (get_request c url) ∷ []

  -- What round `k` does, written out: the doubled wait, but in round 0, and the request, behind the
  -- rate limiter if there is one.
  unfoldable pub actions : ℕ → List Action
  actions zero = gate c.limited
  actions (suc k) = paused (backoff env c.base_delay k) ∷ gate c.limited

  -- The `n` rounds from round `k` on.
  unfoldable pub schedule : ℕ → ℕ → List Action
  unfolding actions
  schedule zero k = []
  schedule (suc n) k = actions k ++ schedule n (suc k)

  visited-actions : (k : ℕ) (t : Trace) → visited env c url k t ≡ t ++ actions k
  unfolding actions
  visited-actions zero t = elim (Bool-cases c.limited) [
    | inl e ↦ simp (e, append_assoc)
    | inr e ↦ simp e
  ]
  visited-actions (suc k) t = elim (Bool-cases c.limited) [
    | inl e ↦ simp (e, append_assoc)
    | inr e ↦ simp (e, append_assoc)
  ]

  visits-schedule : (n k : ℕ) (t : Trace) → visits n k t ≡ t ++ schedule n k
  unfolding schedule
  visits-schedule zero k t = sym (append-nil t)
  visits-schedule (suc n) k t =
      visits-schedule n (suc k) (visited env c url k t)
      ∙ rw (visited-actions k t) (append_assoc t (actions k) (schedule n (suc k)))

  fetch-loop :
      {m : ℕ} (t : Trace)
      → c.max_retries ≡ pos m
      → fetch env c url t ≡ loop env c url (suc m) 0 none t
  unfolding fetch
  fetch-loop t e = ap (λ r. loop env c url (rounds r) 0 none t) e

  module _ (calm : IsCalm env c url) where
    loop-failing :
        (n k : ℕ) (last : Option Fault) (t : Trace)
        → IsFailing n k t
        → loop env c url n k last t ≡ finish (last_fault n k last t) (visits n k t)
    unfolding loop
    loop-failing zero k last t h = refl
    loop-failing (suc n) k last t ((e, h), rest) =
        loop-passing env c url calm n k last t h
        ∙ loop-failing n (suc k) (some e) (visited env c url k t) rest
        ∙ rw h

    loop-recovers :
        (b : Bytes) (n r k : ℕ) (last : Option Fault) (t : Trace)
        → n < r
        → RecoversAfter b n k t
        → loop env c url r k last t ≡ (ok b, visits (suc n) k t)
    loop-recovers b n zero k last t lt h = absurd (omega arith)
    loop-recovers b zero (suc r) k last t lt h = loop-success env c url calm r k last t h
    loop-recovers b (suc n) (suc r) k last t lt ((e, h), rest) =
        loop-passing env c url calm r k last t h
        ∙ loop-recovers b n r (suc k) (some e) (visited env c url k t) (omega arith) rest

    loop-stops :
        (f : Fault) (n r k : ℕ) (last : Option Fault) (t : Trace)
        → n < r
        → StopsAfter f n k t
        → loop env c url r k last t ≡ (err f, visits (suc n) k t)
    loop-stops f n zero k last t lt h = absurd (omega arith)
    loop-stops f zero (suc r) k last t lt h = loop-final env c url calm r k last t h
    loop-stops f (suc n) (suc r) k last t lt ((e, h), rest) =
        loop-passing env c url calm r k last t h
        ∙ loop-stops f n r (suc k) (some e) (visited env c url k t) (omega arith) rest

    module _ (t : Trace) where
      -- While the context lives, the limiter lets requests through and the URL is well formed: if
      -- `n` answers fail in passing (a transport error, a body that cannot be read, or a status of
      -- 500 and above), the next is a 200, and the client allows `n` retries, then `get` returns the
      -- body of that 200, and what it has done is the schedule of `n + 1` requests, each but the
      -- first behind its doubled wait.
      pub fetch_recovers :
          (b : Bytes) (n m : ℕ)
          → c.max_retries ≡ pos m
          → n ≤ m
          → RecoversAfter b n 0 t
          → fetch env c url t ≡ (ok b, t ++ schedule (suc n) 0)
      fetch_recovers b n m e le h =
          fetch-loop t e
          ∙ loop-recovers b n (suc m) 0 none t (omega arith) h
          ∙ ap (λ u. (ok b, u)) (visits-schedule (suc n) 0 t)

      -- While the context lives, the limiter lets requests through and the URL is well formed: if
      -- a status that is not retried (not 200, not 429, below 500) comes behind `n` answers that fail
      -- in passing, and the client allows `n` retries, then `get` returns the error of that status
      -- and does nothing more.
      pub fetch_stops :
          (f : Fault) (n m : ℕ)
          → c.max_retries ≡ pos m
          → n ≤ m
          → StopsAfter f n 0 t
          → fetch env c url t ≡ (err f, t ++ schedule (suc n) 0)
      fetch_stops f n m e le h =
          fetch-loop t e
          ∙ loop-stops f n (suc m) 0 none t (omega arith) h
          ∙ ap (λ u. (err f, u)) (visits-schedule (suc n) 0 t)

      -- While the context lives, the limiter lets requests through and the URL is well formed: if
      -- all `maxRetries + 1` answers fail in passing, `get` ends behind that many scheduled requests,
      -- with the error of the last answer.
      pub fetch_exhausted :
          (m : ℕ)
          → c.max_retries ≡ pos m
          → IsFailing (suc m) 0 t
          → fetch env c url t ≡ finish (last_fault (suc m) 0 none t) (t ++ schedule (suc m) 0)
      fetch_exhausted m e h =
          fetch-loop t e
          ∙ loop-failing (suc m) 0 none t h
          ∙ ap (finish (last_fault (suc m) 0 none t)) (visits-schedule (suc m) 0 t)
