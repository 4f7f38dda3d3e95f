-- ===== src/Network/Get/Steps.antt =====
-- One round of the retry loop of NetworkClient.get, by what the server answers.
use provable_sdk.Base.{
  ℕ, zero, suc, ◌≡◌, ◌||◌, Option, none, some, [], ◌∷◌, ◌++◌, arith, Bytes, leb, ◌==◌,
  if◌then◌else◌,
}
use provable_sdk.Fault.{Fault}
use provable_sdk.Exec.{ok, err}
use provable_sdk.Http.Env.{
  Exchange, failed, answered, sent, paused, queued, Trace, Env, new_request, do_request, pause,
  wait_turn, backoff,
}
use provable_sdk.Network.{NetworkClient}
use provable_sdk.Network.Get.{
  give, again, get_request, is_transient, status_fault, judge, round, loop,
}

-- The error that an answer leaves in lastErr, if the loop goes on at once: a transport error, a body
-- that cannot be read, or a status of 500 and above.
abbrev pub passing_fault : Exchange → Option Fault
passing_fault (failed e) = some e
passing_fault (answered r) = elim r.body [
  | err e ↦ some e
  | ok body ↦ if leb 500 r.status then some (status_fault r.status body) else none
]

-- The body of a 200, where it can be read.
abbrev pub success_body : Exchange → Option Bytes
success_body (failed e) = none
success_body (answered r) = elim r.body [
  | err e ↦ none
  | ok body ↦ if r.status == 200 then some body else none
]

-- The error of a status that ends the loop: neither 200, nor 429, nor 500 and above.
abbrev pub final_fault : Exchange → Option Fault
final_fault (failed e) = none
final_fault (answered r) = elim r.body [
  | err e ↦ none
  | ok body ↦
      if r.status == 200 || is_transient r.status then none else some (status_fault r.status body)
]

module _ (env : Env) where
  judge-passing :
      (x : Exchange) (t : Trace) {e : Fault}
      → passing_fault x ≡ some e
      → judge env x t ≡ (ok (again e), t)
  unfolding judge is_transient
  judge-passing (failed e) t h = ground arith
  judge-passing (answered r) t h = ground arith

  judge-success :
      (x : Exchange) (t : Trace) {b : Bytes}
      → success_body x ≡ some b
      → judge env x t ≡ (ok (give b), t)
  unfolding judge
  judge-success (failed e) t h = cc
  judge-success (answered r) t h = ground arith

  judge-final :
      (x : Exchange) (t : Trace) {e : Fault} → final_fault x ≡ some e → judge env x t ≡ (err e, t)
  unfolding judge is_transient
  judge-final (failed e) t h = cc
  judge-final (answered r) t h = ground arith

module _ (env : Env) (c : NetworkClient) (url : Bytes) where
  -- The context stays alive, the limiter lets every request through, and the URL is well formed.
  pub record IsCalm : Type 0 where
    pub accepts : env.reject_url url ≡ none
    pub alive : (t : Trace) (d : ℕ) → env.interrupted t d ≡ none
    pub open_gate : (t : Trace) → env.throttled t ≡ none

  -- The trace when the request of a round goes out.
  abbrev backed_off : ℕ → Trace → Trace
  backed_off zero t = t
  backed_off (suc k) t = t ++ paused (backoff env c.base_delay k) ∷ []

  abbrev pub ready : ℕ → Trace → Trace
  ready k t = if c.limited then backed_off k t ++ queued ∷ [] else backed_off k t

  abbrev pub visited : ℕ → Trace → Trace
  visited k t = ready k t ++ sent (get_request c url) ∷ []

  round-judge :
      IsCalm
      → (k : ℕ) (t : Trace)
      → round env c url k t ≡ judge env (env.respond (ready k t) (get_request c url)) (visited k t)
  unfolding round new_request do_request pause wait_turn get_request
  round-judge calm zero t = ground (arith, calm.open_gate t, calm.accepts)
  round-judge calm (suc k) t = ground (
    arith,
    calm.open_gate (t ++ paused (backoff env c.base_delay k) ∷ []),
    calm.alive t (backoff env c.base_delay k),
    calm.accepts,
  )

  module _ (calm : IsCalm) (n k : ℕ) (last : Option Fault) (t : Trace) where
    -- A round that fails in passing goes on to the next.
    pub loop-passing :
        {e : Fault}
        → passing_fault (env.respond (ready k t) (get_request c url)) ≡ some e
        → loop env c url (suc n) k last t ≡ loop env c url n (suc k) (some e) (visited k t)
    unfolding loop
    loop-passing h = rw (round-judge calm k t, judge-passing env _ (visited k t) h)

    pub loop-success :
        {b : Bytes}
        → success_body (env.respond (ready k t) (get_request c url)) ≡ some b
        → loop env c url (suc n) k last t ≡ (ok b, visited k t)
    unfolding loop
    loop-success h = rw (round-judge calm k t, judge-success env _ (visited k t) h)

    pub loop-final :
        {e : Fault}
        → final_fault (env.respond (ready k t) (get_request c url)) ≡ some e
        → loop env c url (suc n) k last t ≡ (err e, visited k t)
    unfolding loop
    loop-final h = rw (round-judge calm k t, judge-final env _ (visited k t) h)
