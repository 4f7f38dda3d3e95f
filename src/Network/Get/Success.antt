-- ===== src/Network/Get/Success.antt =====
-- What the success of NetworkClient.get means.
use mathlib.Core.Path.{subst, sym}
use provable_sdk.Base.{
  ℕ, zero, suc, ◌≡◌, refl, true, none, some, [], ◌∷◌, ◌++◌, arith, pos, rounds, Bytes, inl, inr,
  Bool-cases, ◌==◌, if◌then◌else◌,
}
use provable_sdk.Fault.{Fault}
use provable_sdk.Exec.{Result, ok, err, pure, ◌>>=◌}
use provable_sdk.Http.{Headers}
use provable_sdk.Http.Env.{Response, Exchange, failed, answered, sent, Trace, Env, Net, do_request}
use provable_sdk.Http.Ensures.{
  OnSuccess, Ensures, on_success, Ensures-do_request, Ensures-new_request, Ensures-bind,
  Ensures-rest,
}
use provable_sdk.Network.{NetworkClient}
use provable_sdk.Network.Get.{
  Verdict, give, again, get_request, finish, is_transient, status_fault, retry_after, judge_body,
  judge_read, judge, go_on, round, loop, fetch,
}
use provable_sdk.Network.Get.Steps.{success_body}

module _ (env : Env) (c : NetworkClient) (url : Bytes) where
  -- The last action is the GET, and the server's answer to it is a 200 with the body.
  abbrev pub EndsInSuccess : Bytes → Trace → Type 0
  EndsInSuccess b u =
      (t : Trace) × (u ≡ t ++ sent (get_request c url) ∷ [])
      × (success_body (env.respond t (get_request c url)) ≡ some b)

  abbrev GivesSuccess : Verdict → Trace → Type 0
  GivesSuccess (give b) u = EndsInSuccess b u
  GivesSuccess (again e) u = Unit

  judge_body_gives :
      (status : ℕ) (h : Headers) (body : Bytes) (t : Trace)
      → (status == 200 ≡ true → EndsInSuccess body t)
      → OnSuccess GivesSuccess (judge_body env status h body t).0 (judge_body env status h body t).1
  unfolding judge_body
  judge_body_gives status h body t good = elim (Bool-cases (status == 200)) [
    | inl e ↦ rw e (good e)
    | inr e ↦ rw e (elim (Bool-cases (is_transient status)) [
      | inl e' ↦ rw e' (
          (Ensures-rest {Q = GivesSuccess} (if status == 429 then retry_after env h else pure tt)
              (λ _. pure (again (status_fault status body))) (λ _. record { at = λ u. tt })).at
            t)
      | inr e' ↦ rw e' tt
    ])
  ]

  judge_read_gives :
      (r : Response) (body : Result Bytes) (t : Trace)
      → (r.status == 200 ≡ true → (b : Bytes) → body ≡ ok b → EndsInSuccess b t)
      → OnSuccess GivesSuccess
          (judge_read env r.status r.headers body t).0
          (judge_read env r.status r.headers body t).1
  unfolding judge_read
  judge_read_gives r (err e) t good = tt
  judge_read_gives r (ok b) t good = judge_body_gives r.status r.headers b t (λ e. good e b refl)

  judge_gives :
      (t : Trace) (x : Exchange)
      → env.respond t (get_request c url) ≡ x
      → OnSuccess GivesSuccess
          (judge env x (t ++ sent (get_request c url) ∷ [])).0
          (judge env x (t ++ sent (get_request c url) ∷ [])).1
  unfolding judge
  judge_gives t (failed e) h = tt
  judge_gives t (answered r) h =
      judge_read_gives r r.body (t ++ sent (get_request c url) ∷ [])
        (λ e b e'. (t, refl, rw h (ground (arith, e, e'))))

  issue-Ensures : Ensures GivesSuccess (do_request env (get_request c url) >>= judge env)
  issue-Ensures = Ensures-do_request env (get_request c url) (judge env) (λ t. judge_gives t _ refl)

  round-Ensures : (k : ℕ) → Ensures GivesSuccess (round env c url k)
  unfolding round
  round-Ensures k = search (Ensures-rest, Ensures-new_request, issue-Ensures)

  after_gives :
      (go : Fault → Net Bytes) (v : Verdict) (t : Trace)
      → ((e : Fault) → Ensures EndsInSuccess (go e))
      → GivesSuccess v t
      → OnSuccess EndsInSuccess (go_on v go t).0 (go_on v go t).1
  unfolding go_on
  after_gives go (give body) t h good = good
  after_gives go (again e) t h good = (h e).at t

  loop-Ensures : (n k : ℕ) (e : Fault) → Ensures EndsInSuccess (loop env c url n k (some e))
  unfolding loop finish
  loop-Ensures zero k e = record { at = λ t. tt }
  loop-Ensures (suc n) k e =
      Ensures-bind GivesSuccess (round env c url k) _ (round-Ensures k)
        (λ v t. after_gives _ v t (loop-Ensures n (suc k)))

  first-Ensures : (m : ℕ) → Ensures EndsInSuccess (loop env c url (suc m) 0 none)
  unfolding loop
  first-Ensures m =
      Ensures-bind GivesSuccess (round env c url 0) _ (round-Ensures 0)
        (λ v t. after_gives _ v t (loop-Ensures m 1))

  fetch-Ensures : {m : ℕ} → c.max_retries ≡ pos m → Ensures EndsInSuccess (fetch env c url)
  unfolding fetch
  fetch-Ensures {m} e =
      subst (λ r. Ensures EndsInSuccess (loop env c url (rounds r) 0 none)) (sym e)
        (first-Ensures m)

  -- If the client allows `m` retries and `get` returns a body, then its last action was the client's
  -- GET of the URL, and the server answered that with status 200 and this body.
  pub fetch_success :
      (m : ℕ) (t : Trace) {b : Bytes} {u : Trace}
      → c.max_retries ≡ pos m
      → fetch env c url t ≡ (ok b, u)
      → EndsInSuccess b u
  fetch_success m t e h = on_success EndsInSuccess (fetch env c url) t (fetch-Ensures e) h
