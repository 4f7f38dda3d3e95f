-- ===== src/Http/Ensures.antt =====
-- What the success of an action says of its result and of the trace that it leaves.
use mathlib.Core.Path.{subst}
use provable_sdk.Base.{◌≡◌, ◌++◌, ◌∷◌, [], inl, inr, Option-cases}
use provable_sdk.Fault.{Fault}
use provable_sdk.Exec.{Result, ok, err, raise, on_fault, map_fault, continue, ◌>>=◌}
use provable_sdk.Http.Env.{sent, Request, Exchange, Trace, Env, Net, do_request, new_request}

abbrev pub OnSuccess : {A : Type 0} → (A → Trace → Type 0) → Result A → Trace → Type 0
OnSuccess Q (ok a) u = Q a u
OnSuccess Q (err e) u = Unit

pub record Ensures {A : Type 0} (Q : A → Trace → Type 0) (m : Net A) : Type 0 where
  pub at : (t : Trace) → OnSuccess Q (m t).0 (m t).1

OnSuccess-fault :
    {A : Type 0} (Q : A → Trace → Type 0) (g : Fault → Fault) (r : Result A) (u : Trace)
    → OnSuccess Q r u
    → OnSuccess Q (map_fault g r) u
OnSuccess-fault Q g (ok a) u h = h
OnSuccess-fault Q g (err e) u h = tt

OnSuccess-any : {A : Type 0} (r : Result A) (u : Trace) → OnSuccess (λ _ _. Unit) r u
OnSuccess-any (ok a) u = tt
OnSuccess-any (err e) u = tt

-- The postcondition of a run that is known to have succeeded.
pub on_success :
    {A : Type 0} (Q : A → Trace → Type 0) (m : Net A) (t : Trace) {a : A} {u : Trace}
    → Ensures Q m
    → m t ≡ (ok a, u)
    → Q a u
on_success {A} Q m t h e = subst (λ (p : Result A × Trace). OnSuccess Q p.0 p.1) e (h.at t)

OnSuccess-continue :
    {A B : Type 0} (R : A → Trace → Type 0) (Q : B → Trace → Type 0) (r : Result A) (u : Trace)
    (f : A → Net B)
    → OnSuccess R r u
    → ((a : A) (t : Trace) → R a t → OnSuccess Q (f a t).0 (f a t).1)
    → OnSuccess Q (continue r f u).0 (continue r f u).1
OnSuccess-continue R Q (ok a) u f h hf = hf a u h
OnSuccess-continue R Q (err e) u f h hf = tt

module _ {A : Type 0} {Q : A → Trace → Type 0} where
  pub Ensures-raise : (e : Fault) → Ensures Q (raise e)
  Ensures-raise e = record { at = λ t. tt }

  pub Ensures-on_fault : (g : Fault → Fault) (m : Net A) → Ensures Q m → Ensures Q (on_fault g m)
  Ensures-on_fault g m h = record { at = λ t. OnSuccess-fault Q g (m t).0 (m t).1 (h.at t) }

  pub Ensures-do_request :
      (env : Env) (q : Request) (f : Exchange → Net A)
      → ((t : Trace)
          → OnSuccess Q
              (f (env.respond t q) (t ++ sent q ∷ [])).0
              (f (env.respond t q) (t ++ sent q ∷ [])).1)
      → Ensures Q (do_request env q >>= f)
  unfolding do_request
  Ensures-do_request env q f h = record { at = h }

  pub Ensures-new_request :
      (env : Env) (q : Request) (f : Request → Net A)
      → Ensures Q (f q)
      → Ensures Q (new_request env q >>= f)
  unfolding new_request
  Ensures-new_request env q f h = record {
    at = λ t. elim (Option-cases (env.reject_url q.url)) [
      | inl e ↦ rw e (h.at t)
      | inr (x, e) ↦ rw e tt
    ];
  }

module _ {A B : Type 0} (R : A → Trace → Type 0) {Q : B → Trace → Type 0} where
  pub Ensures-bind :
      (m : Net A) (f : A → Net B)
      → Ensures R m
      → ((a : A) (t : Trace) → R a t → OnSuccess Q (f a t).0 (f a t).1)
      → Ensures Q (m >>= f)
  Ensures-bind m f hm hf = record {
    at = λ t. OnSuccess-continue R Q (m t).0 (m t).1 f (hm.at t) hf;
  }

-- Where the last part ensures the postcondition by itself, what stands before it does not matter.
pub Ensures-rest :
    {A B : Type 0} {Q : B → Trace → Type 0} (m : Net A) (f : A → Net B)
    → ((a : A) → Ensures Q (f a))
    → Ensures Q (m >>= f)
Ensures-rest m f h =
    Ensures-bind (λ _ _. Unit) m f (record { at = λ t. OnSuccess-any (m t).0 (m t).1 })
      (λ a t _. (h a).at t)
