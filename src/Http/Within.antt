-- ===== src/Http/Within.antt =====
-- What an action may add to the trace: only actions of a given kind, and only so many requests.
use provable_sdk.Base.{
  ℕ, suc, ◌+◌, ◌≤◌, ◌≡◌, refl, sym, ◌∙◌, ap, Bool, true, false, Option, none, some, List, [], ◌∷◌,
  ◌++◌, append-nil, append_assoc, arith, All, All-append, if◌then◌else◌, inl, inr, Option-cases,
}
use provable_sdk.Fault.{Fault}
use provable_sdk.Exec.{Result, ok, err, pure, raise, lift, or_raise, on_fault, continue, ◌>>=◌}
use provable_sdk.Http.Env.{
  Action, sent, paused, queued, Request, Trace, Env, Net, new_request, do_request, pause, wait_turn,
  Exchange,
}

-- The number of requests among some actions.
pub requests : List Action → ℕ
requests [] = 0
requests (sent q ∷ t) = suc (requests t)
requests (paused d ∷ t) = requests t
requests (queued ∷ t) = requests t

pub requests-append : (s t : List Action) → requests (s ++ t) ≡ requests s + requests t
unfolding requests
requests-append [] t = omega arith
requests-append (sent q ∷ s) t = omega (arith, requests-append s t)
requests-append (paused d ∷ s) t = omega (arith, requests-append s t)
requests-append (queued ∷ s) t = omega (arith, requests-append s t)

-- Every request among the actions is one that `P` allows.
abbrev pub Allows : (Request → Type 0) → Action → Type 0
Allows P (sent q) = P q
Allows P (paused d) = Unit
Allows P queued = Unit

-- From `t` to `u` at most `n` requests were added, all allowed by `P`, and nothing was removed.
abbrev pub Grows : (Request → Type 0) → ℕ → Trace → Trace → Type 0
Grows P n t u = (s : List Action) × (u ≡ t ++ s) × All (Allows P) s × (requests s ≤ n)

All-Allows :
    (P Q : Request → Type 0)
    → ((q : Request) → P q → Q q)
    → (s : List Action) → All (Allows P) s
    → All (Allows Q) s
All-Allows P Q f [] h = tt
All-Allows P Q f (sent q ∷ s) h = (f q (h.0), All-Allows P Q f s (h.1))
All-Allows P Q f (paused d ∷ s) h = (tt, All-Allows P Q f s (h.1))
All-Allows P Q f (queued ∷ s) h = (tt, All-Allows P Q f s (h.1))

-- A weaker predicate, and more requests.
pub Grows-imp :
    (P Q : Request → Type 0) (i n : ℕ) (t u : Trace)
    → ((q : Request) → P q → Q q)
    → i ≤ n
    → Grows P i t u
    → Grows Q n t u
Grows-imp P Q i n t u f le (s, e, h, l) = (s, e, All-Allows P Q f s h, omega arith)

-- Whatever the result, the action does no more than that.
pub record Within {A : Type 0} (P : Request → Type 0) (n : ℕ) (m : Net A) : Type 0 where
  pub at : (t : Trace) → Grows P n t (m t).1

module _ {P : Request → Type 0} where
  pub Grows-refl : (n : ℕ) (t : Trace) → Grows P n t t
  unfolding requests
  Grows-refl n t = ([], sym (append-nil t), tt, omega arith)

  pub Grows-trans :
      (i j n : ℕ) (t : Trace) {u v : Trace}
      → i + j ≤ n
      → Grows P i t u
      → Grows P j u v
      → Grows P n t v
  Grows-trans i j n t le (r, e, hr, lr) (s, f, hs, ls) = (
    r ++ s,
    f ∙ ap (λ x. x ++ s) e ∙ append_assoc t r s,
    All-append (Allows P) r s hr hs,
    omega (arith, requests-append r s),
  )

  pub Within-pure : {A : Type 0} (a : A) → Within P 0 (pure a)
  Within-pure a = record { at = Grows-refl 0 }

  pub Within-raise : {A : Type 0} (e : Fault) → Within P 0 (raise {A = A} e)
  Within-raise e = record { at = Grows-refl 0 }

  pub Within-lift : {A : Type 0} (r : Result A) → Within P 0 (lift r)
  Within-lift r = record { at = Grows-refl 0 }

  -- What follows a value that was computed knows how.
  pub Within-lift_bind :
      {A B : Type 0} (n : ℕ) (r : Result A) (f : A → Net B)
      → ((a : A) → r ≡ ok a → Within P n (f a))
      → Within P n (lift r >>= f)
  Within-lift_bind n (ok a) f h = record { at = (h a refl).at }
  Within-lift_bind n (err e) f h = record { at = Grows-refl n }

  pub Within-le : {A : Type 0} (i n : ℕ) (m : Net A) → i ≤ n → Within P i m → Within P n m
  Within-le i n m le h = record { at = λ t. let (s, e, a, l) = h.at t in (s, e, a, omega arith) }

  pub Within-if :
      {A : Type 0} (n : ℕ) (b : Bool) (m k : Net A)
      → Within P n m
      → Within P n k
      → Within P n (if b then m else k)
  Within-if n true m k hm hk = hm
  Within-if n false m k hm hk = hk

  continue-Grows :
      {A B : Type 0} (i j : ℕ) (r : Result A) (f : A → Net B) (t u : Trace)
      → Grows P i t u
      → ((a : A) → Within P j (f a))
      → Grows P (i + j) t (continue r f u).1
  continue-Grows i j (ok a) f t u g hf = Grows-trans i j (i + j) t (omega arith) g ((hf a).at u)
  continue-Grows i j (err e) f t u (s, eq, a, l) hf = (s, eq, a, omega arith)

  -- What follows a result, on its own.
  pub Grows-rest :
      {A B : Type 0} (n : ℕ) (r : Result A) (f : A → Net B) (t : Trace)
      → ((a : A) → Within P n (f a))
      → Grows P n t (continue r f t).1
  Grows-rest n (ok a) f t h = (h a).at t
  Grows-rest n (err e) f t h = Grows-refl n t

  pub Within-bind :
      {A B : Type 0} (i j : ℕ) (m : Net A) (f : A → Net B)
      → Within P i m
      → ((a : A) → Within P j (f a))
      → Within P (i + j) (m >>= f)
  Within-bind i j m f hm hf = record {
    at = λ t. continue-Grows i j (m t).0 f t (m t).1 (hm.at t) hf;
  }

  pub Within-on_fault :
      {A : Type 0} (n : ℕ) (g : Fault → Fault) (m : Net A)
      → Within P n m
      → Within P n (on_fault g m)
  Within-on_fault n g m h = record { at = λ t. h.at t }

  or_raise-Grows :
      {A : Type 0} (n : ℕ) (o : Option Fault) (a : A) (t u : Trace)
      → Grows P n t u
      → Grows P n t (or_raise o a u).1
  or_raise-Grows n none a t u g = g
  or_raise-Grows n (some e) a t u g = g

  module _ (env : Env) where
    pub Within-new_request : (q : Request) → Within P 0 (new_request env q)
    unfolding new_request
    Within-new_request q = record {
      at = λ t. or_raise-Grows 0 (env.reject_url q.url) q t t (Grows-refl 0 t);
    }

    pub Within-do_request : (q : Request) → P q → Within P 1 (do_request env q)
    unfolding do_request requests
    Within-do_request q h = record { at = λ t. (sent q ∷ [], refl, (h, tt), omega arith) }

    pub Within-pause : (d : ℕ) → Within P 0 (pause env d)
    unfolding pause requests
    Within-pause d = record {
      at = λ t.
          or_raise-Grows 0 (env.interrupted t d) tt t (t ++ paused d ∷ [])
            (paused d ∷ [], refl, (tt, tt), omega arith);
    }

    pub Within-wait_turn : Within P 0 (wait_turn env)
    unfolding wait_turn requests
    Within-wait_turn = record {
      at = λ t.
          or_raise-Grows 0 (env.throttled t) tt t (t ++ queued ∷ [])
            (queued ∷ [], refl, (tt, tt), omega arith);
    }

    Within-issued :
        {A : Type 0} (n : ℕ) (q : Request) (f : Exchange → Net A)
        → P q
        → ((x : Exchange) → Within P n (f x))
        → Within P (suc n) (do_request env q >>= f)
    Within-issued n q f h hf =
        Within-le (1 + n) (suc n) (do_request env q >>= f) (omega arith)
          (Within-bind 1 n (do_request env q) f (Within-do_request q h) hf)

    -- A request is made and handed over: one more than what follows.
    pub Within-issue :
        {A : Type 0} (n : ℕ) (q : Request) (f : Exchange → Net A)
        → P q
        → ((x : Exchange) → Within P n (f x))
        → Within P (suc n) (do req ← new_request env q; x ← do_request env req; f x)
    unfolding new_request
    Within-issue n q f h hf = record {
      at = λ t. elim (Option-cases (env.reject_url q.url)) [
        | inl e ↦ rw e ((Within-issued n q f h hf).at t)
        | inr (x, e) ↦ rw e (Grows-refl (suc n) t)
      ];
    }

    -- The same, where the error of making the request is given a context.
    pub Within-issue_fault :
        {A : Type 0} (n : ℕ) (g : Fault → Fault) (q : Request) (f : Exchange → Net A)
        → P q
        → ((x : Exchange) → Within P n (f x))
        → Within P (suc n) (do req ← on_fault g (new_request env q); x ← do_request env req; f x)
    unfolding new_request
    Within-issue_fault n g q f h hf = record {
      at = λ t. elim (Option-cases (env.reject_url q.url)) [
        | inl e ↦ rw e ((Within-issued n q f h hf).at t)
        | inr (x, e) ↦ rw e (Grows-refl (suc n) t)
      ];
    }

  -- A step that sends nothing.
  pub Within-quiet :
      {A B : Type 0} (n : ℕ) (m : Net A) (f : A → Net B)
      → Within P 0 m
      → ((a : A) → Within P n (f a))
      → Within P n (m >>= f)
  Within-quiet n m f hm hf = Within-le (0 + n) n (m >>= f) (omega arith) (Within-bind 0 n m f hm hf)

pub ruleset within_rules = (
  Within-pure, Within-raise, Within-lift, Within-if, Within-new_request, Within-pause,
  Within-wait_turn, Within-on_fault, Within-quiet, Within-issue,
)
