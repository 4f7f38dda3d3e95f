-- ===== src/Bridge/Rust/Adding.antt =====
-- rust-bridge/src/authorize.rs: the loop that adds the imports to the process.
use mathlib.Core.Path.{subst, sym}
use provable_sdk.Base.{
  ℕ, ◌+◌, ◌≡◌, refl, ap, inl, inr, List, [], ◌∷◌, ◌++◌, Bytes, codes, length, arith, ◌↔◌,
}
use provable_sdk.Bridge.Rust.{done, failed, map_err, prefixed}
use provable_sdk.Bridge.Rust.Crates.{Crates}
use provable_sdk.Bridge.Rust.Pointer.{numbered}
use provable_sdk.Bridge.Rust.Authorize.{add_imports}
use provable_sdk.Bridge.Rust.Outcomes.{
  >>=-eq-done, >>=-eq-failed, done_inj, map_err-eq-done, map_err-eq-failed,
}

module _ (k : Crates) where
  -- The programs of the sources, added one by one in this order, take the first process to the second.
  pub data Adds : k.Process → List Bytes → k.Process → Type 0 where
    nothing : {p : k.Process} → Adds p [] p
    next :
        {p q r : k.Process} {program : k.Program} {src : Bytes} {rest : List Bytes}
        → k.parse_program src ≡ done program
        → k.add_program p program ≡ done q
        → Adds q rest r
        → Adds p (src ∷ rest) r

  -- The message that the loop fails with at import `i`, and why.
  pub data Blames (p : k.Process) (i : ℕ) (src : Bytes) : Bytes → Type 0 where
    unparsed :
        {x : Bytes}
        → k.parse_program src ≡ failed x
        → Blames p i src (prefixed (numbered (codes "parse import ") i) x)
    rejected :
        {program : k.Program} {x : Bytes}
        → k.parse_program src ≡ done program
        → k.add_program p program ≡ failed x
        → Blames p i src (prefixed (codes "add import '" ++ (k.program_id program ++ codes "'")) x)

  -- The import that the loop stops at: those before it were added, and the message blames it.
  pub record Stops (i : ℕ) (srcs : List Bytes) (p : k.Process) (e : Bytes) : Type 0 where
    pub before : List Bytes
    pub src : Bytes
    pub after : List Bytes
    pub reached : k.Process
    pub split : srcs ≡ before ++ src ∷ after
    pub added : Adds p before reached
    pub blamed : Blames reached (i + length before) src e

  add_imports-done :
      (i : ℕ) (srcs : List Bytes) (p : k.Process) {r : k.Process}
      → add_imports k i srcs p ≡ done r
      → Adds p srcs r
  unfolding add_imports
  add_imports-done i [] p h = subst (Adds p []) (done_inj h) nothing
  add_imports-done i (src ∷ rest) p h =
      let (program, e, h1) = >>=-eq-done (map_err _ (k.parse_program src)) _ h in
      let (q, e', h2) = >>=-eq-done (map_err _ (k.add_program p program)) _ h1 in
      next (map_err-eq-done _ _ e) (map_err-eq-done _ _ e') (add_imports-done (i + 1) rest q h2)

  Adds-add_imports :
      (i : ℕ) (srcs : List Bytes) {p r : k.Process}
      → Adds p srcs r
      → add_imports k i srcs p ≡ done r
  unfolding add_imports
  Adds-add_imports i [] nothing = refl
  Adds-add_imports i (src ∷ rest) (next e e' a) = rw (e, e') (Adds-add_imports (i + 1) rest a)

  -- The loop ends with a process exactly when the programs can be added one by one in the order of the
  -- sources, and the process is what this comes to.
  pub add_imports-Adds :
      (i : ℕ) (srcs : List Bytes) (p r : k.Process)
      → (add_imports k i srcs p ≡ done r) ↔ Adds p srcs r
  add_imports-Adds i srcs p r = (add_imports-done i srcs p, Adds-add_imports i srcs)

  first-Stops :
      (i : ℕ) (src : Bytes) (rest : List Bytes) (p : k.Process) {e : Bytes}
      → Blames p i src e
      → Stops i (src ∷ rest) p e
  first-Stops i src rest p {e} b = record {
    before = [];
    src = src;
    after = rest;
    reached = p;
    split = refl;
    added = nothing;
    blamed = subst (λ n. Blames p n src e) (omega arith) b;
  }

  later-Stops :
      (i : ℕ) (src : Bytes) (rest : List Bytes) {p q : k.Process} {program : k.Program} {e : Bytes}
      → k.parse_program src ≡ done program
      → k.add_program p program ≡ done q
      → Stops (i + 1) rest q e
      → Stops i (src ∷ rest) p e
  later-Stops i src rest {e = e} parsed added s = record {
    before = src ∷ s.before;
    src = s.src;
    after = s.after;
    reached = s.reached;
    split = ap (λ r. src ∷ r) s.split;
    added = next parsed added s.added;
    blamed = subst (λ n. Blames s.reached n s.src e) (omega arith) s.blamed;
  }

  -- If the loop fails, then at the first import that cannot be parsed or added, with a message that
  -- names it by its number or its program ID; the imports before it were added.
  pub add_imports-Stops :
      (i : ℕ) (srcs : List Bytes) (p : k.Process) {e : Bytes}
      → add_imports k i srcs p ≡ failed e
      → Stops i srcs p e
  unfolding add_imports
  add_imports-Stops i [] p h = absurd (cc h)
  add_imports-Stops i (src ∷ rest) p {e} h =
      elim (>>=-eq-failed (map_err _ (k.parse_program src)) _ h) [
        | inl f ↦
            let (x, g, t) = map_err-eq-failed _ (k.parse_program src) f in
            first-Stops i src rest p (subst (Blames p i src) (sym t) (unparsed g))
        | inr (program, f, h1) ↦
            let parsed = map_err-eq-done _ (k.parse_program src) f in
            elim (>>=-eq-failed (map_err _ (k.add_program p program)) _ h1) [
              | inl f' ↦
                  let (x, g, t) = map_err-eq-failed _ (k.add_program p program) f' in
                  first-Stops i src rest p (subst (Blames p i src) (sym t) (rejected parsed g))
              | inr (q, f', h2) ↦
                  later-Stops i src rest parsed (map_err-eq-done _ (k.add_program p program) f')
                    (add_imports-Stops (i + 1) rest q h2)
            ]
      ]
