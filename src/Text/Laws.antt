-- ===== src/Text/Laws.antt =====
-- Lemmas on trimming and on suffixes.
use mathlib.Core.List.{reverse-append, reverse-cons, reverse-reverse}
use provable_sdk.Base.{
  ℕ, ◌≡◌, ap, ◌∙◌, Bool, true, false, [], ◌∷◌, ◌++◌, reverse, Bytes, Bool-cases, inl, inr,
}
use provable_sdk.Text.{cut_prefix, cut_prefix-append, unreverse, trim_suffix, drop_while, trim_end}

pub drop_while_keep :
    (test : ℕ → Bool) (c : ℕ) (s : Bytes) → test c ≡ false → drop_while test (c ∷ s) ≡ c ∷ s
unfolding drop_while
drop_while_keep test c s h = rw (h, drop_while)

drop_while_drop :
    (test : ℕ → Bool) (c : ℕ) (s : Bytes)
    → test c ≡ true
    → drop_while test (c ∷ s) ≡ drop_while test s
unfolding drop_while
drop_while_drop test c s h = rw (h, drop_while)

pub trim_end_keep :
    (test : ℕ → Bool) (s : Bytes) (c : ℕ)
    → test c ≡ false
    → trim_end test (s ++ c ∷ []) ≡ s ++ c ∷ []
unfolding trim_end
trim_end_keep test s c h =
    ap (λ x. reverse (drop_while test x)) (reverse-append s (c ∷ []))
    ∙ ap reverse (drop_while_keep test c (reverse s) h)
    ∙ reverse-cons c (reverse s)
    ∙ ap (λ x. x ++ c ∷ []) (reverse-reverse s)

-- strings.TrimSuffix takes the suffix off.
pub trim_suffix-append : (s p : Bytes) → trim_suffix (s ++ p) p ≡ s
unfolding trim_suffix
trim_suffix-append s p =
    ap (λ x. unreverse (s ++ p) (cut_prefix x (reverse p))) (reverse-append s p)
    ∙ ap (unreverse (s ++ p)) (cut_prefix-append (reverse p) (reverse s))
    ∙ reverse-reverse s

drop_while_tail :
    (test : ℕ → Bool) (r : Bytes) (c : ℕ) (q : Bytes)
    → test c ≡ false
    → (r' : Bytes) × (drop_while test (r ++ c ∷ q) ≡ r' ++ c ∷ q)
unfolding drop_while
drop_while_tail test [] c q h = ([], drop_while_keep test c q h)
drop_while_tail test (x ∷ r) c q h = elim (Bool-cases (test x)) [
  | inl e ↦
      let (r', p) = drop_while_tail test r c q h in (r', drop_while_drop test x (r ++ c ∷ q) e ∙ p)
  | inr e ↦ (x ∷ r, drop_while_keep test x (r ++ c ∷ q) e)
]

-- What stands up to a byte that is kept stays.
pub trim_end-keeps :
    (test : ℕ → Bool) (s : Bytes) (c : ℕ) (rest : Bytes)
    → test c ≡ false
    → (rest' : Bytes) × (trim_end test ((s ++ c ∷ []) ++ rest) ≡ (s ++ c ∷ []) ++ rest')
unfolding trim_end
trim_end-keeps test s c rest h =
    let (r', p) = drop_while_tail test (reverse rest) c (reverse s) h in
    (
      reverse r',
      ap (λ x. reverse (drop_while test x))
            (reverse-append (s ++ c ∷ []) rest
              ∙ ap (λ x. reverse rest ++ x) (reverse-append s (c ∷ [])))
          ∙ ap reverse p
          ∙ reverse-append r' (c ∷ reverse s)
          ∙ ap (λ x. x ++ reverse r') (reverse-cons c (reverse s))
          ∙ ap (λ x. (x ++ c ∷ []) ++ reverse r') (reverse-reverse s),
    )
