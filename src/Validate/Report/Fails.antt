-- ===== src/Validate/Report/Fails.antt =====
-- tee/go/tools/pkg/validate/report.go: HasFailures over the results that are added.
use cipher_sign.Prelude.{
  false, List, [], ◌∷◌, ◌++◌, append-nil, append_assoc, Bool-cases, ◌≡◌, ◌↔◌, inl, inr, refl, sym,
  ◌∙◌,
}
use cipher_sign.Validate.Report.{CheckResult, Report, add_all}
use cipher_sign.Validate.Report.{has_failures, any_fail, is_fail, add}

-- No result fails.
abbrev pub Clean : List CheckResult → Type 0
Clean xs = any_fail xs ≡ false

pub Clean-cons :
    (x : CheckResult) (xs : List CheckResult)
    → Clean (x ∷ xs) ↔ ((is_fail x.status ≡ false) × Clean xs)
unfolding any_fail
Clean-cons x xs = elim (Bool-cases (is_fail x.status)) [
  | inl t ↦ rw t (λ h. absurd (cc), λ (p, q). absurd (cc))
  | inr f ↦ rw f (λ h. (refl, h), λ (p, q). q)
]

pub Clean-nil : Clean []
unfolding any_fail
Clean-nil = refl

pub Clean-append : (xs ys : List CheckResult) → Clean (xs ++ ys) ↔ (Clean xs × Clean ys)
Clean-append [] ys = (λ h. (Clean-nil, h), λ (p, q). q)
Clean-append (x ∷ xs) ys =
    let whole = Clean-cons x (xs ++ ys) in
    let front = Clean-cons x xs in
    let ih = Clean-append xs ys in
    (
      λ h. let (f, r) = whole.0 h in let (p, q) = ih.0 r in (front.1 (f, p), q),
      λ (p, q). let (f, r) = front.0 p in whole.1 (f, ih.1 (r, q)),
    )

pub add_all-results :
    (xs : List CheckResult) (r : Report) → (add_all xs r).results ≡ r.results ++ xs
unfolding add_all add
add_all-results [] r = sym (append-nil r.results)
add_all-results (x ∷ xs) r = add_all-results xs (add x r) ∙ append_assoc r.results (x ∷ []) xs

pub has_failures-add_all :
    (xs : List CheckResult) (r : Report)
    → (has_failures (add_all xs r) ≡ false) ↔ ((has_failures r ≡ false) × Clean xs)
unfolding has_failures
has_failures-add_all xs r = rw (add_all-results xs r) (Clean-append r.results xs)
