-- ===== src/Fcc/Diag/Search.antt =====
-- tee/go/tools/pkg/fccutils/diag.go: the search for a custom error.
use cipher_sign.Prelude.{
  List, [], ◌∷◌, Option, none, some, Bytes, take, All, eq_bytes, eq_bytes_refl, eq_bytes→eq,
  Bool-cases, Option-cases, ◌≡◌, ◌≢◌, ◌↔◌, inl, inr, refl, ap,
}
use cipher_sign.Prelude.Text.{String}
use cipher_sign.Chain.{Chain}
use cipher_sign.Fcc.Diag.{
  AbiError, Diagnostics, unknown_selector, find_error, find_source, by_selector,
}

-- No error of the sources that load has the selector.
abbrev pub Unknown : Bytes → List (String × Option (List AbiError)) → Type 0
Unknown selector [] = Unit {0}
Unknown selector ((name, none) ∷ sources) = Unknown selector sources
Unknown selector ((name, some errors) ∷ sources) =
    All (λ e. e.error_id ≢ selector) errors × Unknown selector sources

find_error-none :
    (selector : Bytes) (errors : List AbiError)
    → (find_error selector errors ≡ none) ↔ All (λ e. e.error_id ≢ selector) errors
unfolding find_error
find_error-none selector [] = (λ h. tt, λ h. refl)
find_error-none selector (e ∷ es) = elim (Bool-cases (eq_bytes e.error_id selector)) [
  | inl t ↦
      rw t (λ h. absurd (cc h), λ (other, rest). absurd (other (eq_bytes→eq e.error_id selector t)))
  | inr f ↦
      let (there, back) = find_error-none selector es in
      rw f (
        (λ h. (
          (λ same. absurd (cc (f, ap (λ z. eq_bytes z selector) same, eq_bytes_refl selector))),
          there h,
        )),
        λ (other, rest). back rest,
      )
]

find_source-none :
    (selector : Bytes) (sources : List (String × Option (List AbiError)))
    → (find_source selector sources ≡ none) ↔ Unknown selector sources
unfolding find_source
find_source-none selector [] = (λ h. tt, λ h. refl)
find_source-none selector ((name, none) ∷ sources) = find_source-none selector sources
find_source-none selector ((name, some errors) ∷ sources) =
    let (there, back) = find_source-none selector sources in
    let (all, none_here) = find_error-none selector errors in
    elim (Option-cases (find_error selector errors)) [
      | inl p ↦ rw (p, find_source) ((λ h. (all p, there h)), λ (h, rest). back rest)
      | inr (e, p) ↦
          rw (p, find_source) ((λ h. absurd (cc h)), λ (h, rest). absurd (cc (p, none_here h)))
    ]

-- Revert data with a selector is reported as unknown exactly where no custom error of the ABIs that
-- load has that selector.
pub by_selector-Unknown_iff :
    (c : Chain) (d : Diagnostics) (revert_data : Bytes)
    → (by_selector c d revert_data ≡ unknown_selector (take 4 revert_data) revert_data)
      ↔ Unknown (take 4 revert_data) d.abi_sources
unfolding by_selector
by_selector-Unknown_iff c d revert_data =
    let (there, back) = find_source-none (take 4 revert_data) d.abi_sources in
    elim (Option-cases (find_source (take 4 revert_data) d.abi_sources)) [
      | inl p ↦ rw p ((λ h. there p), λ h. refl)
      | inr (x, p) ↦ rw p ((λ h. absurd (cc h)), λ h. absurd (cc (p, back h)))
    ]
