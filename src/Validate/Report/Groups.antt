-- ===== src/Validate/Report/Groups.antt =====
-- tee/go/tools/pkg/validate/report.go: the counters of Summary and the steps of Fprint.
use cipher_sign.Prelude.{
  ℕ, ◌+◌, ◌≤◌, ◌<◌, Bool, true, false, ◌||◌, List, [], ◌∷◌, ◌++◌, length, if◌then◌else◌, Bool-cases,
  ◌≡◌, ◌↔◌, inl, inr, refl, sym, ap, ◌∙◌, arith,
}
use cipher_sign.Prelude.Text.{String, str_eq, eq_iff, contains}
use cipher_sign.Validate.Report.{Status, pass, warn, fail, skip, CheckResult, Report}
use cipher_sign.Validate.Report.{
  has_failures, counts, Counts, count_loop, count_status, any_fail, is_fail, collect_steps,
  steps_of,
}

abbrev total : Counts → ℕ
total c = c.passed + c.warning + c.failed + c.skipped

count_status-total : (s : Status) (c : Counts) → total (count_status s c) ≡ total c + 1
count_status-total pass c = omega arith
count_status-total warn c = omega arith
count_status-total fail c = omega arith
count_status-total skip c = omega arith

count_loop-total :
    (xs : List CheckResult) (c : Counts) → total (count_loop xs c) ≡ total c + length xs
unfolding count_loop
count_loop-total [] c = omega arith
count_loop-total (x ∷ xs) c =
    count_loop-total xs (count_status x.status c) ∙ (rw (count_status-total x.status c) omega arith)

-- The third counter grows by the results that fail.
count_status-failed :
    (s : Status) (c : Counts) → (count_status s c).failed ≡ (if is_fail s then 1 else 0) + c.failed
count_status-failed pass c = omega arith
count_status-failed warn c = omega arith
count_status-failed fail c = omega arith
count_status-failed skip c = omega arith

count_loop-failed :
    (xs : List CheckResult) (c : Counts)
    → (any_fail xs ≡ true → 0 < (count_loop xs c).failed)
      × (any_fail xs ≡ false → (count_loop xs c).failed ≡ c.failed)
      × (c.failed ≤ (count_loop xs c).failed)
unfolding count_loop any_fail
count_loop-failed [] c = (λ h. absurd (cc), λ _. refl, omega arith)
count_loop-failed (x ∷ xs) c =
    let e = count_status-failed x.status c in
    let (some_fails, none_fails, grows) = count_loop-failed xs (count_status x.status c) in
    elim (Bool-cases (is_fail x.status)) [
      | inl t ↦ let grown = rw t at e in rw t ((λ _. omega arith), (λ h. absurd (cc)), omega arith)
      | inr f ↦
          let same = rw f at e in
          rw f (some_fails, (λ h. none_fails h ∙ (omega (arith, same))), omega arith)
    ]

-- The four counters of the summary add up to the number of results, and the failure test is true
-- exactly when the counter of failures is positive.
pub counts-total :
    (r : Report)
    → ((counts r).passed + (counts r).warning + (counts r).failed + (counts r).skipped
        ≡ length r.results)
      × ((has_failures r ≡ true) ↔ (0 < (counts r).failed))
unfolding counts has_failures
counts-total r =
    let zero_counts : Counts = record { passed = 0; warning = 0; failed = 0; skipped = 0 } in
    let (some_fails, none_fails, grows) = count_loop-failed r.results zero_counts in
    (
      count_loop-total r.results zero_counts ∙ (omega arith),
      (
        some_fails,
        λ h. elim (Bool-cases (any_fail r.results)) [
          | inl t ↦ t
          | inr f ↦ absurd (omega (arith, none_fails f))
        ],
      ),
    )

-- No text stands twice in the list.
abbrev pub Distinct : List String → Type 0
Distinct [] = Unit
Distinct (s ∷ ss) = (contains ss s ≡ false) × Distinct ss

str_eq_refl : (s : String) → str_eq s s ≡ true
str_eq_refl s = (eq_iff s s).1 refl

contains-append :
    (ss ts : List String) (s : String)
    → contains (ss ++ ts) s ≡ (if contains ss s then true else contains ts s)
unfolding contains
contains-append [] ts s = refl
contains-append (x ∷ ss) ts s = elim (Bool-cases (str_eq x s)) [
  | inl t ↦ rw t refl
  | inr f ↦ rw f (contains-append ss ts s)
]

str_eq_sym : (s t : String) → str_eq s t ≡ false → str_eq t s ≡ false
str_eq_sym s t h = elim (Bool-cases (str_eq t s)) [
  | inl e ↦ absurd (cc ((eq_iff s t).1 (sym ((eq_iff t s).0 e))))
  | inr n ↦ n
]

Distinct-append :
    (ss : List String) (x : String) → Distinct ss → contains ss x ≡ false → Distinct (ss ++ x ∷ [])
unfolding contains
Distinct-append [] x d h = (refl, tt)
Distinct-append (s ∷ ss) x (h, d) n = elim (Bool-cases (str_eq s x)) [
  | inl t ↦ absurd (cc)
  | inr f ↦ (
    contains-append ss (x ∷ []) s ∙ (rw (h, str_eq_sym s x f) refl),
    Distinct-append ss x d (rw f at n),
  )
]

collect_steps-Distinct :
    (xs : List CheckResult) (ss : List String) → Distinct ss → Distinct (collect_steps xs ss)
unfolding collect_steps contains
collect_steps-Distinct [] ss d = d
collect_steps-Distinct (x ∷ xs) ss d = elim (Bool-cases (contains ss x.step)) [
  | inl t ↦ rw t (collect_steps-Distinct xs ss d)
  | inr f ↦ rw f (collect_steps-Distinct xs (ss ++ x.step ∷ []) (Distinct-append ss x.step d f))
]

abbrev pub is_present : List CheckResult → String → Bool
is_present [] s = false
is_present (x ∷ xs) s = str_eq x.step s || is_present xs s

if_same : (b : Bool) → b ≡ (if b then true else false)
if_same true = refl
if_same false = refl

if_assoc :
    (a b c : Bool)
    → (if (if a then true else b || false) then true else c) ≡ (if a then true else b || c)
if_assoc true b c = refl
if_assoc false true c = refl
if_assoc false false c = refl

step_known :
    (ss : List String) (s : String) (x : CheckResult) (xs : List CheckResult)
    → contains ss x.step ≡ true
    → (if contains ss s then true else is_present xs s)
      ≡ (if contains ss s then true else is_present (x ∷ xs) s)
step_known ss s x xs t = elim (Bool-cases (str_eq x.step s)) [
  | inl e ↦
      let known : contains ss s ≡ true = ap (contains ss) (sym ((eq_iff x.step s).0 e)) ∙ t in
      rw known refl
  | inr n ↦ rw n refl
]

collect_steps-contains :
    (xs : List CheckResult) (ss : List String) (s : String)
    → contains (collect_steps xs ss) s ≡ (if contains ss s then true else is_present xs s)
unfolding collect_steps contains
collect_steps-contains [] ss s = if_same (contains ss s)
collect_steps-contains (x ∷ xs) ss s = elim (Bool-cases (contains ss x.step)) [
  | inl t ↦ rw t (collect_steps-contains xs ss s ∙ step_known ss s x xs t)
  | inr f ↦ rw f (
      collect_steps-contains xs (ss ++ x.step ∷ []) s
      ∙ (rw (contains-append ss (x.step ∷ []) s) (if_assoc (contains ss s) (str_eq x.step s) _)))
]

-- The steps that the printer goes through are all different, and are just the steps of the
-- results.
pub steps_of-Distinct :
    (r : Report)
    → Distinct (steps_of r) × ((s : String) → contains (steps_of r) s ≡ is_present r.results s)
unfolding steps_of contains
steps_of-Distinct r =
    (collect_steps-Distinct r.results [] tt, λ s. collect_steps-contains r.results [] s)
