-- ===== src/Commands/CheckTeeState/Sections/Shown.antt =====
-- tee/go/tools/cmd/check-tee-state/main.go: which extension ids the two sections on them show.
use cipher_sign.Prelude.{
  ℕ, true, not, ◌&&◌, List, [], ◌∷◌, ◌==◌, ==_iff, Result, ok, err, Bool-cases, ◌≡◌, ◌↔◌, ◌⊎◌, inl,
  inr, refl, sym, arith,
}
use cipher_sign.Prelude.Text.{String}
use mathlib.Core.Path.{subst}
use cipher_sign.Commands.CheckTeeState.Sections.{was_seen, unseen, active_calls, sender_entries}

abbrev pub IsIn : ℕ → List ℕ → Type 0
IsIn x [] = ⊥
IsIn x (y ∷ ys) = (x ≡ y) ⊎ IsIn x ys

abbrev pub Distinct : List ℕ → Type 0
Distinct [] = Unit {0}
Distinct (x ∷ xs) = (¬ IsIn x xs) × Distinct xs

abbrev pub ids_of : List (ℕ × String) → List ℕ
ids_of [] = []
ids_of ((id, label) ∷ rest) = id ∷ ids_of rest

was_seen-IsIn : (xs : List ℕ) (x : ℕ) → (was_seen xs x ≡ true) ↔ IsIn x xs
unfolding was_seen
was_seen-IsIn [] x = (λ h. absurd (cc h), λ h. absurd h)
was_seen-IsIn (y ∷ ys) x =
    let (there, back) = was_seen-IsIn ys x in
    elim (Bool-cases (y == x)) [
      | inl t ↦ rw t ((λ h. inl (sym ((==_iff y x).0 t))), λ h. refl)
      | inr f ↦
          rw f
            ((λ h. inr (there h)), λ h. elim h [ inl e ↦ absurd (ground arith) | inr h ↦ back h ])
    ]

unseen_members :
    (seen : List ℕ) (xs : List (ℕ × String)) (x : ℕ)
    → IsIn x (ids_of (unseen seen xs)) ↔ (IsIn x (ids_of xs) × (¬ IsIn x seen))
unfolding unseen
unseen_members seen [] x = ((λ h. absurd h), λ (h, q). h)
unseen_members seen ((ext, label) ∷ rest) x =
    let (there, back) = was_seen-IsIn seen ext in
    elim (Bool-cases (was_seen seen ext)) [
      | inl t ↦
          let (split, join) = unseen_members seen rest x in
          rw t (
            (λ h. let (p, q) = split h in (inr p, q)),
            λ (h, q). elim h [
              | inl e ↦ absurd (q (subst (λ y. IsIn y seen) (sym e) (there t)))
              | inr p ↦ join (p, q)
            ],
          )
      | inr f ↦
          let (split, join) = unseen_members (ext ∷ seen) rest x in
          rw f (
            (λ h. elim h [
              | inl e ↦ (inl e, λ s. absurd (cc (f, back (subst (λ y. IsIn y seen) e s))))
              | inr h ↦ let (p, q) = split h in (inr p, λ s. q (inr s))
            ]),
            λ (h, q). elim h [
              | inl e ↦ inl e
              | inr p ↦ elim (Bool-cases (x == ext)) [
                | inl t ↦ inl ((==_iff x ext).0 t)
                | inr g ↦
                    inr (join (p, λ s. elim s [ inl e ↦ absurd (ground arith) | inr s ↦ q s ]))
              ]
            ],
          )
    ]

unseen-Distinct : (seen : List ℕ) (xs : List (ℕ × String)) → Distinct (ids_of (unseen seen xs))
unfolding unseen
unseen-Distinct seen [] = tt
unseen-Distinct seen ((ext, label) ∷ rest) = elim (Bool-cases (was_seen seen ext)) [
  | inl t ↦ rw t (unseen-Distinct seen rest)
  | inr f ↦ rw f (
    (λ h. ((unseen_members (ext ∷ seen) rest ext).0 h).1 (inl refl)),
    unseen-Distinct (ext ∷ seen) rest,
  )
]

-- The id of the TEE's record, where it could be read.
abbrev pub OfRecord : Result String ℕ → ℕ → Type 0
OfRecord (err text) x = ⊥
OfRecord (ok onchain) x = x ≡ onchain

-- The id of the proxy, of the instruction sender, or of the TEE's record.
abbrev pub Reported : ℕ → ℕ → Result String ℕ → ℕ → Type 0
Reported proxy is onchain x = (x ≡ proxy) ⊎ ((x ≡ is) ⊎ OfRecord onchain x)

active_calls-Distinct :
    (proxy is : ℕ) (onchain : Result String ℕ) → Distinct (ids_of (active_calls proxy is onchain))
unfolding active_calls
active_calls-Distinct proxy is (err text) = elim (Bool-cases (is == proxy)) [
  | inl t ↦ rw t ((λ h. h), tt)
  | inr f ↦ rw f ((λ h. ground arith), ((λ h. h), tt))
]
active_calls-Distinct proxy is (ok onchain) = elim (Bool-cases (is == proxy)) [
  | inl t ↦ elim (Bool-cases (not (onchain == proxy) && not (onchain == is))) [
    | inl u ↦ rw (t, u) ((λ h. ground arith), ((λ h. h), tt))
    | inr v ↦ rw (t, v) ((λ h. h), tt)
  ]
  | inr f ↦ elim (Bool-cases (not (onchain == proxy) && not (onchain == is))) [
    | inl u ↦ rw (f, u) ((λ h. ground arith), ((λ h. ground arith), ((λ h. h), tt)))
    | inr v ↦ rw (f, v) ((λ h. ground arith), ((λ h. h), tt))
  ]
]

active_calls-Reported_iff :
    (proxy is : ℕ) (onchain : Result String ℕ) (x : ℕ)
    → IsIn x (ids_of (active_calls proxy is onchain)) ↔ Reported proxy is onchain x
unfolding active_calls
active_calls-Reported_iff proxy is (err text) x = elim (Bool-cases (is == proxy)) [
  | inl t ↦ rw t ((λ h. ground arith), λ h. ground arith)
  | inr f ↦ rw f ((λ h. ground arith), λ h. ground arith)
]
active_calls-Reported_iff proxy is (ok onchain) x = elim (Bool-cases (is == proxy)) [
  | inl t ↦ elim (Bool-cases (not (onchain == proxy) && not (onchain == is))) [
    | inl u ↦ rw (t, u) ((λ h. ground arith), λ h. ground arith)
    | inr v ↦ rw (t, v) ((λ h. ground arith), λ h. ground arith)
  ]
  | inr f ↦ elim (Bool-cases (not (onchain == proxy) && not (onchain == is))) [
    | inl u ↦ rw (f, u) ((λ h. ground arith), λ h. ground arith)
    | inr v ↦ rw (f, v) ((λ h. ground arith), λ h. ground arith)
  ]
]

sender_entries-Reported_iff :
    (proxy is : ℕ) (onchain : Result String ℕ) (x : ℕ)
    → IsIn x (ids_of (sender_entries proxy is onchain)) ↔ Reported proxy is onchain x
sender_entries-Reported_iff proxy is (err text) x = ((λ h. h), λ h. h)
sender_entries-Reported_iff proxy is (ok onchain) x = ((λ h. ground arith), λ h. ground arith)

-- The section on the active sets and the one on the registered senders show no extension id twice, and
-- both show just the ids of the proxy, of the instruction sender and, where it could be read, of
-- the TEE's record; the second does so in whatever order the map of senders is run through.
pub sections-Distinct :
    (proxy is : ℕ) (onchain : Result String ℕ) (entries : List (ℕ × String)) (x : ℕ)
    → ((y : ℕ) → IsIn y (ids_of entries) ↔ IsIn y (ids_of (sender_entries proxy is onchain)))
    → Distinct (ids_of (active_calls proxy is onchain))
      × (IsIn x (ids_of (active_calls proxy is onchain)) ↔ Reported proxy is onchain x)
      × Distinct (ids_of (unseen [] entries))
      × (IsIn x (ids_of (unseen [] entries)) ↔ Reported proxy is onchain x)
sections-Distinct proxy is onchain entries x same =
    let (split, join) = unseen_members [] entries x in
    let (there, back) = sender_entries-Reported_iff proxy is onchain x in
    (
      active_calls-Distinct proxy is onchain,
      active_calls-Reported_iff proxy is onchain x,
      unseen-Distinct [] entries,
      ((λ h. there ((same x).0 (split h).0)), λ r. join ((same x).1 (back r), λ e. e)),
    )
