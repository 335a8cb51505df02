-- ===== src/Validate/Registration/Duplicates.antt =====
-- tee/go/tools/pkg/validate/checks.go: the check R7 for a second extension with the same sender.
use cipher_sign.Prelude.{
  ℕ, zero, suc, ◌+◌, ◌^◌, ◌≤◌, ◌<◌, true, List, [], ◌∷◌, some, length, ltb, ◌==◌, ltb→lt, lt→ltb,
  ==_iff, Result, ok, Result-cases, Bool-cases, ◌≡◌, ◌↔◌, ◌⊎◌, inl, inr, refl, sym, ap, ◌∙◌, arith,
}
use cipher_sign.Prelude.Text.{String}
use cipher_sign.Validate.Report.{pass, warn, CheckResult}
use mathlib.Core.Path.{subst}
use cipher_sign.Validate.World.{Eth, Client, Registry}
use cipher_sign.App.Int64.{is_negative, to_int64}
use cipher_sign.Validate.EnvFile.{address_regex}
use cipher_sign.Validate.Registration.{matching_ids, rounds_of, r7}

abbrev Occurs : ℕ → List ℕ → Type 0
Occurs n [] = ⊥
Occurs n (x ∷ xs) = (n ≡ x) ⊎ Occurs n xs

first_of : (xs : List ℕ) → 0 < length xs → (n : ℕ) × Occurs n xs
first_of [] h = absurd (omega arith)
first_of (x ∷ xs) h = (x, inl refl)

length_of : (xs : List ℕ) (n : ℕ) → Occurs n xs → 0 < length xs
length_of [] n h = absurd h
length_of (x ∷ xs) n h = omega arith

other : {A : Type 0} (s t : A) → ◌≡◌ {A = Result String A} (ok s) (ok t) → s ≡ t
other s t h = cc

module _ (e : Eth) (registry : Registry e) where
  -- The registry names the address as the sender of the id.
  abbrev pub IsSender : e.Address → ℕ → Type 0
  IsSender expected i =
      (sender : e.Address) × (registry.get_tee_extension_instructions_sender i ≡ ok sender)
      × (e.address_eq sender expected ≡ true)

  -- What one round adds.
  matching_ids-suc :
      (expected : e.Address) (i rounds : ℕ)
      → (IsSender expected i
          × (matching_ids e registry expected i (suc rounds)
              ≡ i ∷ matching_ids e registry expected (i + 1) rounds))
        ⊎ ((¬ IsSender expected i)
            × (matching_ids e registry expected i (suc rounds)
                ≡ matching_ids e registry expected (i + 1) rounds))
  unfolding matching_ids
  matching_ids-suc expected i rounds =
      elim (Result-cases (registry.get_tee_extension_instructions_sender i)) [
        | inr (x, p) ↦ inr ((λ (s, q, r). absurd (cc)), rw (p, matching_ids) refl)
        | inl (s, p) ↦ elim (Bool-cases (e.address_eq s expected)) [
          | inl t ↦ inl ((s, p, t), rw (p, t, matching_ids) refl)
          | inr f ↦ inr (
            (λ (s', q, r).
                absurd (cc (ap (λ z. e.address_eq z expected) (other s s' (sym p ∙ q))))),
            rw (p, f, matching_ids) refl,
          )
        ]
      ]

  Occurs-matching_ids :
      (expected : e.Address) (i rounds n : ℕ)
      → Occurs n (matching_ids e registry expected i rounds)
        ↔ ((i ≤ n) × (n < i + rounds) × IsSender expected n)
  Occurs-matching_ids expected i zero n =
      unfold matching_ids in (λ h. absurd h, λ (p, q, r). absurd (omega arith))
  Occurs-matching_ids expected i (suc rounds) n =
      let ih = Occurs-matching_ids expected (i + 1) rounds n in
      elim (matching_ids-suc expected i rounds) [
        | inl (is, p) ↦ rw p (
          λ h. elim h [
            | inl q ↦ (omega arith, omega arith, subst (IsSender expected) (sym q) is)
            | inr q ↦ let (a, b, c) = ih.0 q in (omega arith, omega arith, c)
          ],
          λ (a, b, c). elim (Bool-cases (n == i)) [
            | inl t ↦ inl ((==_iff n i).0 t)
            | inr f ↦ inr (ih.1 (ground arith, omega arith, c))
          ],
        )
        | inr (not_it, p) ↦ rw p (
          λ q. let (a, b, c) = ih.0 q in (omega arith, omega arith, c),
          λ (a, b, c). elim (Bool-cases (n == i)) [
            | inl t ↦ absurd (not_it (subst (IsSender expected) ((==_iff n i).0 t) c))
            | inr f ↦ ih.1 (ground arith, omega arith, c)
          ],
        )
      ]

  -- Two ids with the sender, in order.
  abbrev pub TwoSenders : e.Address → ℕ → Type 0
  TwoSenders expected counter =
      (i : ℕ) × (j : ℕ) × (i < j) × (j < counter) × IsSender expected i × IsSender expected j

  -- Two at least are found exactly where there are two.
  two-matching_ids :
      (expected : e.Address) (i rounds : ℕ)
      → (1 < length (matching_ids e registry expected i rounds)) ↔ (
          (a : ℕ) × (b : ℕ) × (i ≤ a)
          × (a < b)
          × (b < i + rounds)
          × IsSender expected a
          × IsSender expected b)
  two-matching_ids expected i zero =
      unfold matching_ids in
      (λ h. absurd (omega arith), λ (a, b, p, q, r, x, y). absurd (omega arith))
  two-matching_ids expected i (suc rounds) =
      let ih = two-matching_ids expected (i + 1) rounds in
      elim (matching_ids-suc expected i rounds) [
        | inl (is, p) ↦ rw p (
          λ h.
              let (b, q) =
                first_of (matching_ids e registry expected (i + 1) rounds) (omega arith) in
              let (x, y, z) = (Occurs-matching_ids expected (i + 1) rounds b).0 q in
              (i, b, omega arith, omega arith, omega arith, is, z),
          λ (a, b, u, v, w, x, y).
              let q =
                (Occurs-matching_ids expected (i + 1) rounds b).1 (omega arith, omega arith, y) in
              let pos = length_of (matching_ids e registry expected (i + 1) rounds) b q in
              omega arith,
        )
        | inr (not_it, p) ↦ rw p (
          λ h. let (a, b, u, v, w, x, y) = ih.0 h in (a, b, omega arith, v, omega arith, x, y),
          λ (a, b, u, v, w, x, y). elim (Bool-cases (a == i)) [
            | inl t ↦ absurd (not_it (subst (IsSender expected) ((==_iff a i).0 t) x))
            | inr f ↦ ih.1 (a, b, ground arith, v, omega arith, x, y)
          ],
        )
      ]

  rounds_of-small : (counter : ℕ) → counter < 2 ^ 63 → rounds_of e counter ≡ counter
  unfolding rounds_of is_negative to_int64
  rounds_of-small counter h = ground arith

  -- With a client, a well-formed sender and a positive counter below 2 ^ 63, the check gives one result,
  -- which is a warning exactly when two ids below the counter have the sender, and passes otherwise.
  pub r7-warn_iff :
      (client : Client e) (counter : ℕ) (sender : String)
      → 0 < counter
      → counter < 2 ^ 63
      → address_regex sender ≡ true
      → (x : CheckResult) × (r7 e (some registry) (some client) (some counter) sender ≡ x ∷ [])
        × ((x.status ≡ warn) ↔ TwoSenders (e.hex_to_address sender) counter)
        × ((x.status ≡ pass) ⊎ (x.status ≡ warn))
  unfolding r7
  r7-warn_iff client counter sender pos small ok_sender =
      let ids = matching_ids e registry (e.hex_to_address sender) 0 (rounds_of e counter) in
      let ids_iff : (1 < length ids) ↔ TwoSenders (e.hex_to_address sender) counter =
        rw (rounds_of-small counter small) (
          let two = two-matching_ids (e.hex_to_address sender) 0 counter in
          (
            λ h. let (a, b, u, v, w, x, y) = two.0 h in (a, b, v, omega arith, x, y),
            λ (a, b, v, w, x, y). two.1 (a, b, omega arith, v, omega arith, x, y),
          )) in
      elim (Bool-cases (ltb 1 (length ids))) [
        | inl t ↦
            rw (lt→ltb 0 counter pos, ok_sender, t)
              (_, refl, ((λ _. ids_iff.0 (ltb→lt 1 (length ids) t)), (λ _. refl)), inr refl)
        | inr f ↦
            rw (lt→ltb 0 counter pos, ok_sender, f)
              (
                _,
                refl,
                ((λ h. absurd (cc)), (λ two. absurd (cc (lt→ltb 1 (length ids) (ids_iff.1 two))))),
                inl refl,
              )
      ]
