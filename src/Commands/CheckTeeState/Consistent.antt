-- ===== src/Commands/CheckTeeState/Consistent.antt =====
-- tee/go/tools/cmd/check-tee-state/main.go: what the verdict says.
use cipher_sign.Prelude.{
  ℕ, [], ◌∷◌, Bytes, ◌==◌, ==_iff, Result, ok, err, Bool-cases, ◌≡◌, ◌↔◌, ◌⊎◌, inl, inr, refl,
  arith,
}
use cipher_sign.Prelude.Text.{String}
use cipher_sign.Commands.CheckTeeState.{
  all_consistent, sender_mismatch, proxy_mismatch, status_mismatch, verdict, or_consistent,
}

-- The status could not be read, or is the one of a machine that can be promoted.
abbrev pub CanPromote : Result String ℕ → Type 0
CanPromote (err text) = Unit {0}
CanPromote (ok status) = (status ≡ 1) ⊎ (status ≡ 4)

module _ (sender_of : ℕ → Result String Bytes) where
  can_promote :
      (status : Result String ℕ)
      → or_consistent sender_of (status_mismatch sender_of status) ≡ all_consistent ∷ []
        ↔ CanPromote status
  unfolding status_mismatch
  can_promote (err text) = (λ h. tt, λ h. refl)
  can_promote (ok status) = elim (Bool-cases (status == 1)) [
    | inl t ↦ rw t (λ h. inl ((==_iff status 1).0 t), λ h. refl)
    | inr f ↦ elim (Bool-cases (status == 4)) [
      | inl t ↦ rw (f, t) (λ h. inr ((==_iff status 4).0 t), λ h. refl)
      | inr g ↦ rw (f, g) (λ h. absurd (cc h), λ h. absurd (ground arith))
    ]
  ]

  agreed :
      (proxy is onchain : ℕ) (status : Result String ℕ) (current_sender : Bytes)
      → (verdict sender_of proxy is (ok onchain) status current_sender ≡ all_consistent ∷ [])
        ↔ ((is ≡ onchain) × (proxy ≡ onchain) × CanPromote status)
  unfolding verdict sender_mismatch proxy_mismatch
  agreed proxy is onchain status current_sender = elim (Bool-cases (is == onchain)) [
    | inr f ↦ rw f ((λ h. absurd (cc h)), λ (p, q, s). ground arith)
    | inl t ↦ elim (Bool-cases (proxy == onchain)) [
      | inr g ↦ rw (t, g) ((λ h. absurd (cc h)), λ (p, q, s). ground arith)
      | inl u ↦
          rw (t, u)
            (
              (λ h.
                  ((==_iff is onchain).0 t, (==_iff proxy onchain).0 u, (can_promote status).0 h)),
              λ (p, q, s). (can_promote status).1 s,
            )
    ]
  ]

  -- The verdict is the line that says that all is consistent, and no other, exactly where the extension
  -- of the TEE could be read, the instruction sender and the proxy have the same one, and the status
  -- is INITIALIZED or PAUSED or could not be read. The active sets are no part of it, and a TEE in
  -- PRODUCTION is never called consistent.
  pub verdict-consistent_iff :
      (proxy is : ℕ) (onchain status : Result String ℕ) (current_sender : Bytes)
      → (verdict sender_of proxy is onchain status current_sender ≡ all_consistent ∷ [])
        ↔ ((x : ℕ) × (onchain ≡ ok x) × (is ≡ x) × (proxy ≡ x) × CanPromote status)
  unfolding verdict
  verdict-consistent_iff proxy is (err text) status current_sender =
      (λ h. absurd (cc h), λ (x, h, _, _, _). absurd (cc h))
  verdict-consistent_iff proxy is (ok onchain) status current_sender = (
    λ h.
        let (p, q, s) = (agreed proxy is onchain status current_sender).0 h in
        (onchain, refl, p, q, s),
    λ (x, h, p, q, s). (agreed proxy is onchain status current_sender).1 (cc (h, p), cc (h, q), s),
  )
