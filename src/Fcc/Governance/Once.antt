-- ===== src/Fcc/Governance/Once.antt =====
-- tee/go/tools/pkg/fccutils/governance.go: when SetTeeGovernance sends.
use cipher_sign.Prelude.{
  ℕ, ◌≤◌, ◌<◌, true, false, List, [], ◌∷◌, Bytes, length, eq_bytes_refl, eq_bytes→eq, ◌==◌, Result,
  ok, err, Result-cases, Bool-cases, ◌≡◌, ◌≢◌, ◌⊎◌, inl, inr, refl, ap, arith,
}
use cipher_sign.Prelude.Text.{String, concat}
use cipher_sign.Chain.{Chain, Net, Receipt, set_new_tee_governance}
use cipher_sign.Chain.Sent.{Once, before_Once}
use cipher_sign.Support.Mined.Outcome.{Once-checked}
use cipher_sign.Fcc.Governance.{
  no_signer, invalid_threshold, Governed, bad_threshold, is_current, send_governance, govern,
  set_tee_governance,
}

current_hash :
    (r : Result String Bytes) (desired : Bytes) → is_current r desired ≡ true → r ≡ ok desired
current_hash (err text) desired h = absurd (cc)
current_hash (ok current) desired h = ap ok (eq_bytes→eq current desired h)

other_hash :
    (r : Result String Bytes) (desired : Bytes) → is_current r desired ≡ false → r ≢ ok desired
other_hash (err text) desired h z = absurd (cc z)
other_hash (ok current) desired h z = absurd (cc (h, z, eq_bytes_refl desired))

guard_cases :
    (signers : List Bytes) (threshold : ℕ)
    → ((signers ≡ []) ⊎ ((threshold ≡ 0) ⊎ (length signers < threshold)))
      ⊎ ((0 < length signers) × (0 < threshold) × (threshold ≤ length signers))
guard_cases [] threshold = inl (inl refl)
guard_cases (x ∷ xs) threshold = elim (Bool-cases (bad_threshold (x ∷ xs) threshold)) [
  | inl t ↦ inl (inr (ground arith))
  | inr f ↦ inr (omega arith, ground arith, ground arith)
]

bad_threshold-false :
    (signers : List Bytes) (threshold : ℕ)
    → (signers ≡ []) ⊎ ((threshold ≡ 0) ⊎ (length signers < threshold))
    → (length signers == 0) ≡ false
    → bad_threshold signers threshold ≡ false
    → ⊥
bad_threshold-false signers threshold (inl h) f e = absurd (cc (h, f))
bad_threshold-false signers threshold (inr (inl h)) f e = ground arith
bad_threshold-false signers threshold (inr (inr h)) f e = ground arith

module _ (c : Chain) (g : Governed c.World) (prv : c.PrivateKey) where
  send_governance-Once :
      (extension_id : ℕ) (signers : List Bytes) (threshold : ℕ) (n : Net c)
      → Once c
          (λ x. x ≡ set_new_tee_governance extension_id signers threshold)
          n
          (send_governance c g prv extension_id signers threshold n)
  unfolding send_governance
  send_governance-Once extension_id signers threshold n =
      before_Once c _ n (n, c.new_keyed_transactor prv) _ refl
        λ u n. Once-checked c _ n prv 0 _ _ _ refl λ (receipt : Receipt c.Log) n. refl

  -- Behind the two guards: the hash fails, is set already, or is set now.
  abbrev pub Governs : ℕ → List Bytes → ℕ → Net c → Net c × Result String (Unit {0}) → Type 0
  Governs extension_id signers threshold n y =
      ((text : String) × (g.governance_hash signers threshold ≡ err text)
        × (y ≡ (n, err (concat ("computing governance hash: " ∷ text ∷ [])))))
      ⊎ ((desired : Bytes) × (g.governance_hash signers threshold ≡ ok desired)
          × (((g.get_latest_tee_governance_hash n.world extension_id ≡ ok desired)
                × (y ≡ (n, ok tt)))
              ⊎ ((g.get_latest_tee_governance_hash n.world extension_id ≢ ok desired)
                  × Once c (λ x. x ≡ set_new_tee_governance extension_id signers threshold) n y)))

  pub govern-Governs :
      (extension_id : ℕ) (signers : List Bytes) (threshold : ℕ) (n : Net c)
      → Governs extension_id signers threshold n (govern c g prv extension_id signers threshold n)
  unfolding govern
  govern-Governs extension_id signers threshold n =
      elim (Result-cases (g.governance_hash signers threshold)) [
        | inr (text, p) ↦ inl (text, p, rw (p, govern) refl)
        | inl (desired, p) ↦
            elim (Bool-cases
              (is_current (g.get_latest_tee_governance_hash n.world extension_id) desired)) [
                | inl t ↦ inr (desired, p, inl (current_hash _ desired t, rw (p, govern, t) refl))
                | inr f ↦ inr (
                  desired,
                  p,
                  inr (
                    other_hash _ desired f,
                    rw (p, govern, f) (send_governance-Once extension_id signers threshold n),
                  ),
                )
              ]
      ]

  set_tee_governance-refused :
      (extension_id : ℕ) (signers : List Bytes) (threshold : ℕ) (n : Net c)
      → (signers ≡ []) ⊎ ((threshold ≡ 0) ⊎ (length signers < threshold))
      → (text : String) × (set_tee_governance c g prv extension_id signers threshold n
          ≡ (n, err text))
  unfolding set_tee_governance
  set_tee_governance-refused extension_id signers threshold n h =
      elim (Bool-cases (length signers == 0)) [
        | inl t ↦ (no_signer, rw t refl)
        | inr f ↦ elim (Bool-cases (bad_threshold signers threshold)) [
          | inl t ↦ (invalid_threshold signers threshold, rw (f, t) refl)
          | inr e ↦ absurd (bad_threshold-false signers threshold h f e)
        ]
      ]

  pub set_tee_governance-accepted :
      (extension_id : ℕ) (signers : List Bytes) (threshold : ℕ) (n : Net c)
      → 0 < length signers
      → 0 < threshold
      → threshold ≤ length signers
      → set_tee_governance c g prv extension_id signers threshold n
        ≡ govern c g prv extension_id signers threshold n
  unfolding set_tee_governance
  set_tee_governance-accepted extension_id signers threshold n h k l =
      let f : (length signers == 0) ≡ false = ground arith in
      let e : bad_threshold signers threshold ≡ false = ground arith in rw (f, e) refl

  -- No signer, or a threshold of 0 or above the number of signers, is refused and nothing is sent.
  -- Behind these guards, a hash that cannot be computed is an error and nothing is sent; where the
  -- hash of the pair is the latest on the chain the call ends well and nothing is sent; otherwise the
  -- governance is sent once if the call ends well and once at most if it fails.
  pub set_tee_governance-outcome :
      (extension_id : ℕ) (signers : List Bytes) (threshold : ℕ) (n : Net c)
      → (((signers ≡ []) ⊎ ((threshold ≡ 0) ⊎ (length signers < threshold)))
          × ((text : String) × (set_tee_governance c g prv extension_id signers threshold n
                ≡ (n, err text))))
        ⊎ ((0 < length signers)
            × (0 < threshold)
            × (threshold ≤ length signers)
            × Governs extension_id signers threshold n
                (set_tee_governance c g prv extension_id signers threshold n))
  set_tee_governance-outcome extension_id signers threshold n =
      elim (guard_cases signers threshold) [
        | inl h ↦ inl (h, set_tee_governance-refused extension_id signers threshold n h)
        | inr (h, k, l) ↦ inr (
          h,
          k,
          l,
          rw (set_tee_governance-accepted extension_id signers threshold n h k l)
              (govern-Governs extension_id signers threshold n),
        )
      ]
