-- ===== src/Fcc/Attestation/Attests.antt =====
-- tee/go/tools/pkg/fccutils/common.go: which TEE infos GetCodeHashAndPlatform accepts.
use cipher_sign.Prelude.{
  Bytes, eq_bytes, eq_bytes_iff, Result, ok, bind-ok_iff, Bool-cases, ◌≡◌, ◌≢◌, ◌↔◌, ◌⊎◌, inl, inr,
  refl, sym, ap₂, ◌∙◌,
}
use cipher_sign.Prelude.Text.{String, str_eq, eq_iff}
use cipher_sign.Fcc.Transactions.{TeeInfo}
use cipher_sign.Fcc.Attestation.{
  Attestation, test_platform, tee_code_hash, code_hash_and_platform, expected_code, compare_code,
  get_code_hash_and_platform,
}

pair_eq :
    {h h' p p' : Bytes}
    → ◌≡◌ {A = Result String (Bytes × Bytes)} (ok (h, p)) (ok (h', p'))
    → (h ≡ h') × (p ≡ p')
pair_eq e = (cc, cc)

module _ (a : Attestation) (getenv : String → String) where
  -- The token of the info claims the code hash and the platform.
  abbrev pub Claimed : Bytes → Bytes → Bytes → Type 0
  Claimed attestation code_hash platform =
      (claims : a.Claims) × (a.parse_claims attestation ≡ ok claims)
      × (a.claimed_code_hash claims ≡ ok code_hash)
      × (a.claimed_platform claims ≡ ok platform)

  -- The tool simulates the TEE and the two are the constants, or it does not and they are claimed.
  abbrev pub Attests : TeeInfo → Bytes → Bytes → Type 0
  Attests info code_hash platform =
      ((getenv "SIMULATED_TEE" ≡ "true") × (code_hash ≡ tee_code_hash) × (platform ≡ test_platform))
      ⊎ ((getenv "SIMULATED_TEE" ≢ "true") × Claimed info.attestation code_hash platform)

  code_hash_and_platform-Claimed_iff :
      (attestation h p : Bytes)
      → (code_hash_and_platform a attestation ≡ ok (h, p)) ↔ Claimed attestation h p
  unfolding code_hash_and_platform
  code_hash_and_platform-Claimed_iff attestation h p = (
    λ e.
        let (claims, e1, e2) = (bind-ok_iff (a.parse_claims attestation) _ (h, p)).0 e in
        let (h', e3, e4) = (bind-ok_iff (a.claimed_code_hash claims) _ (h, p)).0 e2 in
        let (p', e5, e6) = (bind-ok_iff (a.claimed_platform claims) _ (h, p)).0 e4 in
        let (same, same') = pair_eq e6 in (claims, e1, cc (e3, same), cc (e5, same')),
    λ (claims, e1, e3, e5). rw (e1, e3, e5) refl,
  )

  expected_iff :
      (info : TeeInfo) (h p : Bytes) → (expected_code a getenv info ≡ ok (h, p)) ↔ Attests info h p
  unfolding expected_code
  expected_iff info h p =
      let (there, back) = eq_iff (getenv "SIMULATED_TEE") "true" in
      elim (Bool-cases (str_eq (getenv "SIMULATED_TEE") "true")) [
        | inl t ↦ rw t (
          λ e. let (same, same') = pair_eq e in inl (there t, sym same, sym same'),
          λ s. elim s [
            | inl (_, e, e') ↦ ap₂ (λ u v. ok (u, v)) (sym e) (sym e')
            | inr (other, _) ↦ absurd (other (there t))
          ],
        )
        | inr f ↦ rw f (
          λ e. inr (
            (λ s. absurd (cc (f, back s))),
            (code_hash_and_platform-Claimed_iff info.attestation h p).0 e,
          ),
          λ s. elim s [
            | inl (e, _, _) ↦ absurd (cc (f, back e))
            | inr (_, e) ↦ (code_hash_and_platform-Claimed_iff info.attestation h p).1 e
          ],
        )
      ]

  compare_iff :
      (info : TeeInfo) (x y h p : Bytes)
      → (compare_code a info (x, y) ≡ ok (h, p))
        ↔ ((x ≡ h) × (y ≡ p) × (h ≡ info.code_hash) × (p ≡ info.platform))
  unfolding compare_code
  compare_iff info x y h p =
      let (there, back) = eq_bytes_iff x info.code_hash in
      let (there', back') = eq_bytes_iff y info.platform in
      elim (Bool-cases (eq_bytes x info.code_hash)) [
        | inr f ↦ rw f ((λ e. absurd (cc e)), λ (e, _, e', _). absurd (cc (f, back (e ∙ e'))))
        | inl t ↦ elim (Bool-cases (eq_bytes y info.platform)) [
          | inr f ↦
              rw (t, f) ((λ e. absurd (cc e)), λ (_, e, _, e'). absurd (cc (f, back' (e ∙ e'))))
          | inl u ↦
              rw (t, u)
                (
                  λ e.
                      let (same, same') = pair_eq e in
                      (same, same', sym same ∙ there t, sym same' ∙ there' u),
                  λ (e, e', _, _). ap₂ (λ u v. ok (u, v)) e e',
                )
        ]
      ]

  -- GetCodeHashAndPlatform succeeds with a code hash and a platform exactly where they are those of the
  -- TEE info and are attested: by the constants if SIMULATED_TEE is "true", else by the claims of the
  -- token.
  pub get_code_hash_and_platform-Attests_iff :
      (info : TeeInfo) (h p : Bytes)
      → (get_code_hash_and_platform a getenv info ≡ ok (h, p))
        ↔ ((h ≡ info.code_hash) × (p ≡ info.platform) × Attests info h p)
  unfolding get_code_hash_and_platform
  get_code_hash_and_platform-Attests_iff info h p =
      let (there, back) = bind-ok_iff (expected_code a getenv info) (compare_code a info) (h, p) in
      (
        λ e.
            let ((x, y), found, e1) = there e in
            let (s1, s2, s3, s4) = (compare_iff info x y h p).0 e1 in
            (s3, s4, (expected_iff info h p).0 (found ∙ ap₂ (λ u v. ok (u, v)) s1 s2)),
        λ (e, e', s).
            back (
              (h, p),
              (expected_iff info h p).1 s,
              (compare_iff info h p h p).1 (refl, refl, e, e'),
            ),
      )
