-- ===== src/Fcc/Flow/Due.antt =====
-- tee/go/tools/pkg/fccutils/registration.go: which steps of RegisterNode send, by the command and by the
-- completed steps.
use cipher_sign.Prelude.{
  ℕ, Bool, true, false, not, ◌&&◌, [], ◌∷◌, ◌++◌, Bytes, ◌==◌, Result, ok, err, Result-cases,
  Bool-cases, ◌≡◌, ◌⊎◌, inl, inr, refl, sym, ap, ◌∙◌,
}
use cipher_sign.Prelude.Text.{String}
use cipher_sign.Chain.{
  Chain, Net, Method, request_tee_attestation, request_availability_check_attestation,
}
use cipher_sign.Chain.Sent.{SendsOne, Once-ok}
use cipher_sign.Fcc.Register.{
  RegistrationState, Files, Job, has_step, Session, Step, and_then, attested, checked,
  first_attestation, pre_register, attest, check_availability,
}
use cipher_sign.Fcc.Transactions.{TeeInfo, request_availability_check}
use cipher_sign.Fcc.Transactions.Sent.{
  Registers, request_attestation-Once, request_availability_check-Once,
}
use cipher_sign.Fcc.Flow.{Surroundings, chain_calls, policy_of}
use cipher_sign.Fcc.Flow.Attested.{IsRegistered, first_attestation-Once}

has_step-other :
    (xs : Bytes) (x y : ℕ) → (x == y) ≡ false → has_step (xs ++ x ∷ []) y ≡ has_step xs y
unfolding has_step
has_step-other [] x y h = rw h refl
has_step-other (z ∷ xs) x y h = rw (has_step-other xs x y h) refl

module _ (c : Chain) (x : Surroundings c.World) (prv : c.PrivateKey) (f : Files) where
  abbrev pub On : Type 0
  On = Session (chain_calls c x prv) f

  -- The letter is in the command and not among the completed steps.
  abbrev pub due : Job TeeInfo → RegistrationState → ℕ → Bool
  due j st step = has_step j.command step && not (has_step st.completed_steps step)

  -- A step that is due sends one call of the kind, another one none.
  abbrev pub SendsWhen : Bool → (Method → Type 0) → Net c → Net c → Type 0
  SendsWhen b P n n' = ((b ≡ false) × (n'.sent ≡ n.sent)) ⊎ ((b ≡ true) × SendsOne c P n n')

  pub when_due :
      (P : Method → Type 0) (b : Bool) (n n' : Net c)
      → b ≡ true
      → SendsWhen b P n n'
      → SendsOne c P n n'
  when_due P b n n' t (inl (off, _)) = absurd (cc (t, off))
  when_due P b n n' t (inr (_, s)) = s

  pub when_off :
      (P : Method → Type 0) (b : Bool) (n n' : Net c)
      → b ≡ false
      → SendsWhen b P n n'
      → n'.sent ≡ n.sent
  when_off P b n n' e (inl (_, s)) = s
  when_off P b n n' e (inr (on, _)) = absurd (cc (e, on))

  -- The completed steps differ in one letter at most.
  abbrev pub Others : ℕ → RegistrationState → RegistrationState → Type 0
  Others step st st' =
      (y : ℕ) → (step == y) ≡ false → has_step st'.completed_steps y ≡ has_step st.completed_steps y

  pub from_and_then :
      {T : Type 0} (y : Step (chain_calls c x prv) f) (rest : On → Step (chain_calls c x prv) f)
      (s' : On)
      → and_then (chain_calls c x prv) f y rest ≡ (s', ok tt)
      → ((s : On) → y ≡ (s, ok tt) → rest s ≡ (s', ok tt) → T)
      → T
  unfolding and_then
  from_and_then (s, err text) rest s' h k = absurd (cc (ap (λ z. z.1) h))
  from_and_then (s, ok tt) rest s' h k = k s refl h

  -- The call of step r.
  abbrev pub Attests : Job TeeInfo → Net c → Method → Type 0
  Attests j n y =
      (IsRegistered c x prv f n j.tee_id
        × (y ≡ request_tee_attestation j.tee_id (c.pubkey_to_address prv)))
      ⊎ ((¬ IsRegistered c x prv f n j.tee_id)
          × Registers c x.machines prv j.host_url j.proxy_id j.tee_info y)

  recorded :
      (step : ℕ) (s s' : On) (y : Net c × Result String Bytes)
      → attested (chain_calls c x prv) f step s y ≡ (s', ok tt)
      → ((id : Bytes) × (y ≡ (s'.world, ok id))) × Others step s.state s'.state
  unfolding attested
  recorded step s s' (w, err text) h = absurd (cc (ap (λ z. z.1) h))
  recorded step s s' (w, ok id) h = (
    (id, ap (λ z. (z.0.world, ok id)) h),
    λ l other.
        sym (ap (λ z. has_step z.0.state.completed_steps l) h)
        ∙ has_step-other s.state.completed_steps step l other,
  )

  availability :
      (s s' : On) (y : Net c × Result String Bytes)
      → checked (chain_calls c x prv) f s y ≡ (s', ok tt)
      → (id : Bytes) × (y ≡ (s'.world, ok id))
  unfolding checked
  availability s s' (w, err text) h = absurd (cc (ap (λ z. z.1) h))
  availability s s' (w, ok id) h = (id, ap (λ z. (z.0.world, ok id)) h)

  quiet :
      (P : Method → Type 0) (step : ℕ) (b : Bool) (s s1 s' : On)
      → b ≡ false
      → s1.world ≡ s.world
      → s1.state ≡ s.state
      → ◌≡◌ {A = Step (chain_calls c x prv) f} (s1, ok tt) (s', ok tt)
      → SendsWhen b P s.world s'.world × Others step s.state s'.state
  quiet P step b s s1 s' off w st h = (
    inl (off, sym (ap (λ z. z.0.world.sent) h) ∙ ap (λ n. n.sent) w),
    λ l other.
        sym (ap (λ z. has_step z.0.state.completed_steps l) h)
        ∙ ap (λ z. has_step z.completed_steps l) st,
  )

  first_SendsOne :
      (j : Job TeeInfo) (n n' : Net c) (id : Bytes)
      → first_attestation (chain_calls c x prv) f j n ≡ (n', ok id)
      → SendsOne c (Attests j n) n n'
  first_SendsOne j n n' id h = elim (first_attestation-Once c x prv f j n) [
    | inl (there, o) ↦ let (m, p, q) = Once-ok c _ n n' id _ o h in (m, inl (there, p), q)
    | inr (missing, o) ↦ let (m, p, q) = Once-ok c _ n n' id _ o h in (m, inr (missing, p), q)
  ]

  pub pre_register-SendsWhen :
      (j : Job TeeInfo) (s s' : On)
      → pre_register (chain_calls c x prv) f j s ≡ (s', ok tt)
      → SendsWhen (due j s.state b'r') (Attests j s.world) s.world s'.world
        × Others b'r' s.state s'.state
  unfolding pre_register
  pre_register-SendsWhen j s s' h = elim (Bool-cases (has_step j.command b'r')) [
    | inr a ↦ quiet _ b'r' _ s _ s' (rw a refl) refl refl (rw (a, pre_register) at h)
    | inl a ↦ elim (Bool-cases (has_step s.state.completed_steps b'r')) [
      | inl b ↦ quiet _ b'r' _ s _ s' (rw (a, b) refl) refl refl (rw (a, b, pre_register) at h)
      | inr b ↦
          let ((id, made), others) =
            recorded b'r' s s' (first_attestation (chain_calls c x prv) f j s.world)
              (rw (a, b, pre_register) at h) in
          (inr (rw (a, b) refl, first_SendsOne j s.world s'.world id made), others)
    ]
  ]

  -- The call of step R.
  abbrev pub AttestsAgain : Job TeeInfo → Method → Type 0
  AttestsAgain j y = y ≡ request_tee_attestation j.tee_id (c.pubkey_to_address prv)

  pub attest-SendsWhen :
      (j : Job TeeInfo) (s s' : On)
      → attest (chain_calls c x prv) f j s ≡ (s', ok tt)
      → SendsWhen (due j s.state b'R') (AttestsAgain j) s.world s'.world
        × Others b'R' s.state s'.state
  unfolding attest
  attest-SendsWhen j s s' h = elim (Bool-cases (has_step j.command b'R')) [
    | inr a ↦ quiet _ b'R' _ s _ s' (rw a refl) refl refl (rw (a, attest) at h)
    | inl a ↦ elim (Bool-cases (has_step s.state.completed_steps b'R')) [
      | inl b ↦ quiet _ b'R' _ s _ s' (rw (a, b) refl) refl refl (rw (a, b, attest) at h)
      | inr b ↦
          let ((id, made), others) =
            recorded b'R' s s' ((chain_calls c x prv).request_tee_attestation s.world j.tee_id)
              (rw (a, b, attest) at h) in
          (
            inr (
              rw (a, b) refl,
              Once-ok c (AttestsAgain j) s.world s'.world id _
                  (request_attestation-Once c x.machines prv j.tee_id s.world) made,
            ),
            others,
          )
    ]
  ]

  -- The call of step a, for some instruction id of an attestation.
  abbrev pub ChecksAvailability : Job TeeInfo → Method → Type 0
  ChecksAvailability j y =
      (attest_id : Bytes) × (y
        ≡ request_availability_check_attestation j.tee_id attest_id j.ftdc_tee
            (c.pubkey_to_address prv) (c.pubkey_to_address prv))

  unsent :
      (P : Method → Type 0) (b : Bool) (s s1 s' : On)
      → b ≡ false
      → s1.world ≡ s.world
      → ◌≡◌ {A = Step (chain_calls c x prv) f} (s1, ok tt) (s', ok tt)
      → SendsWhen b P s.world s'.world
  unsent P b s s1 s' off w h = inl (off, sym (ap (λ z. z.0.world.sent) h) ∙ ap (λ n. n.sent) w)

  checked-SendsOne :
      (j : Job TeeInfo) (s s' : On)
      → checked
          (chain_calls c x prv)
          f
          s
          (request_availability_check c x.machines prv j.tee_id j.ftdc_tee s.attest_id s.world)
        ≡ (s', ok tt)
      → SendsOne c (ChecksAvailability j) s.world s'.world
  checked-SendsOne j s s' h =
      let (id, made) = availability s s' _ h in
      let (m, p, q) =
        Once-ok c _ s.world s'.world id _
          (request_availability_check-Once c x.machines prv j.tee_id j.ftdc_tee s.attest_id s.world)
          made in
      (m, (s.attest_id, p), q)

  -- Step a, where it is due, is behind the check of the proxy's policy.
  pub check_availability-SendsWhen :
      (j : Job TeeInfo) (s s' : On)
      → check_availability (chain_calls c x prv) f j s ≡ (s', ok tt)
      → SendsWhen (due j s.state b'a') (ChecksAvailability j) s.world s'.world
  unfolding check_availability
  check_availability-SendsWhen j s s' h = elim (Bool-cases (has_step j.command b'a')) [
    | inr a ↦ unsent _ _ s _ s' (rw a refl) refl (rw (a, check_availability) at h)
    | inl a ↦ elim (Bool-cases (has_step s.state.completed_steps b'a')) [
      | inl b ↦ unsent _ _ s _ s' (rw (a, b) refl) refl (rw (a, b, check_availability) at h)
      | inr b ↦ elim (Result-cases (policy_of c x prv s.world.world j.ftdc_tee_url)) [
        | inr (text, p) ↦ absurd (cc (ap (λ z. z.1) (rw (a, b, p, check_availability) at h)))
        | inl (u, p) ↦
            inr (rw (a, b) refl, checked-SendsOne j s s' (rw (a, b, p, check_availability) at h))
      ]
    ]
  ]
