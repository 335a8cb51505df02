-- ===== src/Fcc/Register/Steps.antt =====
-- tee/go/tools/pkg/fccutils/registration.go: the steps r and R of RegisterNode, made and skipped.
use cipher_sign.Prelude.{
  ℕ, Bool, true, false, [], ◌∷◌, ◌++◌, none, Bytes, ◌==◌, if◌then◌else◌, Result, ok, err,
  Bool-cases, ◌≡◌, inl, inr, refl, sym, ap, ◌∙◌, arith,
}
use Prim.Native.String.{String}
use mathlib.Core.Path.{subst}
use cipher_sign.Fcc.Register.{
  RegistrationState, Calls, Files, Job, has_step, load_state, save_state, Session, Step, and_then,
  attested, first_attestation, pre_register, attest, check_availability,
}

pub has_step-append :
    (xs : Bytes) (y x : ℕ) → has_step xs x ≡ true → has_step (xs ++ y ∷ []) x ≡ true
unfolding has_step
has_step-append [] y x h = absurd (cc)
has_step-append (z ∷ xs) y x h = elim (Bool-cases (z == x)) [
  | inl t ↦ rw t refl
  | inr n ↦ rw n (has_step-append xs y x (rw n at h))
]

pub has_step-last : (xs : Bytes) (x : ℕ) → has_step (xs ++ x ∷ []) x ≡ true
unfolding has_step
has_step-last [] x = ground arith
has_step-last (z ∷ xs) x = elim (Bool-cases (z == x)) [
  | inl t ↦ rw t refl
  | inr n ↦ rw n (has_step-last xs x)
]

abbrev pub either : Bool → Bytes → Bytes → Bytes
either b x y = if b then x else y

module _ (c : Calls) (f : Files) where
  -- The file holds the state of the run.
  abbrev pub Saved : Session c f → Type 0
  Saved s = load_state f s.disk ≡ ok s.state

  pub load_state-save_state :
      (d : f.Disk) (st : RegistrationState)
      → ((d' : f.Disk) (b : Bytes) → (f.write_file d' b).1 ≡ none)
      → load_state f (save_state f d st).0 ≡ ok st
  unfolding load_state save_state
  load_state-save_state d st writes =
      let (b, m, u) = f.unmarshal-marshal st in
      rw (m, save_state) (rw (f.read_file-write_file d b (writes d b), u, load_state) refl)

  -- The letter of a step of the command is in the completed steps.
  abbrev pub Completed : Job c.Info → ℕ → Session c f → Type 0
  Completed j step s = has_step j.command step ≡ true → has_step s.state.completed_steps step ≡ true

  pub skip_pre_register :
      (j : Job c.Info) (s : Session c f)
      → Completed j b'r' s
      → pre_register c f j s ≡ (
        record s {
          attest_id =
              either (has_step j.command b'r') s.state.tee_attest_instruction_id s.attest_id;
        },
        ok tt,
      )
  unfolding pre_register
  skip_pre_register j s done = elim (Bool-cases (has_step j.command b'r')) [
    | inl t ↦ rw (t, done t, pre_register) refl
    | inr n ↦ rw (n, pre_register) refl
  ]

  pub skip_attest :
      (j : Job c.Info) (s : Session c f)
      → Completed j b'R' s
      → attest c f j s ≡ (
        record s {
          attest_id =
              either (has_step j.command b'R') s.state.tee_attest_instruction_id s.attest_id;
        },
        ok tt,
      )
  unfolding attest
  skip_attest j s done = elim (Bool-cases (has_step j.command b'R')) [
    | inl t ↦ rw (t, done t, attest) refl
    | inr n ↦ rw (n, attest) refl
  ]

  pub skip_check_availability :
      (j : Job c.Info) (s : Session c f)
      → Completed j b'a' s
      → check_availability c f j s ≡ (
        record s {
          instruction_id =
              either
                (has_step j.command b'a')
                s.state.instruction_id
                (c.hex_to_hash j.instruction_id_string);
        },
        ok tt,
      )
  unfolding check_availability
  skip_check_availability j s done = elim (Bool-cases (has_step j.command b'a')) [
    | inl t ↦ rw (t, done t, check_availability) refl
    | inr n ↦ rw (n, check_availability) refl
  ]

  -- What a step that ends well leaves: it loses no completed step, keeps the file in line, and the
  -- attestation that it holds is the recorded one if the letter is in the command.
  pub record After (j : Job c.Info) (step : ℕ) (s s' : Session c f) : Type 0 where
    pub grows :
        (x : ℕ)
        → has_step s.state.completed_steps x ≡ true
        → has_step s'.state.completed_steps x ≡ true
    pub done : Completed j step s'
    pub saved : Saved s → Saved s'
    pub held :
        s'.attest_id
        ≡ either (has_step j.command step) s'.state.tee_attest_instruction_id s.attest_id
    pub kept : s'.instruction_id ≡ s.instruction_id
    pub same : has_step j.command step ≡ false → s'.state ≡ s.state

  After-attested :
      (j : Job c.Info) (step : ℕ) (s s' : Session c f) (x : c.World × Result String Bytes)
      → ((d : f.Disk) (b : Bytes) → (f.write_file d b).1 ≡ none)
      → has_step j.command step ≡ true
      → attested c f step s x ≡ (s', ok tt)
      → After j step s s'
  unfolding attested
  After-attested j step s s' (w, err text) writes t h = absurd (cc)
  After-attested j step s s' (w, ok id) writes t h =
      subst (After j step s) (ap (λ z. z.0) h) (record {
        grows = λ x q. has_step-append s.state.completed_steps step x q;
        done = λ _. has_step-last s.state.completed_steps step;
        saved = λ _. load_state-save_state s.disk _ writes;
        held = rw t refl;
        kept = refl;
        same = λ n. absurd (cc);
      })

  After-skipped :
      (j : Job c.Info) (step : ℕ) (s s' : Session c f) (x : Step c f)
      → Completed j step s
      → x ≡ (
        record s {
          attest_id =
              either (has_step j.command step) s.state.tee_attest_instruction_id s.attest_id;
        },
        ok tt,
      )
      → x ≡ (s', ok tt)
      → After j step s s'
  After-skipped j step s s' x d e h = subst (After j step s) (ap (λ z. z.0) (sym e ∙ h)) (record {
    grows = λ y q. q;
    done = d;
    saved = λ q. q;
    held = refl;
    kept = refl;
    same = λ _. refl;
  })

  pub After-pre_register :
      (j : Job c.Info) (s s' : Session c f)
      → ((d : f.Disk) (b : Bytes) → (f.write_file d b).1 ≡ none)
      → pre_register c f j s ≡ (s', ok tt)
      → After j b'r' s s'
  unfolding pre_register
  After-pre_register j s s' writes h = elim (Bool-cases (has_step j.command b'r')) [
    | inr n ↦
        let d : Completed j b'r' s = λ t. absurd (cc) in
        After-skipped j b'r' s s' (pre_register c f j s) d (skip_pre_register j s d) h
    | inl t ↦ elim (Bool-cases (has_step s.state.completed_steps b'r')) [
      | inl e ↦
          After-skipped j b'r' s s' (pre_register c f j s) (λ _. e) (skip_pre_register j s (λ _. e))
            h
      | inr e ↦
          After-attested j b'r' s s' (first_attestation c f j s.world) writes t
            (rw (t, e, pre_register) at h)
    ]
  ]

  pub After-attest :
      (j : Job c.Info) (s s' : Session c f)
      → ((d : f.Disk) (b : Bytes) → (f.write_file d b).1 ≡ none)
      → attest c f j s ≡ (s', ok tt)
      → After j b'R' s s'
  unfolding attest
  After-attest j s s' writes h = elim (Bool-cases (has_step j.command b'R')) [
    | inr n ↦
        let d : Completed j b'R' s = λ t. absurd (cc) in
        After-skipped j b'R' s s' (attest c f j s) d (skip_attest j s d) h
    | inl t ↦ elim (Bool-cases (has_step s.state.completed_steps b'R')) [
      | inl e ↦ After-skipped j b'R' s s' (attest c f j s) (λ _. e) (skip_attest j s (λ _. e)) h
      | inr e ↦
          After-attested j b'R' s s' (c.request_tee_attestation s.world j.tee_id) writes t
            (rw (t, e, attest) at h)
    ]
  ]

  -- A sequence that ends well has a first part that ends well.
  pub and_then-ok :
      (x : Step c f) (k : Session c f → Step c f) (s' : Session c f)
      → and_then c f x k ≡ (s', ok tt)
      → (s : Session c f) × (x ≡ (s, ok tt)) × (k s ≡ (s', ok tt))
  unfolding and_then
  and_then-ok (s, err text) k s' h = absurd (cc)
  and_then-ok (s, ok tt) k s' h = (s, refl, h)
