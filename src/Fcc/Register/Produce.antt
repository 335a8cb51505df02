-- ===== src/Fcc/Register/Produce.antt =====
-- tee/go/tools/pkg/fccutils/registration.go: RegisterNode on the state file that steps r, R and a left.
use cipher_sign.Prelude.{
  ℕ, true, none, Bytes, Result, ok, err, Result-cases, Bool-cases, ◌≡◌, inl, inr, refl, sym, ap,
  ◌∙◌,
}
use Prim.Native.String.{String}
use mathlib.Core.Path.{subst}
use cipher_sign.Fcc.Register.{
  RegistrationState, Calls, Files, Job, zero_hash, has_step, load_state, Session, and_then, checked,
  check_availability, produce, remove_state, started, prepare, run_steps, outcome, resume,
}
use cipher_sign.Fcc.Register.Steps.{
  has_step-append, has_step-last, Saved, load_state-save_state, Completed, either,
  skip_check_availability, and_then-ok,
}
use cipher_sign.Fcc.Register.Resume.{both_attestations, After-both, skip_both, fill}

module _ (c : Calls) (f : Files) where
  -- What step a leaves when it ends well.
  record Checked (j : Job c.Info) (s s' : Session c f) : Type 0 where
    grows :
        (x : ℕ)
        → has_step s.state.completed_steps x ≡ true
        → has_step s'.state.completed_steps x ≡ true
    done : Completed c f j b'a' s'
    saved : Saved c f s → Saved c f s'
    kept : s'.attest_id ≡ s.attest_id
    same : s'.state.tee_attest_instruction_id ≡ s.state.tee_attest_instruction_id
    held :
        s'.instruction_id
        ≡ either
            (has_step j.command b'a')
            s'.state.instruction_id
            (c.hex_to_hash j.instruction_id_string)

  Checked-skipped :
      (j : Job c.Info) (s s' : Session c f)
      → Completed c f j b'a' s
      → check_availability c f j s ≡ (s', ok tt)
      → Checked j s s'
  Checked-skipped j s s' d h =
      subst (Checked j s) (ap (λ z. z.0) (sym (skip_check_availability c f j s d) ∙ h)) (record {
        grows = λ x q. q;
        done = d;
        saved = λ q. q;
        kept = refl;
        same = refl;
        held = refl;
      })

  Checked-checked :
      (j : Job c.Info) (s s' : Session c f) (x : c.World × Result String Bytes)
      → ((d : f.Disk) (b : Bytes) → (f.write_file d b).1 ≡ none)
      → has_step j.command b'a' ≡ true
      → checked c f s x ≡ (s', ok tt)
      → Checked j s s'
  unfolding checked
  Checked-checked j s s' (w, err text) writes t h = absurd (cc)
  Checked-checked j s s' (w, ok id) writes t h = subst (Checked j s) (ap (λ z. z.0) h) (record {
    grows = λ x q. has_step-append s.state.completed_steps b'a' x q;
    done = λ _. has_step-last s.state.completed_steps b'a';
    saved = λ _. load_state-save_state c f s.disk _ writes;
    kept = refl;
    same = refl;
    held = rw t refl;
  })

  After-check_availability :
      (j : Job c.Info) (s s' : Session c f)
      → ((d : f.Disk) (b : Bytes) → (f.write_file d b).1 ≡ none)
      → check_availability c f j s ≡ (s', ok tt)
      → Checked j s s'
  unfolding check_availability
  After-check_availability j s s' writes h = elim (Bool-cases (has_step j.command b'a')) [
    | inr n ↦ Checked-skipped j s s' (λ t. absurd (cc)) h
    | inl t ↦ elim (Bool-cases (has_step s.state.completed_steps b'a')) [
      | inl e ↦ Checked-skipped j s s' (λ _. e) h
      | inr e ↦ elim (Result-cases (c.check_ftdc_proxy_policy_consistency s.world j.ftdc_tee_url)) [
        | inr (text, p) ↦ absurd (cc (rw (t, e, p, check_availability) at h))
        | inl (u, p) ↦
            Checked-checked j s s'
              (c.request_ftdc_availability_check s.world j.tee_id j.ftdc_tee s.attest_id) writes t
              (rw (t, e, p, check_availability) at h)
      ]
    ]
  ]

  -- If steps r, R and a of a registration end well, with every write to the disk succeeding, then a
  -- later run of the same job on the file that they left, in whatever world, makes none of their calls
  -- again: it goes on with step p, with the instruction id that the first run had.
  pub resume-prepared :
      (j : Job c.Info) (w w' : c.World) (d : f.Disk) (st : RegistrationState) (s : Session c f)
      → ((d' : f.Disk) (b : Bytes) → (f.write_file d' b).1 ≡ none)
      → load_state f d ≡ ok st
      → prepare c f j (started c f w d st) ≡ (s, ok tt)
      → resume c f j w' s.disk
        ≡ outcome c f (and_then c f (produce c f j (record s { world = w' })) (remove_state c f))
  unfolding resume run_steps prepare started and_then
  resume-prepared j w w' d st s writes loaded h =
      let (s1, h1, h2) =
        and_then-ok c f (both_attestations c f j (started c f w d st)) (check_availability c f j) s
          h in
      let a = After-both c f j (started c f w d st) s1 writes h1 in
      let b = After-check_availability j s1 s writes h2 in
      let again = started c f w' s.disk s.state in
      rw (b.saved (a.saved loaded), resume)
        (rw
          (skip_both c f j again (λ t. b.grows b'r' (a.pre_registered t))
            (λ t. b.grows b'R' (a.attested_again t)))
          (rw
            (skip_check_availability c f j
              (record again {
                attest_id =
                    either (has_step j.command b'R') s.state.tee_attest_instruction_id (
                      either (has_step j.command b'r') s.state.tee_attest_instruction_id zero_hash);
              })
              b.done)
            (ap (λ x. outcome c f (and_then c f (produce c f j x) (remove_state c f)))
              (fill c f j s w' (b.kept ∙ a.held ∙ (rw b.same refl)) b.held))))
