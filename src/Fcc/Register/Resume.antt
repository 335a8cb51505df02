-- ===== src/Fcc/Register/Resume.antt =====
-- tee/go/tools/pkg/fccutils/registration.go: RegisterNode on the state file that steps r and R left.
use cipher_sign.Prelude.{Bool, true, false, none, Bytes, ok, ◌≡◌, refl, ap, ◌∙◌}
use cipher_sign.Fcc.Register.{
  RegistrationState, Calls, Files, Job, has_step, load_state, Session, Step, and_then, pre_register,
  attest, check_availability, produce, remove_state, started, prepare, run_steps, outcome, resume,
}
use cipher_sign.Fcc.Register.Steps.{
  Saved, Completed, either, skip_pre_register, skip_attest, After-pre_register, After-attest,
  and_then-ok,
}

module _ (c : Calls) (f : Files) where
  -- Steps r and R.
  abbrev pub both_attestations : Job c.Info → Session c f → Step c f
  both_attestations j s = and_then c f (pre_register c f j s) (attest c f j)

  -- What is known after steps r and R.
  pub record Attested (j : Job c.Info) (s s' : Session c f) : Type 0 where
    pub pre_registered : Completed c f j b'r' s'
    pub attested_again : Completed c f j b'R' s'
    pub saved : Saved c f s → Saved c f s'
    pub held :
        s'.attest_id
        ≡ either
            (has_step j.command b'R')
            s'.state.tee_attest_instruction_id
            (either (has_step j.command b'r') s'.state.tee_attest_instruction_id s.attest_id)
    pub kept : s'.instruction_id ≡ s.instruction_id

  held_twice :
      (r R : Bool) (a0 a1 a2 : Bytes) (st1 st2 : RegistrationState)
      → (R ≡ false → st2 ≡ st1)
      → a1 ≡ either r st1.tee_attest_instruction_id a0
      → a2 ≡ either R st2.tee_attest_instruction_id a1
      → a2 ≡ either R st2.tee_attest_instruction_id (either r st2.tee_attest_instruction_id a0)
  held_twice r true a0 a1 a2 st1 st2 same h1 h2 = h2
  held_twice r false a0 a1 a2 st1 st2 same h1 h2 = rw (same refl) (h2 ∙ h1)

  pub After-both :
      (j : Job c.Info) (s s' : Session c f)
      → ((d : f.Disk) (b : Bytes) → (f.write_file d b).1 ≡ none)
      → both_attestations j s ≡ (s', ok tt)
      → Attested j s s'
  After-both j s s' writes h =
      let (s1, h1, h2) = and_then-ok c f (pre_register c f j s) (attest c f j) s' h in
      let p = After-pre_register c f j s s1 writes h1 in
      let q = After-attest c f j s1 s' writes h2 in
      record {
        pre_registered = λ t. q.grows b'r' (p.done t);
        attested_again = q.done;
        saved = λ x. q.saved (p.saved x);
        held =
            held_twice (has_step j.command b'r') (has_step j.command b'R') s.attest_id s1.attest_id
              s'.attest_id s1.state s'.state q.same p.held q.held;
        kept = q.kept ∙ p.kept;
      }

  -- The run that takes up a state does nothing in steps r and R.
  pub skip_both :
      (j : Job c.Info) (s : Session c f)
      → Completed c f j b'r' s
      → Completed c f j b'R' s
      → both_attestations j s ≡ (
        record s {
          attest_id =
              either
                (has_step j.command b'R')
                s.state.tee_attest_instruction_id
                (either (has_step j.command b'r') s.state.tee_attest_instruction_id s.attest_id);
        },
        ok tt,
      )
  unfolding and_then
  skip_both j s d e = rw (skip_pre_register c f j s d) (
      skip_attest c f j
        (record s {
          attest_id =
              either (has_step j.command b'r') s.state.tee_attest_instruction_id s.attest_id;
        })
        e)

  pub fill :
      (j : Job c.Info) (s : Session c f) (w' : c.World) {a i : Bytes}
      → s.attest_id ≡ a
      → s.instruction_id ≡ i
      → ◌≡◌ {A = Session c f}
          (record { world = w'; disk = s.disk; state = s.state; attest_id = a; instruction_id = i })
          (record s { world = w' })
  fill j s w' p q = rw (p, q) refl

  -- If steps r and R of a registration end well, with every write to the disk succeeding, then a later
  -- run of the same job on the file that they left, in whatever world, makes neither call again: it
  -- goes on with step a, with the attestation id that the first run had.
  pub resume-attested :
      (j : Job c.Info) (w w' : c.World) (d : f.Disk) (st : RegistrationState) (s : Session c f)
      → ((d' : f.Disk) (b : Bytes) → (f.write_file d' b).1 ≡ none)
      → load_state f d ≡ ok st
      → both_attestations j (started c f w d st) ≡ (s, ok tt)
      → resume c f j w' s.disk
        ≡ outcome c f (
            and_then c f
              (and_then c f (check_availability c f j (record s { world = w' })) (produce c f j))
              (remove_state c f))
  unfolding resume run_steps prepare started and_then
  resume-attested j w w' d st s writes loaded h =
      let a = After-both j (started c f w d st) s writes h in
      rw (a.saved loaded, resume)
        (rw (skip_both j (started c f w' s.disk s.state) a.pre_registered a.attested_again) (
          ap
            (λ x. outcome c f (
              and_then c f (and_then c f (check_availability c f j x) (produce c f j))
                (remove_state c f)))
            (fill j s w' a.held a.kept)))
