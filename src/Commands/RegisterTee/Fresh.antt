-- ===== src/Commands/RegisterTee/Fresh.antt =====
-- tee/go/tools/cmd/register-tee/main.go: a run that ends well, and one that starts afresh.
use cipher_sign.Prelude.{
  ℕ, false, not, ◌&&◌, [], ◌∷◌, Bytes, codes, Result, ok, err, ok_eq, ◌≡◌, refl, sym, ap, ap₂, ◌∙◌,
}
use cipher_sign.Prelude.Text.{String}
use cipher_sign.Prelude.Runs.{from_ok, from_lift_ok}
use mathlib.Core.Path.{subst}
use cipher_sign.Chain.{Chain, Net, Method, aside}
use cipher_sign.Chain.Sent.{Keeps, Keeps-aside}
use cipher_sign.Fcc.Attestation.{Attestation, get_code_hash_and_platform}
use cipher_sign.Fcc.Attestation.Attests as Attests
use cipher_sign.Fcc.Attestation.Attests.{get_code_hash_and_platform-Attests_iff}
use cipher_sign.Fcc.Flow.{Surroundings}
use cipher_sign.Fcc.Flow.Due as Due
use cipher_sign.Fcc.Flow.Trail.{Promotes, promotes_when, Registration, register_node-Registration}
use cipher_sign.Fcc.Identity.{tee_proxy_id}
use cipher_sign.Fcc.Register.{RegistrationState, Files, Job, missing, has_step, load_state}
use cipher_sign.Fcc.TeeCalls.{Node, tee_info, get_tee_proxy_id}
use cipher_sign.Fcc.Transactions.{TeeInfo}
use cipher_sign.Commands.RegisterTee.{
  Options, job_of, Known, look_up, start_disk, registered_from, register_tee,
}

module _ (c : Chain) (node : Node c.World) (getenv : String → String) (a : Attestation)
    (x : Surroundings c.World) (f : Files) where
  -- Of a run: the key, the TEE and the id of the FTDC's TEE, and the chain before RegisterNode.
  pub record Registered (support : Result String c.PrivateKey) (o : Options) (n n' : Net c)
      (d : f.Disk) : Type 0 where
    pub prv : c.PrivateKey
    pub info : TeeInfo
    pub ftdc_tee : Bytes
    pub asked : Net c
    pub has_support : support ≡ ok prv
    pub tells : (aside c (tee_info node o.proxy_address) n).1 ≡ ok info
    pub is_attested : Attests.Attests a getenv info info.code_hash info.platform
    pub unsent : asked.sent ≡ n.sent
    pub registers :
        Registration c x prv f
          (job_of o info ftdc_tee)
          (start_disk c node getenv a x f o d)
          asked
          n'

  -- What the look-up of a run finds.
  abbrev Found :
      Result String c.PrivateKey → Options → Net c → Net c → Known c node getenv a x f → Type 0
  Found support o n n' (prv, (info, ftdc_tee)) =
      (support ≡ ok prv)
      × ((aside c (tee_info node o.proxy_address) n).1 ≡ ok info)
      × Attests.Attests a getenv info info.code_hash info.platform
      × (n'.sent ≡ n.sent)

  attested_pair :
      (info : TeeInfo) (pair : Bytes × Bytes)
      → get_code_hash_and_platform a getenv info ≡ ok pair
      → Attests.Attests a getenv info info.code_hash info.platform
  attested_pair info (h, p) e =
      let (same, same', s) = (get_code_hash_and_platform-Attests_iff a getenv info h p).0 e in
      subst (λ q. Attests.Attests a getenv info q info.platform) same
        (subst (λ q. Attests.Attests a getenv info h q) same' s)

  kept_sent :
      {A : Type 0} (n n' : Net c) (v : A) (y : Net c × Result String A)
      → Keeps c n y
      → y ≡ (n', ok v)
      → n'.sent ≡ n.sent
  kept_sent n n' v y k h = sym (ap (λ z. z.0.sent) h) ∙ k

  look_up-Found :
      (support : Result String c.PrivateKey) (o : Options) (n n' : Net c)
      (k : Known c node getenv a x f)
      → look_up c node getenv a x f support o n ≡ (n', ok k)
      → Found support o n n' k
  unfolding look_up
  look_up-Found support o n n' k h =
      let ask = tee_info node o.proxy_address in
      let ask_ftdc = get_tee_proxy_id node x.identities o.ftdc_address in
      from_lift_ok n support _ n' k h λ prv e1 h1.
        from_ok (aside c ask n) _ n' k h1 λ n2 info e2 h2.
          from_lift_ok n2 (tee_proxy_id x.identities info) _ n' k h2 λ ids e3 h3.
            from_ok (aside c ask_ftdc n2) _ n' k h3 λ n4 ftdc e4 h4.
              from_lift_ok n4 (get_code_hash_and_platform a getenv info) _ n' k h4 λ pair e5 h5.
                let sent : n4.sent ≡ n.sent =
                  kept_sent n2 n4 ftdc (aside c ask_ftdc n2) (Keeps-aside c n2 ask_ftdc) e4
                  ∙ kept_sent n n2 info (aside c ask n) (Keeps-aside c n ask) e2 in
                subst (λ m. Found support o n m k) (ap (λ z. z.0) h5)
                  (subst (λ l. Found support o n n4 l) (ok_eq (ap (λ z. z.1) h5))
                    (e1, ap (λ z. z.1) e2, attested_pair info pair e5, sent))

  registered_from-Registered :
      (support : Result String c.PrivateKey) (o : Options) (n n' : Net c) (d d' : f.Disk)
      (y : Net c × Result String (Known c node getenv a x f))
      → look_up c node getenv a x f support o n ≡ y
      → registered_from c node getenv a x f o (start_disk c node getenv a x f o d) y
        ≡ ((n', d'), ok tt)
      → Registered support o n n' d
  unfolding registered_from
  registered_from-Registered support o n n' d d' (asked, err text) p h =
      absurd (cc (ap (λ z. z.1) h))
  registered_from-Registered support o n n' d d' (asked, ok (prv, (info, ftdc_tee))) p h =
      let (e1, e2, e3, e4) = look_up-Found support o n asked (prv, (info, ftdc_tee)) p in
      record {
        prv = prv;
        info = info;
        ftdc_tee = ftdc_tee;
        asked = asked;
        has_support = e1;
        tells = e2;
        is_attested = e3;
        unsent = e4;
        registers =
            register_node-Registration c x prv f (job_of o info ftdc_tee) asked n'
              (start_disk c node getenv a x f o d) d' h;
      }

  -- A run of register-tee that ends well has a key and a TEE info of the proxy whose code hash and
  -- platform are attested, as GetCodeHashAndPlatform demands; it has sent just what RegisterNode
  -- sends for that TEE, on the state file as it was with --resume and as its removal leaves it
  -- without.
  pub register_tee-Registered :
      (support : Result String c.PrivateKey) (o : Options) (n n' : Net c) (d d' : f.Disk)
      → register_tee c node getenv a x f support o (n, d) ≡ ((n', d'), ok tt)
      → Registered support o n n' d
  unfolding register_tee
  register_tee-Registered support o n n' d d' h =
      registered_from-Registered support o n n' d d' (look_up c node getenv a x f support o n) refl
        h

  abbrev due_job :
      (support : Result String c.PrivateKey) (o : Options) (n n' : Net c) (d : f.Disk)
      → Registered support o n n' d
      → Job TeeInfo
  due_job support o n n' d r = record (job_of o r.info r.ftdc_tee) {
    tee_id = r.registers.tee_id;
    proxy_id = r.registers.proxy_id;
  }

  -- The calls of the steps r and a, and the promotion behind them.
  abbrev pub SendsAll :
      (support : Result String c.PrivateKey) (o : Options) (n n' : Net c) (d : f.Disk)
      → Registered support o n n' d
      → Type 0
  SendsAll support o n n' d r =
      let j = due_job support o n n' d r in
      (attests : Method) × (checks : Method) × (after_a : Net c) × Due.Attests c x r.prv f j r.asked
        attests
      × Due.ChecksAvailability c x r.prv f j checks
      × (after_a.sent ≡ checks ∷ attests ∷ n.sent)
      × Promotes c x r.prv f after_a n'

  no_step_done :
      (o : Options) (d : f.Disk) (st : RegistrationState)
      → o.resume_given ≡ false
      → f.read_file (f.remove d) ≡ missing
      → load_state f (start_disk c node getenv a x f o d) ≡ ok st
      → st.completed_steps ≡ []
  unfolding start_disk load_state
  no_step_done o d st fresh gone loads =
      ap (λ s. s.completed_steps) (sym (ok_eq (rw (fresh, gone, start_disk, load_state) at loads)))

  all_sent :
      (support : Result String c.PrivateKey) (o : Options) (n n' : Net c) (d : f.Disk)
      (r : Registered support o n n' d)
      → o.resume_given ≡ false
      → o.command_letters ≡ codes "rap"
      → f.read_file (f.remove d) ≡ missing
      → SendsAll support o n n' d r
  unfolding job_of has_step
  all_sent support o n n' d r fresh letters gone =
      let t = r.registers.trail in
      let empty = no_step_done o d r.registers.state fresh gone r.registers.loads in
      let due_at =
        λ (step : ℕ). ap₂ (λ l done. has_step l step && not (has_step done step)) letters empty in
      let (m_r, p_r, e_r) =
        Due.when_due c x r.prv f _ _ r.asked t.after_r (due_at b'r') t.sends_r in
      let e_R =
        Due.when_off c x r.prv f _ _ t.after_r t.after_attest (due_at b'R') t.sends_attest in
      let (m_a, p_a, e_a) =
        Due.when_due c x r.prv f _ _ t.after_attest t.after_a (due_at b'a') t.sends_a in
      (
        m_r,
        m_a,
        t.after_a,
        p_r,
        p_a,
        e_a ∙ ap (◌∷◌ m_a) (e_R ∙ e_r ∙ ap (◌∷◌ m_r) r.unsent),
        promotes_when c x r.prv f _ t.after_a n' (ap (λ l. has_step l b'p') letters) t.sends_p,
      )

  -- A run without --resume and with the default command, whose removal leaves no state file, sends all
  -- that a registration needs whatever an earlier run had recorded: if it ends well it has sent one
  -- call of step r, one of step a, and then the promotion of a proof unless the status of its
  -- machine reads as production, in this order and no other.
  pub register_tee-SendsAll :
      (support : Result String c.PrivateKey) (o : Options) (n n' : Net c) (d d' : f.Disk)
      → o.resume_given ≡ false
      → o.command_letters ≡ codes "rap"
      → f.read_file (f.remove d) ≡ missing
      → register_tee c node getenv a x f support o (n, d) ≡ ((n', d'), ok tt)
      → (r : Registered support o n n' d) × SendsAll support o n n' d r
  register_tee-SendsAll support o n n' d d' fresh letters gone h =
      let r = register_tee-Registered support o n n' d d' h in
      (r, all_sent support o n n' d r fresh letters gone)
