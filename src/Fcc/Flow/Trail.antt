-- ===== src/Fcc/Flow/Trail.antt =====
-- tee/go/tools/pkg/fccutils/registration.go: what a run of RegisterNode that ends well has sent.
use cipher_sign.Prelude.{
  Bool, true, false, not, ◌&&◌, ◌∷◌, Bytes, Result, ok, err, Result-cases, Bool-cases, ◌≡◌, ◌≢◌,
  ◌⊎◌, inl, inr, refl, sym, ap, ap₂, ◌∙◌,
}
use cipher_sign.Prelude.Text.{String}
use mathlib.Core.Path.{subst}
use cipher_sign.Chain.{Chain, Net, Proof, to_production}
use cipher_sign.Chain.Sent.{Once-ok, Keeps-aside}
use cipher_sign.Fcc.Identity.{tee_proxy_id, get_ftdc_availability_check_result}
use cipher_sign.Fcc.Register.{
  RegistrationState, Files, Job, has_step, Step, attest, check_availability, prepare, promoted,
  produce, remove_state, run_steps, started, load_state, outcome, resume, register_node,
}
use cipher_sign.Fcc.Transactions.{TeeInfo, promote_once}
use cipher_sign.Fcc.Transactions.Promotion.{promote_once-outcome}
use cipher_sign.Fcc.Flow.{Surroundings, chain_calls}
use cipher_sign.Fcc.Flow.Due.{
  On, due, SendsWhen, from_and_then, Attests, pre_register-SendsWhen, AttestsAgain,
  attest-SendsWhen, ChecksAvailability, check_availability-SendsWhen,
}

module _ (c : Chain) (x : Surroundings c.World) (prv : c.PrivateKey) (f : Files) where
  -- One proof is sent on, or none because its machine is in production.
  abbrev pub Promotes : Net c → Net c → Type 0
  Promotes n n' =
      (n1 : Net c) × (proof : Proof) × (n1.sent ≡ n.sent)
      × (((x.machines.get_tee_machine_status n1.world proof.request_tee_id ≡ ok 2) × (n' ≡ n1))
          ⊎ ((x.machines.get_tee_machine_status n1.world proof.request_tee_id ≢ ok 2)
              × (n'.sent ≡ to_production proof ∷ n.sent)))

  abbrev pub PromotesWhen : Bool → Net c → Net c → Type 0
  PromotesWhen b n n' = ((b ≡ false) × (n'.sent ≡ n.sent)) ⊎ ((b ≡ true) × Promotes n n')

  pub promotes_when : (b : Bool) (n n' : Net c) → b ≡ true → PromotesWhen b n n' → Promotes n n'
  promotes_when b n n' t (inl (off, _)) = absurd (cc (t, off))
  promotes_when b n n' t (inr (_, s)) = s

  -- The chain between the steps.
  pub record Trail (j : Job TeeInfo) (st : RegistrationState) (n n' : Net c) : Type 0 where
    pub after_r : Net c
    pub after_attest : Net c
    pub after_a : Net c
    pub sends_r : SendsWhen c x prv f (due c x prv f j st b'r') (Attests c x prv f j n) n after_r
    pub sends_attest :
        SendsWhen c x prv f
          (due c x prv f j st b'R')
          (AttestsAgain c x prv f j)
          after_r
          after_attest
    pub sends_a :
        SendsWhen c x prv f
          (due c x prv f j st b'a')
          (ChecksAvailability c x prv f j)
          after_attest
          after_a
    pub sends_p : PromotesWhen (has_step j.command b'p') after_a n'

  promotion :
      (n n1 n' : Net c) (proof : Proof)
      → n1.sent ≡ n.sent
      → promote_once c x.machines prv proof n1 ≡ (n', ok tt)
      → Promotes n n'
  promotion n n1 n' proof kept h = elim (promote_once-outcome c x.machines prv proof n1) [
    | inl (there, quiet) ↦ (n1, proof, kept, inl (there, ap (λ z. z.0) (sym h ∙ quiet)))
    | inr (other, once) ↦
        let (m, p, q) = Once-ok c _ n1 n' tt _ once h in
        (n1, proof, kept, inr (other, q ∙ ap₂ ◌∷◌ p kept))
  ]

  promoted-Promotes :
      (n : Net c) (s s' : On c x prv f) (y : Net c × Result String Proof)
      → y.0.sent ≡ n.sent
      → promoted (chain_calls c x prv) f s y ≡ (s', ok tt)
      → Promotes n s'.world
  unfolding promoted
  promoted-Promotes n s s' (w, err text) kept h = absurd (cc (ap (λ z. z.1) h))
  promoted-Promotes n s s' (w, ok proof) kept h =
      promotion n w s'.world proof kept (ap (λ z. (z.0.world, z.1)) h)

  produce-PromotesWhen :
      (j : Job TeeInfo) (s s' : On c x prv f)
      → produce (chain_calls c x prv) f j s ≡ (s', ok tt)
      → PromotesWhen (has_step j.command b'p') s.world s'.world
  unfolding produce
  produce-PromotesWhen j s s' h = elim (Bool-cases (has_step j.command b'p')) [
    | inr a ↦ inl (a, ap (λ z. z.0.world.sent) (sym (rw (a, produce) at h)))
    | inl a ↦
        let check =
          get_ftdc_availability_check_result x.proxy x.proofs j.ftdc_tee_url
            (c.hash_hex s.instruction_id) in
        inr (
          a,
          promoted-Promotes s.world s s'
              ((chain_calls c x prv).get_ftdc_availability_check_result s.world j.ftdc_tee_url
                s.instruction_id)
              (Keeps-aside c s.world check) (rw (a, produce) at h),
        )
  ]

  run_steps-Trail :
      (j : Job TeeInfo) (s s' : On c x prv f)
      → run_steps (chain_calls c x prv) f j s ≡ (s', ok tt)
      → Trail j s.state s.world s'.world
  unfolding run_steps prepare remove_state
  run_steps-Trail j s s' h =
      let calls = chain_calls c x prv in
      from_and_then c x prv f _ (remove_state calls f) s' h λ s4 h4 e4.
        from_and_then c x prv f _ (produce calls f j) s4 h4 λ s3 h3 e3.
          from_and_then c x prv f _ (check_availability calls f j) s3 h3 λ s2 h2 e2.
            from_and_then c x prv f _ (attest calls f j) s2 h2 λ s1 h1 e1.
              let (r, others1) = pre_register-SendsWhen c x prv f j s s1 h1 in
              let (again, others2) = attest-SendsWhen c x prv f j s1 s2 e1 in
              let a = check_availability-SendsWhen c x prv f j s2 s3 e2 in
              record {
                after_r = s1.world;
                after_attest = s2.world;
                after_a = s3.world;
                sends_r = r;
                sends_attest =
                    subst
                      (λ b.
                        SendsWhen c x prv f (has_step j.command b'R' && not b)
                          (AttestsAgain c x prv f j) s1.world s2.world)
                      (others1 b'R' refl) again;
                sends_a =
                    subst
                      (λ b.
                        SendsWhen c x prv f (has_step j.command b'a' && not b)
                          (ChecksAvailability c x prv f j) s2.world s3.world)
                      (others2 b'a' refl ∙ others1 b'a' refl) a;
                sends_p =
                    subst (λ n. PromotesWhen (has_step j.command b'p') s3.world n)
                      (ap (λ z. z.0.world) e4) (produce-PromotesWhen j s3 s4 e3);
              }

  outcome_ok :
      (y : Step (chain_calls c x prv) f) (n' : Net c) (d' : f.Disk)
      → outcome (chain_calls c x prv) f y ≡ ((n', d'), ok tt)
      → (s' : On c x prv f) × (y ≡ (s', ok tt)) × (s'.world ≡ n')
  unfolding outcome
  outcome_ok (s', result) n' d' h = (s', ap (λ z. (s', z.1)) h, ap (λ z. z.0.0) h)

  -- Of a registration that ends well: the two ids, the state that the file held, and the calls.
  pub record Registration (j : Job TeeInfo) (d : f.Disk) (n n' : Net c) : Type 0 where
    pub tee_id : Bytes
    pub proxy_id : Bytes
    pub state : RegistrationState
    pub has_ids : tee_proxy_id x.identities j.tee_info ≡ ok (tee_id, proxy_id)
    pub loads : load_state f d ≡ ok state
    pub trail : Trail (record j { tee_id = tee_id; proxy_id = proxy_id }) state n n'

  -- A run of RegisterNode over the transactions of the chain that ends well has sent, in this order and
  -- nothing else: in step r one request for a fresh attestation if the chain has the machine and
  -- one registration if not, in step R one request for an attestation, in step a one request for an
  -- availability check, in step p one promotion of a proof unless the status of its machine reads as
  -- production. Each of the first three is left out exactly if its letter is not in the command or
  -- is among the completed steps of the state that the file held, the last exactly if its letter is
  -- not in the command.
  pub register_node-Registration :
      (j : Job TeeInfo) (n n' : Net c) (d d' : f.Disk)
      → register_node (chain_calls c x prv) f j n d ≡ ((n', d'), ok tt)
      → Registration j d n n'
  unfolding register_node resume started
  register_node-Registration j n n' d d' h =
      let calls = chain_calls c x prv in
      elim (Result-cases (tee_proxy_id x.identities j.tee_info)) [
        | inr (text, p) ↦ absurd (cc (ap (λ z. z.1) (rw (p, register_node) at h)))
        | inl ((tee_id, proxy_id), p) ↦ elim (Result-cases (load_state f d)) [
          | inr (text, q) ↦ absurd (cc (ap (λ z. z.1) (rw (p, q, register_node, resume) at h)))
          | inl (st, q) ↦
              let job = record j { tee_id = tee_id; proxy_id = proxy_id } in
              let first = started calls f n d st in
              let (s', e, w) =
                outcome_ok (run_steps calls f job first) n' d'
                  (rw (p, q, register_node, resume) at h) in
              record {
                tee_id = tee_id;
                proxy_id = proxy_id;
                state = st;
                has_ids = p;
                loads = q;
                trail = subst (λ m. Trail job st n m) w (run_steps-Trail job first s' e);
              }
        ]
      ]
