-- ===== src/Fcc/Flow/Attested.antt =====
-- tee/go/tools/pkg/fccutils/registration.go: what step r sends.
use cipher_sign.Prelude.{
  false, Bytes, eq_bytes, eq_bytes_refl, eq_bytes→eq, Result, ok, err, Result-cases, Bool-cases,
  ◌≡◌, ◌≢◌, ◌⊎◌, inl, inr,
}
use cipher_sign.Prelude.Text.{String}
use cipher_sign.Chain.{Chain, Net, Method, request_tee_attestation}
use cipher_sign.Chain.Sent.{Once}
use cipher_sign.Fcc.Register.{Files, Job, zero_address, first_attestation}
use cipher_sign.Fcc.Transactions.{TeeInfo, pre_registration}
use cipher_sign.Fcc.Transactions.Sent.{Registers, pre_registration-Once, request_attestation-Once}
use cipher_sign.Fcc.Flow.{Surroundings, chain_calls, with_id}

false_here : (id : Bytes) → id ≡ zero_address → eq_bytes id zero_address ≡ false → ⊥
false_here id z e = absurd (cc (eq_bytes_refl zero_address, z, e))

module _ (c : Chain) (x : Surroundings c.World) (prv : c.PrivateKey) (f : Files) where
  with_id-Once :
      (P : Method → Type 0) (n : Net c) (y : Net c × Result String (Bytes × Bytes))
      → Once c P n y
      → Once c P n (with_id y)
  with_id-Once P n (n', ok (challenge, id)) o = o
  with_id-Once P n (n', err text) o = o

  -- The machine is registered where the chain has it under an address that is not zero.
  abbrev pub IsRegistered : Net c → Bytes → Type 0
  IsRegistered n tee_id =
      (id : Bytes) × (x.machines.get_tee_machine n.world tee_id ≡ ok id) × (id ≢ zero_address)

  register-Once :
      (j : Job TeeInfo) (n : Net c)
      → Once c
          (Registers c x.machines prv j.host_url j.proxy_id j.tee_info)
          n
          (with_id (pre_registration c x.machines prv j.host_url j.tee_id j.proxy_id j.tee_info n))
  register-Once j n =
      with_id-Once (Registers c x.machines prv j.host_url j.proxy_id j.tee_info) n
        (pre_registration c x.machines prv j.host_url j.tee_id j.proxy_id j.tee_info n)
        (pre_registration-Once c x.machines prv j.host_url j.tee_id j.proxy_id j.tee_info n)

  -- For a machine that the chain has, step r sends a request for a fresh attestation and no
  -- registration; for any other one it sends the registration and no request. Either is sent once
  -- if the step ends well, and once at most if it fails.
  pub first_attestation-Once :
      (j : Job TeeInfo) (n : Net c)
      → (IsRegistered n j.tee_id
          × Once c
              (λ y. y ≡ request_tee_attestation j.tee_id (c.pubkey_to_address prv))
              n
              (first_attestation (chain_calls c x prv) f j n))
        ⊎ ((¬ IsRegistered n j.tee_id)
            × Once c
                (Registers c x.machines prv j.host_url j.proxy_id j.tee_info)
                n
                (first_attestation (chain_calls c x prv) f j n))
  unfolding first_attestation
  first_attestation-Once j n = elim (Result-cases (x.machines.get_tee_machine n.world j.tee_id)) [
    | inr (text, p) ↦
        inr ((λ (id, q, z). absurd (cc (p, q))), rw (p, first_attestation) (register-Once j n))
    | inl (id, p) ↦ elim (Bool-cases (eq_bytes id zero_address)) [
      | inl t ↦ inr (
        (λ (id', q, z). absurd (z (cc (p, q, eq_bytes→eq id zero_address t)))),
        rw (p, t, first_attestation) (register-Once j n),
      )
      | inr e ↦ inl (
        (id, p, λ z. false_here id z e),
        rw (p, e, first_attestation) (request_attestation-Once c x.machines prv j.tee_id n),
      )
    ]
  ]
