-- ===== src/Fcc/Transactions/Promotion.antt =====
-- tee/go/tools/pkg/fccutils/registration.go: the promotion of a machine.
use cipher_sign.Prelude.{
  ◌==◌, ==_iff, ok, Result-cases, Bool-cases, ◌≡◌, ◌≢◌, ◌⊎◌, inl, inr, refl, ap, ◌∙◌,
}
use cipher_sign.Chain.{Chain, Net, Proof, to_production}
use cipher_sign.Chain.Sent.{Once}
use cipher_sign.Fcc.Transactions.{Machines, tee_status_production, promote_once}
use cipher_sign.Fcc.Transactions.Sent.{promote-Once}

module _ (c : Chain) (m : Machines c.World) (prv : c.PrivateKey) where
  -- A machine whose status reads as production is left alone: nothing is sent and the promotion ends
  -- well. With every other status, or an unreadable one, the proof is sent to the chain once if the
  -- promotion ends well and once at most if it fails.
  pub promote_once-outcome :
      (proof : Proof) (n : Net c)
      → ((m.get_tee_machine_status n.world proof.request_tee_id ≡ ok tee_status_production)
          × (promote_once c m prv proof n ≡ (n, ok tt)))
        ⊎ ((m.get_tee_machine_status n.world proof.request_tee_id ≢ ok tee_status_production)
            × Once c (λ x. x ≡ to_production proof) n (promote_once c m prv proof n))
  unfolding promote_once
  promote_once-outcome proof n =
      elim (Result-cases (m.get_tee_machine_status n.world proof.request_tee_id)) [
        | inr (text, p) ↦ inr (rw p ((λ z. absurd (cc z)), promote-Once c m prv proof n))
        | inl (status, p) ↦ elim (Bool-cases (status == tee_status_production)) [
          | inl t ↦ inl (p ∙ ap ok ((==_iff status 2).0 t), rw (p, t) refl)
          | inr f ↦ inr ((λ z. absurd (cc (f, z, p))), rw (p, f) (promote-Once c m prv proof n))
        ]
      ]
