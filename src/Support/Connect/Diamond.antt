-- ===== src/Support/Connect/Diamond.antt =====
-- tee/go/tools/pkg/support/support.go: the addresses that the bindings of NewSupport have.
use cipher_sign.Prelude.{Result, ok, err, ◌>>=◌, ◌≡◌, refl}
use cipher_sign.Prelude.Text.{String}
use mathlib.Core.Path.{subst}
use cipher_sign.Support.Addresses.{Addresses}
use cipher_sign.Support.Connect.{
  Ethereum, Support, new_support, machine_manager, wallet_manager, wallet_key_manager,
  wallet_project_manager, flare_systems_manager, fdc2_hub, verification, extension_manager,
  owner_allowlist, extension_governance,
}

-- A sequence that ends well, with its first value as a variable.
from_ok :
    {A B : Type 0} {C : Type 0} (r : Result String A) {f : A → Result String B} {b : B}
    → (r >>= f) ≡ ok b
    → ((a : A) → r ≡ ok a → f a ≡ ok b → C)
    → C
from_ok (ok a) h k = k a refl h
from_ok (err text) h k = absurd (cc)

ok_eq : {A : Type 0} {x y : A} → ◌≡◌ {A = Result String A} (ok x) (ok y) → x ≡ y
ok_eq h = cc

module _ (e : Ethereum) where
  -- The facets of the TEE manager have its address, the other two contracts their own.
  abbrev pub AtAddresses : Addresses → Support e → Type 0
  AtAddresses a s =
      (e.address_of s.tee_machine_registry ≡ a.flare_tee_manager)
      × (e.address_of s.tee_wallet_manager ≡ a.flare_tee_manager)
      × (e.address_of s.tee_wallet_key_manager ≡ a.flare_tee_manager)
      × (e.address_of s.tee_wallet_project_manager ≡ a.flare_tee_manager)
      × (e.address_of s.flare_system_manager ≡ a.flare_system_manager)
      × (e.address_of s.fdc2_hub_binding ≡ a.fdc2_hub)
      × (e.address_of s.tee_verification ≡ a.flare_tee_manager)
      × (e.address_of s.tee_extension_registry ≡ a.flare_tee_manager)
      × (e.address_of s.tee_owner_allowlist ≡ a.flare_tee_manager)
      × (e.address_of s.tee_extension_governance ≡ a.flare_tee_manager)

  -- A support that is made has its key, client and addresses, the chain id of the client, and binds
  -- every TEE facet at the TEE manager and the other two contracts at their own addresses.
  pub new_support-AtAddresses :
      (prv : e.PrivateKey) (client : e.Client) (a : Addresses) (s : Support e)
      → new_support e prv client a ≡ ok s
      → (s.prv ≡ prv)
        × (s.chain_client ≡ client)
        × (s.addresses ≡ a)
        × (e.chain_id client ≡ ok s.chain_id)
        × AtAddresses a s
  unfolding new_support
  new_support-AtAddresses prv client a s h =
      let at = e.address_of-new_binding in
      let d = a.flare_tee_manager in
      from_ok (e.new_binding machine_manager d client) h λ tr p1 h1.
        from_ok (e.new_binding wallet_manager d client) h1 λ twm p2 h2.
          from_ok (e.new_binding wallet_key_manager d client) h2 λ twkm p3 h3.
            from_ok (e.new_binding wallet_project_manager d client) h3 λ twpm p4 h4.
              from_ok (e.new_binding flare_systems_manager a.flare_system_manager client) h4
                λ sm p5 h5. from_ok (e.new_binding fdc2_hub a.fdc2_hub client) h5 λ hub p6 h6.
                  from_ok (e.new_binding verification d client) h6 λ tv p7 h7.
                    from_ok (e.new_binding extension_manager d client) h7 λ ter p8 h8.
                      from_ok (e.new_binding owner_allowlist d client) h8 λ toal p9 h9.
                        from_ok (e.new_binding extension_governance d client) h9 λ teg p10 h10.
                          from_ok (e.chain_id client) h10 λ id p11 h11.
                            subst
                              (λ z.
                                (z.prv ≡ prv)
                                × (z.chain_client ≡ client)
                                × (z.addresses ≡ a)
                                × (e.chain_id client ≡ ok z.chain_id)
                                × AtAddresses a z)
                              (ok_eq h11)
                              (
                                refl,
                                refl,
                                refl,
                                p11,
                                (
                                  at machine_manager d client tr p1,
                                  at wallet_manager d client twm p2,
                                  at wallet_key_manager d client twkm p3,
                                  at wallet_project_manager d client twpm p4,
                                  at flare_systems_manager a.flare_system_manager client sm p5,
                                  at fdc2_hub a.fdc2_hub client hub p6,
                                  at verification d client tv p7,
                                  at extension_manager d client ter p8,
                                  at owner_allowlist d client toal p9,
                                  at extension_governance d client teg p10,
                                ),
                              )
