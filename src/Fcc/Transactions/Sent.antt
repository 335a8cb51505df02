-- ===== src/Fcc/Transactions/Sent.antt =====
-- tee/go/tools/pkg/fccutils/registration.go: what each function of a registration sends.
use cipher_sign.Prelude.{
  ℕ, [], ◌∷◌, Bytes, codes, take, drop, ok, map_err, Result-cases, ◌≡◌, inl, inr, refl,
}
use cipher_sign.Prelude.Text.{String}
use cipher_sign.Prelude.Runs.{over_lift}
use cipher_sign.App.Int64.{set_bytes}
use cipher_sign.Base.Bytes32.{byte_at}
use cipher_sign.Chain.{
  Chain, Net, Receipt, Proof, Method, register_machine, request_tee_attestation,
  request_availability_check_attestation, to_production, add_tee_version,
}
use cipher_sign.Chain.Sent.{Keeps, Once, before_Once, Keeps-after, Keeps-ensure}
use cipher_sign.Support.Mined.Outcome.{Once-checked}
use cipher_sign.Fcc.Transactions.{
  TeeInfo, Machines, registration_fee, string_to_bytes32, two_logs, one_log, pre_registration,
  request_attestation, request_availability_check, promote, add_version, instruction_sent,
  registered,
}

module _ (c : Chain) (m : Machines c.World) (prv : c.PrivateKey) where
  -- The registration of the machine with the data that its info shows, governance hash included, with
  -- the signature of the info taken apart into its flag, r and s, and with the key's address to claim
  -- the fee back.
  abbrev pub Registers : String → Bytes → TeeInfo → Method → Type 0
  Registers host_url proxy_id info x =
      (vrs : Bytes) × (m.transform_signature_rsv_to_vrs info.data_signature ≡ ok vrs)
      × (x
          ≡ register_machine
              (record {
                extension_id = set_bytes info.extension_id;
                initial_owner = info.initial_owner;
                code_hash = info.code_hash;
                platform = info.platform;
                public_key = info.public_key;
                governance_hash = info.governance_hash;
              })
              (record { v = byte_at vrs 0; r = take 32 (drop 1 vrs); s = take 32 (drop 33 vrs) })
              proxy_id (codes host_url) (c.pubkey_to_address prv))

  pub registered-Keeps :
      (receipt : Receipt c.Log) (n : Net c) → Keeps c n (registered c m prv receipt n)
  unfolding registered
  registered-Keeps receipt n =
      Keeps-after c n (n, two_logs receipt.logs) _ refl
        λ (logs : c.Log × c.Log) n.
          Keeps-after c n (n, map_err _ (c.parse_tee_attestation_requested logs.1)) _ refl
            λ challenge n. Keeps-after c n (n, instruction_sent c m prv logs.0) _ refl λ id n. refl

  pub pre_registration-Once :
      (host_url : String) (tee_id proxy_id : Bytes) (info : TeeInfo) (n : Net c)
      → Once c
          (Registers host_url proxy_id info)
          n
          (pre_registration c m prv host_url tee_id proxy_id info n)
  unfolding pre_registration
  pre_registration-Once host_url tee_id proxy_id info n =
      let P = Registers host_url proxy_id info in
      before_Once c P n (n, c.new_keyed_transactor prv) _ refl
        λ u n. before_Once c P n _ _ (Keeps-ensure c n _ _) λ u n.
          over_lift (Once c P n) n (m.transform_signature_rsv_to_vrs info.data_signature) _
            (λ e. inl refl)
            λ vrs e. Once-checked c P n prv registration_fee _ _ _ (vrs, e, refl) registered-Keeps

  pub request_attestation-Once :
      (tee_id : Bytes) (n : Net c)
      → Once c
          (λ x. x ≡ request_tee_attestation tee_id (c.pubkey_to_address prv))
          n
          (request_attestation c m prv tee_id n)
  unfolding request_attestation
  request_attestation-Once tee_id n =
      before_Once c _ n (n, c.new_keyed_transactor prv) _ refl
        λ u n. Once-checked c _ n prv registration_fee _ _ _ refl λ (receipt : Receipt c.Log) n.
          Keeps-after c n (n, two_logs receipt.logs) _ refl λ logs n. refl

  pub request_availability_check-Once :
      (tee_id external_tee_id attest_id : Bytes) (n : Net c)
      → Once c
          (λ x.
            x
            ≡ request_availability_check_attestation tee_id attest_id external_tee_id
                (c.pubkey_to_address prv)
                (c.pubkey_to_address prv))
          n
          (request_availability_check c m prv tee_id external_tee_id attest_id n)
  unfolding request_availability_check
  request_availability_check-Once tee_id external_tee_id attest_id n =
      before_Once c _ n (n, c.new_keyed_transactor prv) _ refl
        λ u n. Once-checked c _ n prv registration_fee _ _ _ refl λ (receipt : Receipt c.Log) n.
          Keeps-after c n (n, one_log receipt.logs "no logs found in receipt") _ refl λ logs n. refl

  pub promote-Once :
      (proof : Proof) (n : Net c)
      → Once c (λ x. x ≡ to_production proof) n (promote c m prv proof n)
  unfolding promote
  promote-Once proof n =
      before_Once c _ n (n, c.new_keyed_transactor prv) _ refl
        λ u n. Once-checked c _ n prv 0 _ _ _ refl λ (receipt : Receipt c.Log) n.
          Keeps-after c n (n, m.get_tee_machine n.world proof.request_tee_id) _ refl
            λ found n. Keeps-ensure c n _ _

  pub add_version-Once :
      (extension_id : ℕ) (code_hash platform version : Bytes) (n : Net c)
      → Once c
          (λ x.
            (packed : Bytes) × (string_to_bytes32 m.quote version ≡ ok packed)
            × (x ≡ add_tee_version extension_id packed code_hash (platform ∷ [])))
          n
          (add_version c m prv extension_id code_hash platform version n)
  unfolding add_version
  add_version-Once extension_id code_hash platform version n =
      before_Once c _ n (n, c.new_keyed_transactor prv) _ refl
        λ u n. elim (Result-cases (string_to_bytes32 m.quote version)) [
          | inr (text, p) ↦ rw p (inl refl)
          | inl (packed, p) ↦ rw p (
              Once-checked c _ n prv 0 _ _ _ (packed, refl, refl)
                λ (receipt : Receipt c.Log) n. refl)
        ]
