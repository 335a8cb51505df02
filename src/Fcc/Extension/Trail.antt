-- ===== src/Fcc/Extension/Trail.antt =====
-- tee/go/tools/pkg/fccutils/extension.go: what SetupExtension sends, and in which order.
use cipher_sign.Prelude.{
  ℕ, Bool, true, false, List, [], ◌∷◌, Bytes, Result, ok, map_err, Result-cases, ◌≡◌, ◌⊎◌, inl, inr,
  refl, sym, ap,
}
use cipher_sign.Prelude.Text.{String}
use cipher_sign.Prelude.Runs.{Run, from_ok}
use mathlib.Core.Path.{subst}
use cipher_sign.Chain.{
  Chain, Net, Receipt, Method, register_extension, add_allowed_tee_machine_owners,
  add_allowed_tee_wallet_project_owners, add_supported_key_types,
}
use cipher_sign.Chain.Sent.{Once-ok, SendsOne, Once, before_Once, Keeps-after, Once-wrap}
use cipher_sign.Support.Mined.Outcome.{Once-checked, Once-rechecked}
use cipher_sign.Fcc.Transactions.{one_log, prefixed}
use cipher_sign.Fcc.Extension.{
  Registry, registry_logs, unless_already, deployer, register_extension_call,
  allow_tee_machine_owners, allow_tee_project_manager_owners, add_key_types, add_machine_owner,
  add_project_owner, ensure_machine_owner, ensure_project_owner, ensure_key_type, setup_extension,
}

module _ (c : Chain) (r : Registry c.World c.Log) (prv : c.PrivateKey) where
  -- The call is left out where the answer is yes, and sent once where it is no.
  abbrev pub Ensured : (c.World → Result String Bool) → Method → Net c → Net c → Type 0
  Ensured question x n n' =
      ((question n.world ≡ ok true) × (n' ≡ n))
      ⊎ ((question n.world ≡ ok false) × SendsOne c (λ y. y ≡ x) n n')

  Ensured-from :
      (question : c.World → Result String Bool) (f : String → String) (x : Method)
      (call : Run (Net c) String (Unit {0})) (n n' : Net c) (u : Unit {0})
      → Once c (λ y. y ≡ x) n (call n)
      → unless_already c r prv (map_err f (question n.world)) call n ≡ (n', ok u)
      → Ensured question x n n'
  Ensured-from question f x call n n' u o h = elim (Result-cases (question n.world)) [
    | inr (text, p) ↦ absurd (cc (rw p at h))
    | inl (true, p) ↦ inl (p, sym (ap (λ y. y.0) (rw p at h)))
    | inl (false, p) ↦ inr (p, Once-ok c (λ y. y ≡ x) n n' u (call n) o (rw p at h))
  ]

  register_extension_call-Once :
      (sender verifier : Bytes) (n : Net c)
      → Once c
          (λ y. y ≡ register_extension verifier sender)
          n
          (register_extension_call c r prv sender verifier n)
  unfolding register_extension_call
  register_extension_call-Once sender verifier n =
      Once-rechecked c _ n prv 0 _ _ _ _ refl λ (receipt : Receipt c.Log) n.
        Keeps-after c n (n, registry_logs receipt.logs) _ refl
          λ (logs : c.Log × c.Log) n.
            Keeps-after c n (n, map_err _ (r.parse_tee_extension_registered logs.0)) _ refl
              λ id n.
                Keeps-after c n (n, map_err _ (r.parse_tee_extension_contracts_set logs.1)) _ refl
                  λ set n. refl

  allow_tee_machine_owners-Once :
      (id : ℕ) (owners : List Bytes) (n : Net c)
      → Once c
          (λ y. y ≡ add_allowed_tee_machine_owners id owners)
          n
          (allow_tee_machine_owners c r prv id owners n)
  unfolding allow_tee_machine_owners
  allow_tee_machine_owners-Once id owners n =
      Once-rechecked c _ n prv 0 _ _ _ _ refl λ (receipt : Receipt c.Log) n.
        Keeps-after c n (n, one_log receipt.logs _) _ refl λ log n. refl

  allow_tee_project_manager_owners-Once :
      (id : ℕ) (owners : List Bytes) (n : Net c)
      → Once c
          (λ y. y ≡ add_allowed_tee_wallet_project_owners id owners)
          n
          (allow_tee_project_manager_owners c r prv id owners n)
  unfolding allow_tee_project_manager_owners
  allow_tee_project_manager_owners-Once id owners n =
      Once-rechecked c _ n prv 0 _ _ _ _ refl λ (receipt : Receipt c.Log) n.
        Keeps-after c n (n, one_log receipt.logs _) _ refl λ log n. refl

  add_key_types-Once :
      (id : ℕ) (types : List Bytes) (n : Net c)
      → Once c (λ y. y ≡ add_supported_key_types id types) n (add_key_types c r prv id types n)
  unfolding add_key_types
  add_key_types-Once id types n =
      before_Once c _ n (n, c.new_keyed_transactor prv) _ refl
        λ u n. Once-checked c _ n prv 0 _ _ _ refl λ (receipt : Receipt c.Log) n. refl

  -- What a setup that ends well has sent, with the chain as it is between its steps.
  pub record SetUp (evm_type sender verifier : Bytes) (id : ℕ) (n n' : Net c) : Type 0 where
    pub registered : Net c
    pub after_machine : Net c
    pub after_project : Net c
    pub registers : SendsOne c (λ y. y ≡ register_extension verifier sender) n registered
    pub machine_owner :
        Ensured
          (λ w. r.is_allowed_tee_machine_owner w id (deployer c r prv))
          (add_allowed_tee_machine_owners id (deployer c r prv ∷ []))
          registered
          after_machine
    pub project_owner :
        Ensured
          (λ w. r.is_allowed_tee_wallet_project_owner w id (deployer c r prv))
          (add_allowed_tee_wallet_project_owners id (deployer c r prv ∷ []))
          after_machine
          after_project
    pub key_type :
        Ensured
          (λ w. r.is_key_type_supported w id evm_type)
          (add_supported_key_types id (evm_type ∷ []))
          after_project
          n'

  machine_owner-Ensured :
      (id : ℕ) (n n' : Net c) (u : Unit {0})
      → ensure_machine_owner c r prv id n ≡ (n', ok u)
      → Ensured
          (λ w. r.is_allowed_tee_machine_owner w id (deployer c r prv))
          (add_allowed_tee_machine_owners id (deployer c r prv ∷ []))
          n
          n'
  unfolding ensure_machine_owner
  machine_owner-Ensured id n n' u h =
      Ensured-from (λ w. r.is_allowed_tee_machine_owner w id (deployer c r prv))
        (prefixed "failed checking TEE machine owner status: ")
        (add_allowed_tee_machine_owners id (deployer c r prv ∷ [])) (add_machine_owner c r prv id) n
        n' u
        (Once-wrap c _ n _ (allow_tee_machine_owners c r prv id (deployer c r prv ∷ []) n)
          (allow_tee_machine_owners-Once id _ n))
        h

  project_owner-Ensured :
      (id : ℕ) (n n' : Net c) (u : Unit {0})
      → ensure_project_owner c r prv id n ≡ (n', ok u)
      → Ensured
          (λ w. r.is_allowed_tee_wallet_project_owner w id (deployer c r prv))
          (add_allowed_tee_wallet_project_owners id (deployer c r prv ∷ []))
          n
          n'
  unfolding ensure_project_owner
  project_owner-Ensured id n n' u h =
      Ensured-from (λ w. r.is_allowed_tee_wallet_project_owner w id (deployer c r prv))
        (prefixed "failed checking wallet project owner status: ")
        (add_allowed_tee_wallet_project_owners id (deployer c r prv ∷ []))
        (add_project_owner c r prv id) n n' u
        (Once-wrap c _ n _ (allow_tee_project_manager_owners c r prv id (deployer c r prv ∷ []) n)
          (allow_tee_project_manager_owners-Once id _ n))
        h

  key_type-Ensured :
      (evm_type : Bytes) (id : ℕ) (n n' : Net c) (u : Unit {0})
      → ensure_key_type c r prv evm_type id n ≡ (n', ok u)
      → Ensured
          (λ w. r.is_key_type_supported w id evm_type)
          (add_supported_key_types id (evm_type ∷ []))
          n
          n'
  unfolding ensure_key_type
  key_type-Ensured evm_type id n n' u h =
      Ensured-from (λ w. r.is_key_type_supported w id evm_type) (λ text. text)
        (add_supported_key_types id (evm_type ∷ [])) (add_key_types c r prv id (evm_type ∷ [])) n n'
        u (add_key_types-Once id (evm_type ∷ []) n) h

  carried :
      {evm_type sender verifier : Bytes} {id id' : ℕ} {n n0 n' n4 : Net c}
      {x : Result String (Unit {0})} {u : Unit {0}}
      → ◌≡◌ {A = Net c × Result String (Unit {0})} (n, x) (n0, ok u)
      → ◌≡◌ {A = Net c × Result String ℕ} (n4, ok id) (n', ok id')
      → SetUp evm_type sender verifier id n0 n4
      → SetUp evm_type sender verifier id' n n'
  carried {evm_type} {sender} {verifier} {id} {id'} {n} {n0} {n'} {n4} e h s =
      let same : id ≡ id' = cc (ap (λ y. y.1) h) in
      subst (λ m. SetUp evm_type sender verifier id' m n') (sym (ap (λ y. y.0) e))
        (subst (λ m. SetUp evm_type sender verifier id' n0 m) (ap (λ y. y.0) h)
          (subst (λ i. SetUp evm_type sender verifier i n0 n4) same s))

  -- A setup that ends well has registered the two contracts in one call, and has then added the
  -- deployer as a machine owner, the deployer as a project owner and the key type, in this order and
  -- each in one call, except those which the chain had already at that point; it has sent no other.
  pub setup_extension-SetUp :
      (evm_type sender verifier : Bytes) (n n' : Net c) (id : ℕ)
      → setup_extension c r prv evm_type sender verifier n ≡ (n', ok id)
      → SetUp evm_type sender verifier id n n'
  unfolding setup_extension
  setup_extension-SetUp evm_type sender verifier n n' id h =
      from_ok (n, c.new_keyed_transactor prv) _ n' id h
        λ n0 u0 e0 h0.
          from_ok (register_extension_call c r prv sender verifier n0) _ n' id h0 λ n1 id1 e1 h1.
            from_ok (ensure_machine_owner c r prv id1 n1) _ n' id h1 λ n2 u2 e2 h2.
              from_ok (ensure_project_owner c r prv id1 n2) _ n' id h2 λ n3 u3 e3 h3.
                from_ok (ensure_key_type c r prv evm_type id1 n3) _ n' id h3 λ n4 u4 e4 h4.
                  carried e0 h4 (record {
                    registered = n1;
                    after_machine = n2;
                    after_project = n3;
                    registers =
                        Once-ok c _ n0 n1 id1 _ (register_extension_call-Once sender verifier n0)
                          e1;
                    machine_owner = machine_owner-Ensured id1 n1 n2 u2 e2;
                    project_owner = project_owner-Ensured id1 n2 n3 u3 e3;
                    key_type = key_type-Ensured evm_type id1 n3 n4 u4 e4;
                  })
