-- ===== src/Commands/EndToEnd/Steps.antt =====
-- tee/go/tools/cmd/run-test/main.go: the steps of a test that go well.
use cipher_sign.Prelude.{
  [], ◌∷◌, Bytes, Result, ok, err, ◌==◌, Bool-cases, Result-cases, ◌≡◌, ◌≢◌, ◌⊎◌, inl, inr, refl,
  sym, ap, ap₂, ◌∙◌, arith,
}
use cipher_sign.Prelude.Text.{String, concat}
use cipher_sign.Prelude.Runs.{lift, wrap, from_ok}
use mathlib.Core.Path.{subst}
use cipher_sign.Chain.{Chain, Net, Method, beside, aside, set_extension_id}
use cipher_sign.Chain.Sent.{Once-ok, Keeps, Once, Keeps-wrap, Keeps-after, Keeps-aside}
use cipher_sign.Instructions.{Sender, set_extension_id_call}
use cipher_sign.Instructions.Sent.{set_extension_id_call-Once}
use cipher_sign.Fcc.Poll.{Proxy, ActionResponse, action_result}
use cipher_sign.Fcc.Transactions.{TeeInfo}
use cipher_sign.Commands.RunTest.{Recovery}
use cipher_sign.Commands.EndToEnd.{
  Tee, test_key, unless_set, set_id_step, encrypted_key, succeeded, result_step,
}

module _ (c : Chain) (x : Sender c) (prv : c.PrivateKey) (p : Proxy c.World) (t : Tee c.World)
    (r : Recovery) where
  abbrev pub AtMost : Method → Net c → Net c → Type 0
  AtMost m n n' = (n'.sent ≡ n.sent) ⊎ (n'.sent ≡ m ∷ n.sent)

  pub one_ok :
      {A : Type 0} (m : Method) (n n' : Net c) (a : A) (y : Net c × Result String A)
      → Once c (λ z. z ≡ m) n y
      → y ≡ (n', ok a)
      → n'.sent ≡ m ∷ n.sent
  one_ok m n n' a y o h =
      let (z, q, e) = Once-ok c (λ z. z ≡ m) n n' a y o h in e ∙ ap (λ w. w ∷ n.sent) q

  pub wrapped_ok :
      {A : Type 0} (g : String → String) (y : Net c × Result String A) (n' : Net c) (a : A)
      → wrap g y ≡ (n', ok a)
      → y ≡ (n', ok a)
  wrapped_ok g (n1, ok b) n' a h = h
  wrapped_ok g (n1, err e) n' a h = absurd (cc (ap (λ z. z.1) h))

  Once-AtMost :
      {A : Type 0} (m : Method) (n : Net c) (y : Net c × Result String A)
      → Once c (λ z. z ≡ m) n y
      → AtMost m n y.0
  Once-AtMost m n (n', ok a) (z, q, e) = inr (e ∙ ap (λ w. w ∷ n.sent) q)
  Once-AtMost m n (n', err text) (inl e) = inl e
  Once-AtMost m n (n', err text) (inr (z, q, e)) = inr (e ∙ ap (λ w. w ∷ n.sent) q)

  same_net : (y : Net c × Result String (Unit {0})) → (unless_set c x prv p t r y).0 ≡ y.0
  same_net (n, ok u) = refl
  same_net (n, err text) = ground arith

  pub set_id_step-AtMost :
      (address : Bytes) (n n' : Net c) (u : Unit {0})
      → set_id_step c x prv p t r address n ≡ (n', ok u)
      → AtMost (set_extension_id address) n n'
  unfolding set_id_step
  set_id_step-AtMost address n n' u h =
      let y = set_extension_id_call c x prv address n in
      subst (λ z. AtMost (set_extension_id address) n z) (sym (same_net y) ∙ ap (λ z. z.0) h)
        (Once-AtMost (set_extension_id address) n y (set_extension_id_call-Once c x prv address n))

  pub result_step-Keeps :
      (name url : String) (id : Bytes) (n : Net c)
      → Keeps c n (result_step c x prv p t r name url id n)
  unfolding result_step
  result_step-Keeps name url id n =
      Keeps-after c n _ (λ response. lift (succeeded c x prv p t r name response))
        (Keeps-wrap c n _ _
          (Keeps-aside c n (λ w. action_result p url (c.hash_hex id) (p.sleep 5 w))))
        λ response n. refl

  -- Step 2 has gone well in a world: the TEE's key was read and the fixed key parsed; the ciphertext is
  -- that of the fixed key for the TEE, and the address belongs to the fixed key.
  pub record Encrypts (url : String) (w : c.World) (ciphertext test_address : Bytes) : Type 0 where
    pub info : TeeInfo
    pub info_read : t.tee_info w url ≡ ok info
    pub public : t.Public
    pub public_read : t.parse_pub_key info.public_key ≡ ok public
    pub test_prv : r.PrivateKey
    pub test_parsed : r.to_ecdsa test_key ≡ ok test_prv
    pub encrypted : t.encrypt w public test_key ≡ ok ciphertext
    pub address_of_key : test_address ≡ r.pubkey_to_address (r.public_key test_prv)

  ok_pair :
      {a b x y : Bytes}
      → ◌≡◌ {A = Result String (Bytes × Bytes)} (ok (a, b)) (ok (x, y))
      → (a ≡ x) × (b ≡ y)
  ok_pair h = (cc h, cc h)

  pub encrypted_key-Encrypts :
      (url : String) (w : c.World) (ciphertext test_address : Bytes)
      → encrypted_key c x prv p t r url w ≡ ok (ciphertext, test_address)
      → Encrypts url w ciphertext test_address
  unfolding encrypted_key
  encrypted_key-Encrypts url w ciphertext test_address h = elim (Result-cases (t.tee_info w url)) [
    | inr (e, q) ↦ absurd (cc (h, q))
    | inl (info, q1) ↦ elim (Result-cases (t.parse_pub_key info.public_key)) [
      | inr (e, q) ↦ absurd (cc (h, q1, q))
      | inl (public, q2) ↦ elim (Result-cases (r.to_ecdsa test_key)) [
        | inr (e, q) ↦ absurd (cc (h, q1, q2, q))
        | inl (test_prv, q3) ↦ elim (Result-cases (t.encrypt w public test_key)) [
          | inr (e, q) ↦
              let failed : encrypted_key c x prv p t r url w
                  ≡ err (concat ("ECIES encrypt: " ∷ e ∷ [])) =
                rw (q1, q2, q3, q, encrypted_key) refl in
              absurd (cc (sym failed ∙ h))
          | inl (b, q4) ↦
              let computed : encrypted_key c x prv p t r url w
                  ≡ ok (b, r.pubkey_to_address (r.public_key test_prv)) =
                rw (q1, q2, q3, q4, encrypted_key) refl in
              let (same_text, same_address) = ok_pair (sym computed ∙ h) in
              record {
                info = info;
                info_read = q1;
                public = public;
                public_read = q2;
                test_prv = test_prv;
                test_parsed = q3;
                encrypted = q4 ∙ ap ok same_text;
                address_of_key = sym same_address;
              }
        ]
      ]
    ]
  ]

  -- The proxy is asked for the result of an instruction after a pause of five seconds, and its reply has
  -- another status than 0.
  pub record Succeeds (url : String) (id : Bytes) (n n' : Net c) (response : ActionResponse)
      : Type 0 where
    pub replied : action_result p url (c.hash_hex id) (p.sleep 5 n.world) ≡ (n'.world, ok response)
    pub not_failed : response.result_status ≢ 0

  beside_ok :
      {A : Type 0} (y : c.World × Result String A) (n n' : Net c) (a : A)
      → beside c n.sent y ≡ (n', ok a)
      → y ≡ (n'.world, ok a)
  beside_ok (w, ok b) n n' a h = ap (λ z. (z.0.world, z.1)) h
  beside_ok (w, err e) n n' a h = absurd (cc (ap (λ z. z.1) h))

  succeeded_ok :
      (name : String) (response other : ActionResponse)
      → succeeded c x prv p t r name response ≡ ok other
      → (response ≡ other) × (response.result_status ≢ 0)
  succeeded_ok name response other h = elim (Bool-cases (response.result_status == 0)) [
    | inl z ↦ absurd (cc (h, z))
    | inr z ↦ (cc (h, z), λ e. ground arith)
  ]

  pub result_step-Succeeds :
      (name url : String) (id : Bytes) (n n' : Net c) (response : ActionResponse)
      → result_step c x prv p t r name url id n ≡ (n', ok response)
      → Succeeds url id n n' response
  unfolding result_step
  result_step-Succeeds name url id n n' response h =
      let asked = aside c (λ w. action_result p url (c.hash_hex id) (p.sleep 5 w)) n in
      from_ok (wrap _ asked) _ n' response h λ n1 reply e1 h1.
        let (same, good) = succeeded_ok name reply response (ap (λ z. z.1) h1) in
        record {
          replied = beside_ok _ n n' response (
              wrapped_ok _ asked n1 reply e1
              ∙ ap₂ {C = Net c × Result String ActionResponse} (λ x y. (x, ok y)) (ap (λ z. z.0) h1)
                  same);
          not_failed = subst (λ z. z.result_status ≢ 0) same good;
        }
