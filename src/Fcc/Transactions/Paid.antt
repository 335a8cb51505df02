-- ===== src/Fcc/Transactions/Paid.antt =====
-- tee/go/tools/pkg/fccutils/registration.go: what each function of a registration sends, with which key
-- and which value.
use cipher_sign.Prelude.{
  ℕ, Bool, true, false, [], ◌∷◌, Bytes, length, ◌==◌, Result, ok, err, ◌≡◌, ◌⊎◌, inl, inr, refl,
  ◌∙◌,
}
use cipher_sign.Prelude.Text.{String}
use cipher_sign.Prelude.Runs.{Run, after, ◌>>=◌, wrap, ensure, over_lift}
use cipher_sign.Chain.{
  Chain, Net, Receipt, RpcError, Proof, Method, send, noted, request_tee_attestation,
  request_availability_check_attestation, to_production, add_tee_version,
}
use cipher_sign.Chain.Sent.{Keeps, Keeps-after, Keeps-ensure}
use cipher_sign.Support.Mined.{check_tx}
use cipher_sign.Support.Mined.Outcome.{check_tx-Keeps}
use cipher_sign.Fcc.Transactions.{
  TeeInfo, Machines, registration_fee, string_to_bytes32, two_logs, one_log, pre_registration,
  request_attestation, request_availability_check, promote, add_version,
}
use cipher_sign.Fcc.Transactions.Sent.{Registers, registered-Keeps}

module _ (c : Chain) (prv : c.PrivateKey) (value : ℕ) where
  -- One call of the kind was sent, and the binding has accepted it with this key and this value.
  abbrev pub Pays : (Method → Type 0) → Net c → Net c → Type 0
  Pays P n n' =
      (x : Method) × (w : c.World) × (tx : c.Tx) × P x
      × (c.transact prv value x n.world ≡ (w, ok tx))
      × (n'.sent ≡ x ∷ n.sent)

  -- So once if the computation ends well, and so once or nothing at all if it fails.
  abbrev pub PaidOnce : {E A : Type 0} → (Method → Type 0) → Net c → Net c × Result E A → Type 0
  PaidOnce P n (n', ok a) = Pays P n n'
  PaidOnce P n (n', err e) = (n'.sent ≡ n.sent) ⊎ Pays P n n'

  Pays-behind :
      {E A : Type 0} (P : Method → Type 0) (n n' : Net c) (x : Net c × Result E A)
      → Pays P n n'
      → Keeps c n' x
      → PaidOnce P n x
  Pays-behind P n n' (n2, ok a) (m, w, tx, p, t, q) k = (m, w, tx, p, t, k ∙ q)
  Pays-behind P n n' (n2, err e) (m, w, tx, p, t, q) k = inr (m, w, tx, p, t, k ∙ q)

  behind_PaidOnce :
      {E A B : Type 0} (P : Method → Type 0) (n : Net c) (x : Net c × Result E A)
      (f : A → Run (Net c) E B)
      → PaidOnce P n x
      → ((a : A) (n' : Net c) → Keeps c n' (f a n'))
      → PaidOnce P n (after x f)
  behind_PaidOnce P n (n', ok a) f o k = Pays-behind P n n' (f a n') o (k a n')
  behind_PaidOnce P n (n', err e) f o k = o

  noted-PaidOnce :
      {F : Type 0} (P : Method → Type 0) (n : Net c) (m : Method) (g : RpcError → F)
      (x : c.World × Result RpcError c.Tx)
      → P m
      → c.transact prv value m n.world ≡ x
      → PaidOnce P n (wrap g (noted c n.sent m x))
  noted-PaidOnce P n m g (w, ok tx) p e = (m, w, tx, p, e, refl)
  noted-PaidOnce P n m g (w, err t) p e = inl refl

  over_ensure :
      {B : Type 0} (P : Method → Type 0) (n : Net c) (b : Bool) (e : String)
      (f : Unit {0} → Run (Net c) String B)
      → ((u : Unit {0}) → PaidOnce P n (f u n))
      → PaidOnce P n (after (ensure b e n) f)
  over_ensure P n true e f h = h tt
  over_ensure P n false e f h = inl refl

  -- A call that is sent, checked and then only read.
  PaidOnce-checked :
      {A : Type 0} (P : Method → Type 0) (n : Net c) (m : Method) (g : RpcError → String)
      (f : Receipt c.Log → Run (Net c) String A)
      → P m
      → ((receipt : Receipt c.Log) (n' : Net c) → Keeps c n' (f receipt n'))
      → PaidOnce P n (after (wrap g (send c prv value m n)) (λ tx. check_tx c tx >>= f))
  unfolding send
  PaidOnce-checked P n m g f h k =
      behind_PaidOnce P n _ _ (noted-PaidOnce P n m g (c.transact prv value m n.world) h refl)
        λ tx n'. Keeps-after c n' (check_tx c tx n') f (check_tx-Keeps c tx n') k

module _ (c : Chain) (m : Machines c.World) (prv : c.PrivateKey) where
  pre_registration-PaidOnce :
      (host_url : String) (tee_id proxy_id : Bytes) (info : TeeInfo) (n : Net c)
      → PaidOnce c prv 1_000_000_000
          (Registers c m prv host_url proxy_id info)
          n
          (pre_registration c m prv host_url tee_id proxy_id info n)
  unfolding pre_registration
  pre_registration-PaidOnce host_url tee_id proxy_id info n =
      let P = Registers c m prv host_url proxy_id info in
      let Q : Net c × Result String (Bytes × Bytes) → Type 0 = PaidOnce c prv 1_000_000_000 P n in
      over_lift Q n (c.new_keyed_transactor prv) _ (λ e. inl refl)
        λ u e.
          over_ensure c prv registration_fee P n (length info.data_signature == 65)
            "signature error" _
            λ u.
              over_lift Q n (m.transform_signature_rsv_to_vrs info.data_signature) _ (λ e. inl refl)
                λ vrs e.
                  PaidOnce-checked c prv registration_fee P n _ _ _ (vrs, e, refl)
                    (registered-Keeps c m prv)

  request_attestation-PaidOnce :
      (tee_id : Bytes) (n : Net c)
      → PaidOnce c prv 1_000_000_000
          (λ x. x ≡ request_tee_attestation tee_id (c.pubkey_to_address prv))
          n
          (request_attestation c m prv tee_id n)
  unfolding request_attestation
  request_attestation-PaidOnce tee_id n =
      over_lift (PaidOnce c prv 1_000_000_000 _ n) n (c.new_keyed_transactor prv) _ (λ e. inl refl)
        λ u e. PaidOnce-checked c prv registration_fee _ n _ _ _ refl λ (receipt : Receipt c.Log) n.
          Keeps-after c n (n, two_logs receipt.logs) _ refl λ logs n. refl

  request_availability_check-PaidOnce :
      (tee_id external_tee_id attest_id : Bytes) (n : Net c)
      → PaidOnce c prv 1_000_000_000
          (λ x.
            x
            ≡ request_availability_check_attestation tee_id attest_id external_tee_id
                (c.pubkey_to_address prv)
                (c.pubkey_to_address prv))
          n
          (request_availability_check c m prv tee_id external_tee_id attest_id n)
  unfolding request_availability_check
  request_availability_check-PaidOnce tee_id external_tee_id attest_id n =
      over_lift (PaidOnce c prv 1_000_000_000 _ n) n (c.new_keyed_transactor prv) _ (λ e. inl refl)
        λ u e. PaidOnce-checked c prv registration_fee _ n _ _ _ refl λ (receipt : Receipt c.Log) n.
          Keeps-after c n (n, one_log receipt.logs "no logs found in receipt") _ refl λ logs n. refl

  promote-PaidOnce :
      (proof : Proof) (n : Net c)
      → PaidOnce c prv 0 (λ x. x ≡ to_production proof) n (promote c m prv proof n)
  unfolding promote
  promote-PaidOnce proof n =
      over_lift (PaidOnce c prv 0 _ n) n (c.new_keyed_transactor prv) _ (λ e. inl refl)
        λ u e. PaidOnce-checked c prv 0 _ n _ _ _ refl λ (receipt : Receipt c.Log) n.
          Keeps-after c n (n, m.get_tee_machine n.world proof.request_tee_id) _ refl
            λ found n. Keeps-ensure c n _ _

  -- The version is added under its text, padded to 32 bytes.
  abbrev pub AddsVersion : ℕ → Bytes → Bytes → Bytes → Method → Type 0
  AddsVersion extension_id code_hash platform version x =
      (packed : Bytes) × (string_to_bytes32 m.quote version ≡ ok packed)
      × (x ≡ add_tee_version extension_id packed code_hash (platform ∷ []))

  add_version-PaidOnce :
      (extension_id : ℕ) (code_hash platform version : Bytes) (n : Net c)
      → PaidOnce c prv 0
          (AddsVersion extension_id code_hash platform version)
          n
          (add_version c m prv extension_id code_hash platform version n)
  unfolding add_version
  add_version-PaidOnce extension_id code_hash platform version n =
      let P = AddsVersion extension_id code_hash platform version in
      let Q : Net c × Result String (Unit {0}) → Type 0 = PaidOnce c prv 0 P n in
      over_lift Q n (c.new_keyed_transactor prv) _ (λ e. inl refl)
        λ u e.
          over_lift Q n (string_to_bytes32 m.quote version) _ (λ e. inl refl)
            λ packed e.
              PaidOnce-checked c prv 0 P n _ _ _ (packed, e, refl)
                λ (receipt : Receipt c.Log) n. refl

  -- PreRegistration sends the registration of the machine with the data that its info shows, its
  -- signature taken apart into flag, r and s, the proxy, the host and the key's address; the requests for
  -- an attestation and for an availability check go with the key's address as owner; ToProduction sends
  -- its proof and AddTeeVersion the version. Each call is sent once if the function ends well and once at
  -- most if it fails, with the given key, the first three with a value of 1000000000 and the last two
  -- with none, and no other call is sent.
  pub registration_calls-PaidOnce :
      (n : Net c) (host_url : String) (tee_id proxy_id external_tee_id attest_id : Bytes)
      (info : TeeInfo) (extension_id : ℕ) (code_hash platform version : Bytes) (proof : Proof)
      → PaidOnce c prv 1_000_000_000
          (Registers c m prv host_url proxy_id info)
          n
          (pre_registration c m prv host_url tee_id proxy_id info n)
        × PaidOnce c prv 1_000_000_000
            (λ x. x ≡ request_tee_attestation tee_id (c.pubkey_to_address prv))
            n
            (request_attestation c m prv tee_id n)
        × PaidOnce c prv 1_000_000_000
            (λ x.
              x
              ≡ request_availability_check_attestation tee_id attest_id external_tee_id
                  (c.pubkey_to_address prv)
                  (c.pubkey_to_address prv))
            n
            (request_availability_check c m prv tee_id external_tee_id attest_id n)
        × PaidOnce c prv 0 (λ x. x ≡ to_production proof) n (promote c m prv proof n)
        × PaidOnce c prv 0
            (AddsVersion extension_id code_hash platform version)
            n
            (add_version c m prv extension_id code_hash platform version n)
  registration_calls-PaidOnce n host_url tee_id proxy_id external attest_id info extension_id
        code_hash platform version proof =
      (
        pre_registration-PaidOnce host_url tee_id proxy_id info n,
        request_attestation-PaidOnce tee_id n,
        request_availability_check-PaidOnce tee_id external attest_id n,
        promote-PaidOnce proof n,
        add_version-PaidOnce extension_id code_hash platform version n,
      )
