-- ===== src/Support/Mined/Outcome.antt =====
-- tee/go/tools/pkg/support/support.go: which transactions CheckTx accepts.
use cipher_sign.Prelude.{
  [], ◌∷◌, ◌==◌, ==_iff, ok, err, Result-cases, Bool-cases, ◌≡◌, ◌≢◌, ◌⊎◌, inl, inr, refl, arith, ℕ,
}
use cipher_sign.Prelude.Text.{String, concat}
use cipher_sign.Prelude.Runs.{Run, after, ◌>>=◌, wrap, on_error, Run-cases}
use cipher_sign.Chain.{Chain, Net, Receipt, RpcError, Method, send, wait_mined}
use cipher_sign.Chain.Sent.{Keeps, Once, behind_Once, Keeps-after, Keeps-wrap, Once-send}
use cipher_sign.Support.Failure.{get_failing_message}
use cipher_sign.Support.Mined.{not_mined, failed_tx, check_tx}

module _ (c : Chain) where
  failed_tx-fails : (tx : c.Tx) (n : Net c) → (text : String) × (failed_tx c tx n ≡ (n, err text))
  unfolding failed_tx
  failed_tx-fails tx n = elim (Result-cases (get_failing_message c (c.tx_hash tx) n.world)) [
    | inl (reason, p) ↦ (concat ("error: Transaction fail: " ∷ reason ∷ []), rw p refl)
    | inr (text, p) ↦ (text, rw p refl)
  ]

  -- A check ends in one of two ways, in the world that the wait leaves and with nothing sent: the
  -- transaction is mined with another status than 0, and the check returns its receipt; or the wait
  -- fails or the status is 0, and the check is an error.
  pub check_tx-outcome :
      (tx : c.Tx) (n : Net c)
      → ((w : c.World) × (r : Receipt c.Log) × (c.wait_mined tx n.world ≡ (w, ok r))
          × (r.status ≢ 0)
          × (check_tx c tx n ≡ (record n { world = w }, ok r)))
        ⊎ ((w : c.World) × (text : String) × (((why : String) × (c.wait_mined tx n.world
                  ≡ (w, err why)))
              ⊎ ((r : Receipt c.Log) × (c.wait_mined tx n.world ≡ (w, ok r)) × (r.status ≡ 0)))
            × (check_tx c tx n ≡ (record n { world = w }, err text)))
  unfolding check_tx wait_mined
  check_tx-outcome tx n = elim (Run-cases (c.wait_mined tx n.world)) [
    | inr (w, text, p) ↦
        inr (w, not_mined c tx text, inl (text, p), rw (p, check_tx, wait_mined) refl)
    | inl (w, r, p) ↦ elim (Bool-cases (r.status == 0)) [
      | inr f ↦ inl (w, r, p, (λ z. ground arith), rw (p, f, check_tx, wait_mined) refl)
      | inl t ↦
          let (text, q) = failed_tx-fails tx (record n { world = w }) in
          inr (w, text, inr (r, p, (==_iff r.status 0).0 t), rw (p, t, check_tx, wait_mined) q)
    ]
  ]

  pub check_tx-Keeps : (tx : c.Tx) (n : Net c) → Keeps c n (check_tx c tx n)
  check_tx-Keeps tx n = elim (check_tx-outcome tx n) [
    | inl (w, r, p, z, e) ↦ rw e refl
    | inr (w, text, z, e) ↦ rw e refl
  ]

  -- A call that is sent, checked and then only read.
  pub Once-checked :
      {A : Type 0} (P : Method → Type 0) (n : Net c) (key : c.PrivateKey) (value : ℕ) (m : Method)
      (g : RpcError → String) (f : Receipt c.Log → Run (Net c) String A)
      → P m
      → ((receipt : Receipt c.Log) (n' : Net c) → Keeps c n' (f receipt n'))
      → Once c P n (after (wrap g (send c key value m n)) (λ tx. check_tx c tx >>= f))
  Once-checked P n key value m g f h k =
      behind_Once c P n _ _ (Once-send c P n key value m g h)
        λ tx n'. Keeps-after c n' (check_tx c tx n') f (check_tx-Keeps tx n') k

  -- The same, with the error of the check wrapped.
  pub Once-rechecked :
      {A : Type 0} (P : Method → Type 0) (n : Net c) (key : c.PrivateKey) (value : ℕ) (m : Method)
      (g : RpcError → String) (w : String → String) (f : Receipt c.Log → Run (Net c) String A)
      → P m
      → ((receipt : Receipt c.Log) (n' : Net c) → Keeps c n' (f receipt n'))
      → Once c P n (after (wrap g (send c key value m n)) (λ tx. on_error (check_tx c tx) w >>= f))
  Once-rechecked P n key value m g w f h k =
      behind_Once c P n _ _ (Once-send c P n key value m g h) λ tx n'.
        Keeps-after c n' (wrap w (check_tx c tx n')) f (Keeps-wrap c n' w _ (check_tx-Keeps tx n'))
          k
