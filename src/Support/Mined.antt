-- ===== src/Support/Mined.antt =====
-- tee/go/tools/pkg/support/support.go: CheckTx. The two minutes are those of `wait_mined`.
pub mod Outcome
use cipher_sign.Prelude.{not, [], ◌∷◌, ◌==◌, if◌then◌else◌}
use cipher_sign.Prelude.Text.{String, concat}
use cipher_sign.Prelude.Runs.{Run, ◌>>=◌, ◌>>◌, pure, fail, view, on_error}
use cipher_sign.Chain.{Chain, Net, Receipt, wait_mined}
use cipher_sign.Support.Failure.{get_failing_message}

module _ (c : Chain) where
  unfoldable pub not_mined : c.Tx → String → String
  not_mined tx text = concat (
      "transaction not mined within 2 minutes (tx: "
      ∷ c.hash_hex (c.tx_hash tx)
      ∷ "): "
      ∷ text
      ∷ [])

  -- The error of a receipt with status 0.
  unfoldable pub failed_tx : c.Tx → Run (Net c) String (Receipt c.Log)
  failed_tx tx = do
    reason ← view (λ n. get_failing_message c (c.tx_hash tx) n.world)
    fail (concat ("error: Transaction fail: " ∷ reason ∷ []))

  unfoldable pub check_tx : c.Tx → Run (Net c) String (Receipt c.Log)
  unfolding failed_tx not_mined
  check_tx tx = do
    receipt ← on_error (wait_mined c tx) (not_mined tx)
    if receipt.status == 0 then failed_tx tx else pure receipt
