-- ===== src/Commands/EndToEnd/Passed.antt =====
-- tee/go/tools/cmd/run-test/main.go: a test that passes.
use cipher_sign.Prelude.{◌∷◌, Bytes, ok, map_err, ◌≡◌}
use cipher_sign.Prelude.Text.{String}
use cipher_sign.Prelude.Runs.{Run, ◌>>=◌, lift, on_error}
use cipher_sign.Chain.{Chain, Net, Method, set_extension_id, update_key, sign}
use cipher_sign.Instructions.{Sender, send_update_key, send_sign}
use cipher_sign.Fcc.Poll.{Proxy, ActionResponse}
use cipher_sign.Fcc.Transactions.{prefixed}
use cipher_sign.Commands.RunTest.{Recovery, check_reply}
use cipher_sign.Commands.EndToEnd.{Tee, test_message, verdict_text, result_step}
use cipher_sign.Commands.EndToEnd.Steps.{AtMost, Encrypts, Succeeds}

module _ (c : Chain) (x : Sender c) (prv : c.PrivateKey) (p : Proxy c.World) (t : Tee c.World)
    (r : Recovery) where
  -- Of a test that passes: the chain after step 1, before and after the wait for the result of the key
  -- update, and after the signature request; the two replies, and the address that the signature is
  -- checked against.
  pub record Passes (url : String) (address : Bytes) (n n' : Net c) : Type 0 where
    pub after_id : Net c
    pub after_update : Net c
    pub before_sign : Net c
    pub after_sign : Net c
    pub ciphertext : Bytes
    pub test_address : Bytes
    pub update_id : Bytes × Bytes
    pub sign_id : Bytes × Bytes
    pub updated : ActionResponse
    pub response : ActionResponse
    pub sets_id : AtMost c x prv p t r (set_extension_id address) n after_id
    pub encrypts : Encrypts c x prv p t r url after_id.world ciphertext test_address
    pub sends : n'.sent ≡ sign address test_message ∷ update_key address ciphertext ∷ after_id.sent
    pub updates : send_update_key c x prv address ciphertext after_id ≡ (after_update, ok update_id)
    pub update_succeeds : Succeeds c x prv p t r url update_id.0 after_update before_sign updated
    pub signs : send_sign c x prv address test_message before_sign ≡ (after_sign, ok sign_id)
    pub sign_succeeds : Succeeds c x prv p t r url sign_id.0 after_sign n' response
    pub checks : check_reply r test_message test_address response.result_data ≡ ok tt

  trail :
      (n1 n2 n3 n4 n5 n6 n' : Net c) (u v : Method)
      → n1 ≡ n2
      → n3.sent ≡ u ∷ n2.sent
      → n4.sent ≡ n3.sent
      → n5.sent ≡ v ∷ n4.sent
      → n6.sent ≡ n5.sent
      → n6 ≡ n'
      → n'.sent ≡ v ∷ u ∷ n1.sent
  trail n1 n2 n3 n4 n5 n6 n' u v e2 s3 s4 s5 s6 same = cc

  -- The end of the test, from the signature request on.
  record Signed (url : String) (address test_address : Bytes) (n n' : Net c) : Type 0 where
    after_sign : Net c
    sign_id : Bytes × Bytes
    response : ActionResponse
    sent_sign : n'.sent ≡ sign address test_message ∷ n.sent
    signs : send_sign c x prv address test_message n ≡ (after_sign, ok sign_id)
    succeeds : Succeeds c x prv p t r url sign_id.0 after_sign n' response
    checks : check_reply r test_message test_address response.result_data ≡ ok tt

  abbrev sign_steps : String → Bytes → Bytes → Run (Net c) String (Unit {0})
  sign_steps url address test_address = do
    (sign_id, _) ← on_error (send_sign c x prv address test_message) (prefixed "sign: ")
    response ← result_step c x prv p t r "sign" url sign_id
    lift (
        map_err (verdict_text t.hex test_address)
          (check_reply r test_message test_address response.result_data))
