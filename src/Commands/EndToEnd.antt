-- ===== src/Commands/EndToEnd.antt =====
-- tee/go/tools/cmd/run-test/main.go: the six steps of the end-to-end test. A call of FatalWithCause ends
-- it with an error. The proxy's info, the TEE's public key and the encryption for it are the record Tee.
pub mod Steps
pub mod Passed
use cipher_sign.Prelude.{
  ◌-◌, not, ◌||◌, [], ◌∷◌, Bytes, codes, length, ◌==◌, if◌then◌else◌, Result, ok, err, map_err,
}
use cipher_sign.Base.Hex.{HexError, decode_string}
use cipher_sign.Prelude.Text.{String, concat, itoa, has_text}
use cipher_sign.Prelude.Runs.{Run, ◌>>=◌, ◌>>◌, lift, view, on_error}
use cipher_sign.Chain.{Chain, Net, aside}
use cipher_sign.Instructions.{Sender, set_extension_id_call, send_update_key, send_sign}
use cipher_sign.Fcc.Poll.{Proxy, ActionResponse, action_result}
use cipher_sign.Fcc.Transactions.{TeeInfo, prefixed}
use cipher_sign.Commands.RunTest.{
  Recovery, Verdict, decode_failed, recover_failed, other_signer, DecodeFault, data_too_short,
  offset_beyond, length_beyond, slice_fault, check_reply,
}

-- `types.ParsePubKey` and `ecies.Encrypt`, whose randomness is part of the world.
pub record Tee (World : Type 0) : Type 1 where
  pub Public : Type 0
  pub tee_info : World → String → Result String TeeInfo
  pub parse_pub_key : Bytes × Bytes → Result String Public
  -- `Address.Hex`.
  pub hex : Bytes → String
  pub encrypt : World → Public → Bytes → Result String Bytes

-- The message of the signature request.
abbrev pub test_message : Bytes
test_message = codes "Hello from the sign extension e2e test!"

-- `testPrivKeyBytes`, the decoded hex of the fixed test key, whose error is not read.
abbrev bytes_or_none : Result HexError Bytes → Bytes
bytes_or_none (ok b) = b
bytes_or_none (err e) = []

unfoldable pub test_key : Bytes
unfolding decode_string
test_key =
    bytes_or_none
      (decode_string (codes "fad9c8855b740a0b7ed4c221dbad0f33a83a49cad6b3fe8d5817ac83d38b6a19"))

-- The texts of the errors of the last step; a panic ends the process too.
unfoldable pub fault_text : DecodeFault → String
fault_text (data_too_short n) =
    concat ("data too short for (bytes,bytes): " ∷ itoa n ∷ " bytes" ∷ [])
fault_text (offset_beyond n) = concat ("offset " ∷ itoa n ∷ " out of range" ∷ [])
fault_text (length_beyond n o) =
    concat ("length " ∷ itoa n ∷ " exceeds data at offset " ∷ itoa o ∷ [])
fault_text slice_fault = "slice bounds out of range"

unfoldable pub verdict_text : (Bytes → String) → Bytes → Verdict → String
unfolding fault_text
verdict_text hex expected (decode_failed f) =
    concat ("ABI decode (bytes,bytes): " ∷ fault_text f ∷ [])
verdict_text hex expected (recover_failed text) = concat ("ecrecover: " ∷ text ∷ [])
verdict_text hex expected (other_signer found) =
    concat ("FAIL: recovered signer " ∷ hex found ∷ " does not match expected " ∷ hex expected ∷ [])

module _ (c : Chain) (x : Sender c) (prv : c.PrivateKey) (p : Proxy c.World) (t : Tee c.World)
    (r : Recovery) where
  -- Step 1 goes on where the contract has its id already.
  abbrev pub unless_set : Net c × Result String (Unit {0}) → Net c × Result String (Unit {0})
  unless_set (n, ok u) = (n, ok u)
  unless_set (n, err text) =
      if has_text (codes text) (codes "already set")
        || has_text (codes text) (codes "Extension ID already set")
      then (n, ok tt)
      else (
        n,
        err (
            concat (
              "setExtensionId failed — is the extension registered? Check pre-build.sh completed. Error: "
              ∷ text ∷ [])),
      )

  unfoldable pub set_id_step : Bytes → Run (Net c) String (Unit {0})
  set_id_step address n = unless_set (set_extension_id_call c x prv address n)

  -- Step 2: the ciphertext of the test key, and its address.
  unfoldable pub encrypted_key : String → c.World → Result String (Bytes × Bytes)
  encrypted_key url w = elim (t.tee_info w url) [
    | err text ↦ err (concat ("fetch TEE info: " ∷ text ∷ []))
    | ok info ↦ elim (t.parse_pub_key info.public_key) [
      | err text ↦ err (concat ("parse TEE public key: " ∷ text ∷ []))
      | ok public ↦ elim (r.to_ecdsa test_key) [
        | err text ↦ err (concat ("parse test private key: " ∷ text ∷ []))
        | ok test_prv ↦ elim (t.encrypt w public test_key) [
          | err text ↦ err (concat ("ECIES encrypt: " ∷ text ∷ []))
          | ok ciphertext ↦ ok (ciphertext, r.pubkey_to_address (r.public_key test_prv))
        ]
      ]
    ]
  ]

  abbrev pub succeeded : String → ActionResponse → Result String ActionResponse
  succeeded name response =
      if response.result_status == 0
      then err (concat (name ∷ " instruction failed: " ∷ response.result_log ∷ []))
      else ok response

  -- Steps 4 and 6: a pause of five seconds, and the result of an instruction, which must have succeeded.
  unfoldable pub result_step : String → String → Bytes → Run (Net c) String ActionResponse
  result_step name url id = do
    response ←
        on_error (aside c (λ w. action_result p url (c.hash_hex id) (p.sleep 5 w)))
          (λ text. concat ("poll " ∷ name ∷ ": " ∷ text ∷ []))
    lift (succeeded name response)

  unfoldable pub run_test : String → Bytes → Run (Net c) String (Unit {0})
  run_test url address = do
    set_id_step address
    (ciphertext, test_address) ← view (λ n. encrypted_key url n.world)
    (update_id, _) ← on_error (send_update_key c x prv address ciphertext) (prefixed "updateKey: ")
    _ ← result_step "updateKey" url update_id
    (sign_id, _) ← on_error (send_sign c x prv address test_message) (prefixed "sign: ")
    response ← result_step "sign" url sign_id
    lift (
        map_err (verdict_text t.hex test_address)
          (check_reply r test_message test_address response.result_data))
