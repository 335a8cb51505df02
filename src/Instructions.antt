-- ===== src/Instructions.antt =====
-- tee/go/tools/pkg/utils/instructions.go: the calls of the InstructionSender contract. Its generated
-- binding, with the packing of a call, and the fee are the record Sender; a wait without a deadline is
-- the wait of the chain too.
pub mod Sent
pub mod Returned
pub mod Tests
use cipher_sign.Prelude.{
  ℕ, not, [], ◌∷◌, Option, none, some, Bytes, ◌==◌, if◌then◌else◌, Result, ok, err, map_err,
}
use cipher_sign.Prelude.Text.{String, str_eq, concat, itoa}
use cipher_sign.Prelude.Runs.{Run, ◌>>=◌, ◌>>◌, lift, on_error}
use cipher_sign.Chain.{
  Chain, Net, Receipt, RpcError, Method, send, wait_mined, deploy_instruction_sender,
  set_extension_id, update_key, sign,
}
use cipher_sign.Fcc.Revert.{decode_revert_reason, simulate_and_decode_revert}
use cipher_sign.Fcc.Transactions.{prefixed, rpc_text, one_log}

pub record Sender (c : Chain) : Type 0 where
  -- `DefaultFee`, where `init` leaves one that is not negative.
  pub default_fee : ℕ
  -- `sign.NewInstructionSender`, its error.
  pub new_instruction_sender : Bytes → Result String (Unit {0})
  -- `GetAbi` and `Pack` of a call.
  pub pack : Method → Option Bytes
  -- The address that the transaction of a deployment makes.
  pub created : c.Tx → Bytes

-- The type `big.Int` of integers, with `NewInt` of a number and `SetString` in base 10.
pub record BigInt : Type 1 where
  pub Int : Type 0
  pub new_int : ℕ → Int
  pub set_string : String → Option Int

module _ (b : BigInt) where
  abbrev or_default : Option b.Int → b.Int
  or_default none = b.new_int 1_000_000_000_000
  or_default (some fee) = fee

  -- `DefaultFee` after `init`: the fee of the environment, where it is an integer, a negative one too.
  unfoldable pub init_fee : String → b.Int
  init_fee fee_str =
      if str_eq fee_str "" then b.new_int 1_000_000_000_000 else or_default (b.set_string fee_str)

module _ (c : Chain) (x : Sender c) (prv : c.PrivateKey) where
  -- The reason that a replay of the call gives.
  unfoldable pub replayed : Bytes → ℕ → Method → c.World → String
  replayed to value m w = elim (x.pack m) [
    | none ↦ ""
    | some call_data ↦ simulate_and_decode_revert c (c.pubkey_to_address prv) to value call_data w
  ]

  unfoldable pub revert_reason : Bytes → ℕ → Method → RpcError → c.World → String
  unfolding replayed
  revert_reason to value m e w =
      let reason = decode_revert_reason c e in
      if str_eq reason "" then replayed to value m w else reason

  unfoldable pub refused_text : String → RpcError → String → String
  refused_text before e reason =
      if str_eq reason ""
      then concat (before ∷ e.text ∷ [])
      else concat (before ∷ e.text ∷ " (revert reason: " ∷ reason ∷ ")" ∷ [])

  abbrev pub explained :
      String → Bytes → ℕ → Method → Net c × Result RpcError c.Tx → Net c × Result String c.Tx
  explained before to value m (n, ok tx) = (n, ok tx)
  explained before to value m (n, err e) =
      (n, err (refused_text before e (revert_reason to value m e n.world)))

  -- A call whose error comes with the reason.
  unfoldable pub send_explained : String → Bytes → ℕ → Method → Run (Net c) String c.Tx
  unfolding revert_reason refused_text
  send_explained before to value m n = explained before to value m (send c prv value m n)

  -- The fields that a mined receipt gives.
  unfoldable pub instruction_of : String → Receipt c.Log → Result String (Bytes × Bytes)
  instruction_of name receipt =
      if not (receipt.status == 1)
      then err (concat (name ∷ " transaction failed with status: " ∷ itoa receipt.status ∷ []))
      else elim (one_log receipt.logs "no logs found in receipt") [
        | err text ↦ err text
        | ok log ↦ elim (c.parse_tee_instructions_sent log) [
          | err text ↦ err (concat ("failed to parse TeeInstructionsSent event: " ∷ text ∷ []))
          | ok id ↦ ok (id, receipt.tx_hash)
        ]
      ]

  -- The body that SendUpdateKey and SendSign share: the instruction id and the hash.
  unfoldable pub send_instruction : String → Bytes → Method → Run (Net c) String (Bytes × Bytes)
  unfolding send_explained instruction_of
  send_instruction name address m = do
    lift (map_err (prefixed "failed to bind contract: ") (x.new_instruction_sender address))
    lift (map_err (prefixed "failed to create transactor: ") (c.new_keyed_transactor prv))
    tx ← send_explained (concat ("failed to send " ∷ name ∷ ": " ∷ [])) address x.default_fee m
    receipt ← on_error (wait_mined c tx) (prefixed "failed waiting for transaction: ")
    lift (instruction_of name receipt)

  unfoldable pub send_update_key : Bytes → Bytes → Run (Net c) String (Bytes × Bytes)
  unfolding send_instruction
  send_update_key address encrypted_key =
      send_instruction "updateKey" address (update_key address encrypted_key)

  unfoldable pub send_sign : Bytes → Bytes → Run (Net c) String (Bytes × Bytes)
  unfolding send_instruction
  send_sign address message = send_instruction "sign" address (sign address message)

  -- What becomes of a mined `setExtensionId`.
  unfoldable pub extension_id_set : Bytes → Receipt c.Log → Run (Net c) String (Unit {0})
  extension_id_set address receipt n =
      let reason = replayed address 0 (set_extension_id address) n.world in
      if receipt.status == 1
      then (n, ok tt)
      else if str_eq reason ""
      then (n, err "setExtensionId transaction failed")
      else (
        n,
        err (concat ("setExtensionId transaction failed (revert reason: " ∷ reason ∷ ")" ∷ [])),
      )

  unfoldable pub set_extension_id_call : Bytes → Run (Net c) String (Unit {0})
  unfolding send_explained extension_id_set
  set_extension_id_call address = do
    lift (map_err (prefixed "failed to bind contract: ") (x.new_instruction_sender address))
    lift (map_err (prefixed "failed to create transactor: ") (c.new_keyed_transactor prv))
    tx ← send_explained "failed to call setExtensionId: " address 0 (set_extension_id address)
    receipt ← on_error (wait_mined c tx) (prefixed "failed waiting for transaction: ")
    extension_id_set address receipt

  abbrev pub not_deployed : c.Tx → String → String
  not_deployed tx text = concat (
      "deployment tx not mined within 2 minutes (tx: "
      ∷ c.hash_hex (c.tx_hash tx)
      ∷ "): "
      ∷ text
      ∷ [])

  unfoldable pub deployed : c.Tx → Receipt c.Log → Run (Net c) String Bytes
  deployed tx receipt n =
      if receipt.status == 1 then (n, ok (x.created tx)) else (n, err "contract deployment failed")

  -- The address of the deployed contract; both registries are the TEE manager.
  unfoldable pub deploy_sender : Bytes → Run (Net c) String Bytes
  unfolding deployed
  deploy_sender flare_tee_manager = do
    lift (map_err (prefixed "failed to create transactor: ") (c.new_keyed_transactor prv))
    tx ←
        on_error (send c prv 0 (deploy_instruction_sender flare_tee_manager flare_tee_manager))
          (rpc_text "failed to deploy contract: ")
    receipt ← on_error (wait_mined c tx) (not_deployed tx)
    deployed tx receipt
