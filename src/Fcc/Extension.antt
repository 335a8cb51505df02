-- ===== src/Fcc/Extension.antt =====
-- tee/go/tools/pkg/fccutils/extension.go. What the bindings read of an extension, and the events that
-- they parse, are the record Registry; an event whose fields no caller reads is a unit. The key type
-- `wallets.EVMType` of tee-node is the argument `evm_type`.
pub mod Trail
use cipher_sign.Prelude.{
  ℕ, Bool, true, false, not, List, [], ◌∷◌, Bytes, length, Result, ok, err, map_err,
}
use cipher_sign.Prelude.Text.{String, concat, itoa}
use cipher_sign.Prelude.Runs.{Run, ◌>>=◌, ◌>>◌, pure, lift, on_error}
use cipher_sign.Chain.{
  Chain, Net, send, register_extension, add_allowed_tee_machine_owners,
  add_allowed_tee_wallet_project_owners, add_supported_key_types,
}
use cipher_sign.Support.Mined.{check_tx}
use cipher_sign.Fcc.Transactions.{one_log, prefixed, rpc_text}

pub record Registry (World Log : Type 0) : Type 0 where
  pub is_allowed_tee_machine_owner : World → ℕ → Bytes → Result String Bool
  pub is_allowed_tee_wallet_project_owner : World → ℕ → Bytes → Result String Bool
  pub is_key_type_supported : World → ℕ → Bytes → Result String Bool
  -- The extension id of a `TeeExtensionRegistered`.
  pub parse_tee_extension_registered : Log → Result String ℕ
  pub parse_tee_extension_contracts_set : Log → Result String (Unit {0})
  pub parse_allowed_tee_machine_owners_added : Log → Result String (Unit {0})
  pub parse_allowed_tee_wallet_project_owners_added : Log → Result String (Unit {0})

abbrev registry_logs : {A : Type 0} → List A → Result String (A × A)
registry_logs (a ∷ b ∷ _) = ok (a, b)
registry_logs xs = err (
    concat (
      "expected at least 2 logs from Register() transaction, got "
      ∷ itoa (length xs)
      ∷ " — the registry contract may have changed or be behind a proxy"
      ∷ []))

-- The error that says which extension exists already.
abbrev pub half_done : String → String → ℕ → String → String
half_done before what id text =
    concat (before ∷ " (extension exists as ID " ∷ itoa id ∷ what ∷ text ∷ [])

module _ (c : Chain) (r : Registry c.World c.Log) (prv : c.PrivateKey) where
  -- The id of the registered extension.
  unfoldable pub register_extension_call : Bytes → Bytes → Run (Net c) String ℕ
  register_extension_call instructions_sender_address state_verifier_address = do
    tx ←
        on_error
          (send c prv 0 (register_extension state_verifier_address instructions_sender_address))
          (rpc_text "TeeExtensionRegistry.Register failed: ")
    receipt ← on_error (check_tx c tx) (prefixed "Register transaction failed: ")
    (first, second) ← lift (registry_logs receipt.logs)
    id ← lift (
        map_err (prefixed "failed to parse TeeExtensionRegistered event: ")
          (r.parse_tee_extension_registered first))
    _ ← lift (
        map_err (prefixed "failed to parse TeeExtensionContractsSet event: ")
          (r.parse_tee_extension_contracts_set second))
    pure id

  unfoldable pub allow_tee_machine_owners : ℕ → List Bytes → Run (Net c) String (Unit {0})
  allow_tee_machine_owners extension_id owners = do
    tx ←
        on_error (send c prv 0 (add_allowed_tee_machine_owners extension_id owners))
          (rpc_text "AddAllowedTeeMachineOwners failed: ")
    receipt ← on_error (check_tx c tx) (prefixed "AddAllowedTeeMachineOwners transaction failed: ")
    first ←
        lift (one_log receipt.logs "no logs in AddAllowedTeeMachineOwners transaction — unexpected")
    lift (
        map_err (prefixed "failed to parse AllowedTeeMachineOwnersAdded event: ")
          (r.parse_allowed_tee_machine_owners_added first))

  unfoldable pub allow_tee_project_manager_owners : ℕ → List Bytes → Run (Net c) String (Unit {0})
  allow_tee_project_manager_owners extension_id owners = do
    tx ←
        on_error (send c prv 0 (add_allowed_tee_wallet_project_owners extension_id owners))
          (rpc_text "AddAllowedTeeWalletProjectOwners failed: ")
    receipt ←
        on_error (check_tx c tx) (prefixed "AddAllowedTeeWalletProjectOwners transaction failed: ")
    first ← lift (
        one_log receipt.logs "no logs in AddAllowedTeeWalletProjectOwners transaction — unexpected")
    lift (
        map_err (prefixed "failed to parse AllowedTeeWalletProjectOwnersAdded event: ")
          (r.parse_allowed_tee_wallet_project_owners_added first))

  -- `AddSupportedKeyTypes`, with the transaction that it makes.
  unfoldable pub add_key_types : ℕ → List Bytes → Run (Net c) String (Unit {0})
  add_key_types extension_id key_types = do
    lift (c.new_keyed_transactor prv)
    tx ← on_error (send c prv 0 (add_supported_key_types extension_id key_types)) (rpc_text "")
    _ ← check_tx c tx
    pure tt

  -- A call that is only made where the answer is no.
  abbrev pub unless_already :
      Result String Bool → Run (Net c) String (Unit {0}) → Run (Net c) String (Unit {0})
  unless_already (err text) call n = (n, err text)
  unless_already (ok true) call n = (n, ok tt)
  unless_already (ok false) call n = call n

  abbrev pub deployer : Bytes
  deployer = c.pubkey_to_address prv

  abbrev pub add_machine_owner : ℕ → Run (Net c) String (Unit {0})
  add_machine_owner id =
      on_error (allow_tee_machine_owners id (deployer ∷ []))
        (half_done "failed adding TEE machine owners" " but owners not set): " id)

  unfoldable pub ensure_machine_owner : ℕ → Run (Net c) String (Unit {0})
  ensure_machine_owner id n =
      unless_already
        (map_err (prefixed "failed checking TEE machine owner status: ")
          (r.is_allowed_tee_machine_owner n.world id deployer))
        (add_machine_owner id) n

  abbrev pub add_project_owner : ℕ → Run (Net c) String (Unit {0})
  add_project_owner id =
      on_error (allow_tee_project_manager_owners id (deployer ∷ []))
        (half_done "failed adding wallet project owners" " but owners not set): " id)

  unfoldable pub ensure_project_owner : ℕ → Run (Net c) String (Unit {0})
  ensure_project_owner id n =
      unless_already
        (map_err (prefixed "failed checking wallet project owner status: ")
          (r.is_allowed_tee_wallet_project_owner n.world id deployer))
        (add_project_owner id) n

  unfoldable pub ensure_key_type : Bytes → ℕ → Run (Net c) String (Unit {0})
  ensure_key_type evm_type id n =
      unless_already (map_err (λ text. text) (r.is_key_type_supported n.world id evm_type))
        (add_key_types id (evm_type ∷ [])) n

  unfoldable pub setup_extension : Bytes → Bytes → Bytes → Run (Net c) String ℕ
  setup_extension evm_type instructions_sender_address state_verifier_address = do
    lift (c.new_keyed_transactor prv)
    id ← register_extension_call instructions_sender_address state_verifier_address
    ensure_machine_owner id
    ensure_project_owner id
    ensure_key_type evm_type id
    pure id
