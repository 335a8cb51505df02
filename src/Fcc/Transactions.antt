-- ===== src/Fcc/Transactions.antt =====
-- tee/go/tools/pkg/fccutils/registration.go: the transactions of a registration, each with what is read
-- from its receipt. The values that the chain and a proxy show are the record Machines.
pub mod Sent
pub mod Paid
pub mod Promotion
use cipher_sign.Prelude.{
  ℕ, ◌+◌, Bool, false, not, List, [], ◌∷◌, ◌++◌, Bytes, codes, length, take, drop, replicate,
  eq_bytes, ltb, ◌==◌, if◌then◌else◌, Result, ok, err, map_err,
}
use cipher_sign.Prelude.Text.{String, concat}
use cipher_sign.Prelude.Runs.{Run, ◌>>=◌, ◌>>◌, pure, lift, view, on_error, ensure}
use cipher_sign.App.Int64.{set_bytes}
use cipher_sign.Base.Bytes32.{byte_at}
use cipher_sign.Chain.{
  Chain, Net, Receipt, RpcError, MachineData, VrsSignature, Proof, send, register_machine,
  request_tee_attestation, request_availability_check_attestation, to_production, add_tee_version,
}
use cipher_sign.Support.Mined.{check_tx}

-- Of `types.SignedTeeInfoResponse`, what the tools read.
pub record TeeInfo : Type 0 where
  pub extension_id : Bytes
  pub initial_owner : Bytes
  pub code_hash : Bytes
  pub platform : Bytes
  pub public_key : Bytes × Bytes
  pub governance_hash : Bytes
  pub data_signature : Bytes
  pub proxy_signature : Bytes
  pub chain_id : ℕ
  pub last_signing_policy_id : ℕ
  pub attestation : Bytes

-- What is read of the registered machines, and the signatures of go-flare-common.
pub record Machines (World : Type 0) : Type 0 where
  pub get_tee_machine : World → Bytes → Result String Bytes
  pub get_tee_machine_status : World → Bytes → Result String ℕ
  pub quote : Bytes → String
  pub transform_signature_rsv_to_vrs : Bytes → Result String Bytes

-- The fee of a registration, `1000000000`.
abbrev pub registration_fee : ℕ
registration_fee = 1_000_000_000

abbrev pub tee_status_production : ℕ
tee_status_production = 2

-- `stringToBytes32`: a text that fits, with zeros behind it; `quote` is `%q`.
unfoldable pub string_to_bytes32 : (Bytes → String) → Bytes → Result String Bytes
string_to_bytes32 quote s =
    if ltb 32 (length s)
    then err (concat ("version " ∷ quote s ∷ " exceeds 32 bytes" ∷ []))
    else ok (take 32 (s ++ replicate 32 0))

abbrev pub machine_data_of : TeeInfo → MachineData
machine_data_of info = record {
  extension_id = set_bytes info.extension_id;
  initial_owner = info.initial_owner;
  code_hash = info.code_hash;
  platform = info.platform;
  public_key = info.public_key;
  governance_hash = info.governance_hash;
}

abbrev pub signature_of : Bytes → VrsSignature
signature_of vrs = record { v = byte_at vrs 0; r = take 32 (drop 1 vrs); s = take 32 (drop 33 vrs) }

-- The first two logs, or the first.
abbrev pub two_logs {ℓ} : {A : Type ℓ} → List A → Result String (A × A)
two_logs (a ∷ b ∷ _) = ok (a, b)
two_logs _ = err "unexpected logs, this should not happen"

abbrev pub one_log {ℓ} : {A : Type ℓ} → List A → String → Result String A
one_log [] text = err text
one_log (a ∷ _) text = ok a

abbrev pub prefixed : String → String → String
prefixed before text = concat (before ∷ text ∷ [])

abbrev pub rpc_text : String → RpcError → String
rpc_text before e = concat (before ∷ e.text ∷ [])

-- `status == teeStatusProduction`, where the status could be read.
abbrev pub in_production : Result String ℕ → Bool
in_production (ok status) = status == tee_status_production
in_production (err text) = false

module _ (c : Chain) (m : Machines c.World) (prv : c.PrivateKey) where
  abbrev instruction_sent : c.Log → Result String Bytes
  instruction_sent log =
      map_err (prefixed "failed to parse TeeInstructionsSent event: ")
        (c.parse_tee_instructions_sent log)

  -- The challenge and the instruction id of a registration's receipt.
  unfoldable pub registered : Receipt c.Log → Run (Net c) String (Bytes × Bytes)
  registered receipt = do
    (first, second) ← lift (two_logs receipt.logs)
    challenge ← lift (
        map_err (prefixed "failed to parse TeeAttestationRequested event: ")
          (c.parse_tee_attestation_requested second))
    instruction_id ← lift (instruction_sent first)
    pure (challenge, instruction_id)

  -- `PreRegistration`: the challenge and the instruction id.
  unfoldable pub pre_registration :
      String → Bytes → Bytes → TeeInfo → Run (Net c) String (Bytes × Bytes)
  pre_registration host_url tee_id proxy_id info = do
    lift (c.new_keyed_transactor prv)
    ensure (length info.data_signature == 65) "signature error"
    vrs ← lift (m.transform_signature_rsv_to_vrs info.data_signature)
    let claim_back = c.pubkey_to_address prv
    tx ←
        on_error
          (send c prv registration_fee (
            register_machine (machine_data_of info) (signature_of vrs) proxy_id (codes host_url)
              claim_back))
          (rpc_text "error: ")
    receipt ← check_tx c tx
    registered receipt

  unfoldable pub request_attestation : Bytes → Run (Net c) String Bytes
  request_attestation tee_id = do
    lift (c.new_keyed_transactor prv)
    tx ←
        on_error
          (send c prv registration_fee (request_tee_attestation tee_id (c.pubkey_to_address prv)))
          (rpc_text "error: ")
    receipt ← check_tx c tx
    (first, _) ← lift (two_logs receipt.logs)
    lift (instruction_sent first)

  -- `RequestFTDCAvailabilityCheck`; a refused call is only looked into for the log.
  unfoldable pub request_availability_check : Bytes → Bytes → Bytes → Run (Net c) String Bytes
  request_availability_check tee_id external_tee_id attest_id = do
    lift (c.new_keyed_transactor prv)
    let owner = c.pubkey_to_address prv
    tx ←
        on_error
          (send c prv registration_fee
            (request_availability_check_attestation tee_id attest_id external_tee_id owner owner))
          (rpc_text "")
    receipt ← check_tx c tx
    first ← lift (one_log receipt.logs "no logs found in receipt")
    lift (instruction_sent first)

  -- `ToProduction` behind its test for a machine that is in production.
  unfoldable pub promote : Proof → Run (Net c) String (Unit {0})
  promote proof = do
    lift (c.new_keyed_transactor prv)
    tx ← on_error (send c prv 0 (to_production proof)) (rpc_text "")
    _ ← check_tx c tx
    found ← view (λ n. m.get_tee_machine n.world proof.request_tee_id)
    ensure (eq_bytes found proof.request_tee_id) "tee machine not set up correctly"

  unfoldable pub promote_once : Proof → Run (Net c) String (Unit {0})
  unfolding promote
  promote_once proof n =
      if in_production (m.get_tee_machine_status n.world proof.request_tee_id)
      then (n, ok tt)
      else promote proof n

  -- `AddTeeVersion`.
  unfoldable pub add_version : ℕ → Bytes → Bytes → Bytes → Run (Net c) String (Unit {0})
  add_version extension_id code_hash platform version = do
    lift (c.new_keyed_transactor prv)
    packed ← lift (string_to_bytes32 m.quote version)
    tx ←
        on_error (send c prv 0 (add_tee_version extension_id packed code_hash (platform ∷ [])))
          (rpc_text "TeeExtensionRegistry.AddTeeVersion failed: ")
    _ ← check_tx c tx
    pure tt
