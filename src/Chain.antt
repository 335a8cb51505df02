-- ===== src/Chain.antt =====
-- The chain as the tools see it: go-ethereum, the contract bindings and the RPC node are parameters.
-- A transaction is the call of a contract that it makes; those that were sent are kept in order.
-- Addresses and hashes are byte lists, amounts natural numbers.
pub mod Sent
pub mod Sample
use cipher_sign.Prelude.{ℕ, List, ◌∷◌, Option, Bytes, Result, ok, err}
use cipher_sign.Prelude.Text.{String}
use cipher_sign.Prelude.Runs.{Run}

-- What `ErrorData()` of an RPC error gives, where the error has it at all.
pub data ErrorData : Type 0 where
  no_data other_data : ErrorData
  text_data : String → ErrorData
  bytes_data : Bytes → ErrorData

pub record RpcError : Type 0 where
  pub text : String
  pub error_data : ErrorData

-- `ethereum.CallMsg`, without the gas.
pub record CallMsg : Type 0 where
  pub from : Bytes
  pub to : Option Bytes
  pub value : ℕ
  pub call_data : Bytes

-- `machinemanager.IMachineManagerTeeMachineData`.
pub record MachineData : Type 0 where
  pub extension_id : ℕ
  pub initial_owner : Bytes
  pub code_hash : Bytes
  pub platform : Bytes
  pub public_key : Bytes × Bytes
  pub governance_hash : Bytes

pub record VrsSignature : Type 0 where
  pub v : ℕ
  pub r : Bytes
  pub s : Bytes

-- `machinemanager.ITeeAvailabilityCheckResponseBody`; its `State` is kept as it is.
pub record ResponseBody : Type 0 where
  pub status : ℕ
  pub tee_timestamp : ℕ
  pub code_hash : Bytes
  pub platform : Bytes
  pub initial_signing_policy_id : ℕ
  pub last_signing_policy_id : ℕ
  pub state : Bytes

-- `machinemanager.ITeeAvailabilityCheckProof`; the header and the rest of the request are kept as
-- they are.
pub record Proof : Type 0 where
  pub signatures : List Bytes
  pub header : Bytes
  pub request_tee_id : Bytes
  pub request_rest : Bytes
  pub response : ResponseBody

-- The contract methods that the tools send.
pub data Method : Type 0 where
  register_machine : MachineData → VrsSignature → Bytes → Bytes → Bytes → Method
  request_tee_attestation : Bytes → Bytes → Method
  request_availability_check_attestation : Bytes → Bytes → Bytes → Bytes → Bytes → Method
  to_production : Proof → Method
  add_tee_version : ℕ → Bytes → Bytes → List Bytes → Method
  register_extension : Bytes → Bytes → Method
  add_allowed_tee_machine_owners : ℕ → List Bytes → Method
  add_allowed_tee_wallet_project_owners : ℕ → List Bytes → Method
  add_supported_key_types : ℕ → List Bytes → Method
  set_new_tee_governance : ℕ → List Bytes → ℕ → Method
  deploy_instruction_sender : Bytes → Bytes → Method
  set_extension_id : Bytes → Method
  update_key : Bytes → Bytes → Method
  sign : Bytes → Bytes → Method

-- `types.Receipt`.
pub record Receipt (Log : Type 0) : Type 0 where
  pub status : ℕ
  pub logs : List Log
  pub tx_hash : Bytes

pub record Chain : Type 1 where
  pub World : Type 0
  pub Tx : Type 0
  pub Log : Type 0
  pub PrivateKey : Type 0
  -- `bind.NewKeyedTransactorWithChainID`, its error.
  pub new_keyed_transactor : PrivateKey → Result String (Unit {0})
  pub pubkey_to_address : PrivateKey → Bytes
  -- A binding sends one call, with the key and the value of its options.
  pub transact : PrivateKey → ℕ → Method → World → World × Result RpcError Tx
  pub tx_hash : Tx → Bytes
  pub hash_hex : Bytes → String
  pub wait_mined : Tx → World → World × Result String (Receipt Log)
  -- `TransactionByHash` and `types.Sender`: the message of a mined transaction.
  pub transaction_by_hash : Bytes → World → Result String CallMsg
  pub sender : CallMsg → Result String Bytes
  pub call_contract : CallMsg → World → Result RpcError Bytes
  -- `abi.UnpackRevert`.
  pub unpack_revert : Bytes → Option String
  pub parse_tee_instructions_sent : Log → Result String Bytes
  pub parse_tee_attestation_requested : Log → Result String Bytes

-- The world and what was sent to it, the newest first.
pub record Net (c : Chain) : Type 0 where
  pub world : c.World
  pub sent : List Method

module _ (c : Chain) where
  abbrev pub noted :
      List Method → Method → c.World × Result RpcError c.Tx → Net c × Result RpcError c.Tx
  noted sent m (w, ok tx) = (record { world = w; sent = m ∷ sent }, ok tx)
  noted sent m (w, err e) = (record { world = w; sent = sent }, err e)

  -- A call that the binding refuses is not sent.
  unfoldable pub send : c.PrivateKey → ℕ → Method → Run (Net c) RpcError c.Tx
  send key value m n = noted n.sent m (c.transact key value m n.world)

  abbrev pub in_world :
      List Method → c.World × Result String (Receipt c.Log) → Net c × Result String (Receipt c.Log)
  in_world sent (w, r) = (record { world = w; sent = sent }, r)

  unfoldable pub wait_mined : c.Tx → Run (Net c) String (Receipt c.Log)
  wait_mined tx n = in_world n.sent (c.wait_mined tx n.world)

  -- A request to another server, which is over the same world.
  abbrev pub beside : {E A : Type 0} → List Method → c.World × Result E A → Net c × Result E A
  beside sent (w, r) = (record { world = w; sent = sent }, r)

  abbrev pub aside : {E A : Type 0} → Run c.World E A → Run (Net c) E A
  aside f n = beside n.sent (f n.world)
