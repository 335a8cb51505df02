-- ===== src/Fcc/ChainTests.antt =====
-- Tests: the polling of a proxy, and what the tools send to a chain that mines every transaction.
use cipher_sign.Prelude.{
  ℕ, zero, suc, ◌≤◌, ◌<◌, true, false, List, [], ◌∷◌, some, Bytes, codes, replicate, ltb,
  if◌then◌else◌, ok, err, ◌≡◌, ◌≢◌, ◌⊎◌, refl, arith,
}
use cipher_sign.Prelude.Text.{String}
use cipher_sign.Chain.{
  Net, RpcError, Proof, text_data, send, wait_mined, request_tee_attestation, to_production,
  request_availability_check_attestation, register_extension, add_allowed_tee_wallet_project_owners,
  add_supported_key_types,
}
use cipher_sign.Chain.Sent.{Once}
use cipher_sign.Chain.Sample.{mining, fresh}
use cipher_sign.Support.Failure.{decode_revert_from_error}
use cipher_sign.Support.Mined.{check_tx}
use cipher_sign.Fcc.Poll.{Proxy, reply, no_reply, is_ok, action_result}
use cipher_sign.Fcc.Poll.Rounds.{action_result-first, action_result-none, round_reply}
use cipher_sign.Fcc.Transactions.{
  TeeInfo, Machines, pre_registration, request_attestation, request_availability_check, promote,
  promote_once, add_version,
}
use cipher_sign.Fcc.Transactions.Sent.{Registers}
use cipher_sign.Fcc.Transactions.Paid.{PaidOnce, AddsVersion, registration_calls-PaidOnce}
use cipher_sign.Fcc.Transactions.Promotion.{promote_once-outcome}
use cipher_sign.Fcc.Governance.{Governed, set_tee_governance}
use cipher_sign.Fcc.Governance.Once.{Governs, set_tee_governance-outcome}
use cipher_sign.Fcc.Extension.{
  Registry, setup_extension, register_extension_call, ensure_machine_owner, ensure_project_owner,
  ensure_key_type, allow_tee_machine_owners, allow_tee_project_manager_owners, add_key_types,
}
use cipher_sign.Fcc.Extension.Trail.{SetUp, setup_extension-SetUp}
use cipher_sign.Fcc.Revert.{decode_revert_reason}
use cipher_sign.Fcc.Revert.Agree.{Agreed, decode_revert_reason-Agreed}
use cipher_sign.Fcc.Flow.{Surroundings}

-- A proxy that has the result from its third request on, and one that never has it.
abbrev pub third : Proxy ℕ
third = record {
  http_get = λ url w. (suc w, if ltb w 2 then reply 404 [] else reply 200 (w ∷ []));
  sleep = λ t w. w;
  decode_response = λ b. ok (record { result_status = 1; result_log = ""; result_data = b });
}

abbrev silent : Proxy ℕ
silent = record {
  http_get = λ url w. (suc w, no_reply "connection refused");
  sleep = λ t w. w;
  decode_response = λ b. err "no body";
}

early_404 : (j : ℕ) → j < 2 → is_ok (round_reply third "u/action/result/a" j 0) ≡ false
unfolding is_ok
early_404 zero h = refl
early_404 (suc zero) h = refl
early_404 (suc (suc j)) h = absurd (omega arith)

action_result-first_example :
    action_result third "u" "a" 0
    ≡ (3, ok (record { result_status = 1; result_log = ""; result_data = 2 ∷ [] }))
action_result-first_example =
    action_result-first third "u" "a" 0 2 (2 ∷ []) (omega arith) early_404 refl

action_result-none_example : (text : String) × (action_result silent "u" "a" 0 ≡ (15, err text))
unfolding is_ok
action_result-none_example = action_result-none silent "u" "a" 0 (λ j h. refl)

abbrev pub machines : Machines ℕ
machines = record {
  get_tee_machine = λ w tee_id. err "unknown";
  get_tee_machine_status = λ w tee_id. ok 1;
  quote = λ b. "v";
  transform_signature_rsv_to_vrs = λ b. ok b;
}

abbrev pub info : TeeInfo
info = record {
  extension_id = 4 ∷ [];
  initial_owner = 1 ∷ [];
  code_hash = 2 ∷ [];
  platform = 3 ∷ [];
  public_key = (1 ∷ [], 2 ∷ []);
  governance_hash = [];
  data_signature = replicate 65 1;
  proxy_signature = [];
  chain_id = 14;
  last_signing_policy_id = 9;
  attestation = [];
}

abbrev proof : Proof
proof = record {
  signatures = [];
  header = [];
  request_tee_id = 8 ∷ [];
  request_rest = [];
  response = record {
    status = 0;
    tee_timestamp = 1;
    code_hash = [];
    platform = [];
    initial_signing_policy_id = 1;
    last_signing_policy_id = 1;
    state = [];
  };
}

registration_calls-PaidOnce_example :
    PaidOnce mining 4 1_000_000_000
      (Registers mining machines 4 "h" (7 ∷ []) info)
      fresh
      (pre_registration mining machines 4 "h" (8 ∷ []) (7 ∷ []) info fresh)
    × PaidOnce mining 4 1_000_000_000
        (λ x. x ≡ request_tee_attestation (8 ∷ []) (4 ∷ []))
        fresh
        (request_attestation mining machines 4 (8 ∷ []) fresh)
    × PaidOnce mining 4 1_000_000_000
        (λ x.
          x ≡ request_availability_check_attestation (8 ∷ []) (6 ∷ []) (5 ∷ []) (4 ∷ []) (4 ∷ []))
        fresh
        (request_availability_check mining machines 4 (8 ∷ []) (5 ∷ []) (6 ∷ []) fresh)
    × PaidOnce mining 4 0
        (λ x. x ≡ to_production proof)
        fresh
        (promote mining machines 4 proof fresh)
    × PaidOnce mining 4 0
        (AddsVersion mining machines 4 3 (2 ∷ []) (1 ∷ []) (codes "v1"))
        fresh
        (add_version mining machines 4 3 (2 ∷ []) (1 ∷ []) (codes "v1") fresh)
registration_calls-PaidOnce_example =
    registration_calls-PaidOnce mining machines 4 fresh "h" (8 ∷ []) (7 ∷ []) (5 ∷ []) (6 ∷ []) info
      3 (2 ∷ []) (1 ∷ []) (codes "v1") proof

promote_once-outcome_example :
    ((machines.get_tee_machine_status 5 (8 ∷ []) ≡ ok 2)
      × (promote_once mining machines 4 proof fresh ≡ (fresh, ok tt)))
    ⊎ ((machines.get_tee_machine_status 5 (8 ∷ []) ≢ ok 2)
        × Once mining
            (λ x. x ≡ to_production proof)
            fresh
            (promote_once mining machines 4 proof fresh))
promote_once-outcome_example = promote_once-outcome mining machines 4 proof fresh

abbrev governed : Governed ℕ
governed = record {
  governance_hash = λ signers threshold. ok (threshold ∷ []);
  get_latest_tee_governance_hash = λ w id. ok (3 ∷ []);
}

abbrev signers : List Bytes
signers = (1 ∷ []) ∷ (2 ∷ []) ∷ []

set_tee_governance-outcome_example :
    (((signers ≡ []) ⊎ ((◌≡◌ {A = ℕ} 2 0) ⊎ (2 < 2)))
      × ((text : String) × (set_tee_governance mining governed 4 3 signers 2 fresh
            ≡ (fresh, err text))))
    ⊎ ((0 < 2)
        × (0 < 2)
        × (2 ≤ 2)
        × Governs mining governed 4 3 signers 2 fresh
            (set_tee_governance mining governed 4 3 signers 2 fresh))
set_tee_governance-outcome_example = set_tee_governance-outcome mining governed 4 3 signers 2 fresh

-- The deployer is a machine owner already.
abbrev registry : Registry ℕ Bytes
registry = record {
  is_allowed_tee_machine_owner = λ w id a. ok true;
  is_allowed_tee_wallet_project_owner = λ w id a. ok false;
  is_key_type_supported = λ w id t. ok false;
  parse_tee_extension_registered = λ log. ok 12;
  parse_tee_extension_contracts_set = λ log. ok tt;
  parse_allowed_tee_machine_owners_added = λ log. ok tt;
  parse_allowed_tee_wallet_project_owners_added = λ log. ok tt;
}

abbrev set_up : Net mining
set_up = record {
  world = 8;
  sent =
      add_supported_key_types 12 ((9 ∷ []) ∷ [])
      ∷ add_allowed_tee_wallet_project_owners 12 ((4 ∷ []) ∷ [])
      ∷ register_extension (2 ∷ []) (1 ∷ [])
      ∷ [];
}

set_up_sample : setup_extension mining registry 4 (9 ∷ []) (1 ∷ []) (2 ∷ []) fresh ≡ (set_up, ok 12)
unfolding setup_extension register_extension_call ensure_machine_owner ensure_project_owner
    ensure_key_type allow_tee_machine_owners allow_tee_project_manager_owners add_key_types check_tx
    send wait_mined
set_up_sample = refl

setup_extension-SetUp_example : SetUp mining registry 4 (9 ∷ []) (1 ∷ []) (2 ∷ []) 12 fresh set_up
setup_extension-SetUp_example =
    setup_extension-SetUp mining registry 4 (9 ∷ []) (1 ∷ []) (2 ∷ []) fresh set_up 12 set_up_sample

abbrev reverted : RpcError
reverted = record { text = "execution reverted"; error_data = text_data "0x08c379a0" }

decode_revert_reason-Agreed_example :
    Agreed mining
      (λ b h. refl)
      reverted.error_data
      (decode_revert_from_error mining reverted)
      (decode_revert_reason mining reverted)
decode_revert_reason-Agreed_example = decode_revert_reason-Agreed mining (λ b h. refl) reverted

abbrev pub around : Surroundings ℕ
around = record {
  machines = machines;
  proxy = third;
  identities = record {
    Public = Bytes;
    parse_pub_key = λ k. ok k.0;
    pubkey_to_address = λ k. k;
    info_hash = λ i. ok [];
    payload_hash = λ id b. ok b;
    text_hash = λ b. b;
    sig_to_pub = λ h s. ok s;
  };
  proofs = record {
    unmarshal_prove = λ b. err "no proof";
    decode_response_header = λ b. ok b;
    decode_request = λ b. ok (b, []);
    decode_response = λ b. err "no response";
  };
  get_tee_info = λ w url. ok info;
  get_current_reward_epoch_id = λ w. ok (some 9);
  hex_to_hash = λ b. b;
}
