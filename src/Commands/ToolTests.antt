-- ===== src/Commands/ToolTests.antt =====
-- Tests: the commands on a chain that mines every transaction.
use cipher_sign.Prelude.{
  List, ℕ, Bool, true, false, [], ◌∷◌, Bytes, codes, replicate, eq_bytes, ltb, if◌then◌else◌,
  Result, ok, err, ◌≡◌, ◌↔◌, refl, arith,
}
use cipher_sign.Prelude.Text.{String}
use cipher_sign.Chain.{
  Net, Proof, add_tee_version, register_machine, request_availability_check_attestation,
  to_production, send, wait_mined,
}
use cipher_sign.Chain.Sample.{mining, fresh}
use cipher_sign.Support.Mined.{check_tx}
use cipher_sign.Fcc.Attestation.{
  code_hash_and_platform, compare_code, expected_code, Attestation, tee_code_hash, test_platform,
  get_code_hash_and_platform,
}
use cipher_sign.Fcc.Attestation.Attests as Attested
use cipher_sign.Fcc.Attestation.Attests.{get_code_hash_and_platform-Attests_iff}
use cipher_sign.Fcc.ChainTests.{machines, info, around}
use cipher_sign.Fcc.Flow.{Surroundings, chain_calls, policy_of}
use cipher_sign.Fcc.Policy.{check_ftdc_proxy_policy_consistency, policy_in_sync}
use cipher_sign.Base.Bytes32.{byte_at}
use cipher_sign.Fcc.Flow.Trail.{Registration, register_node-Registration}
use cipher_sign.Fcc.Transactions as Transactions
use cipher_sign.Fcc.Identity.{tee_proxy_id, proof_of, get_ftdc_availability_check_result}
use cipher_sign.Fcc.Poll.{reply, is_ok, poll, response_of, action_result}
use cipher_sign.Fcc.Register.{
  FileRead, missing, content, register_node, resume, load_state, outcome, run_steps, and_then,
  prepare, pre_register, has_step, started, attested, attest, check_availability, checked,
  first_attestation, produce, promoted, remove_state, save_state,
}
use cipher_sign.Fcc.TeeCalls.{Node, tee_info, get_tee_proxy_id}
use cipher_sign.Fcc.Tests.{one_file, marshal}
use cipher_sign.Fcc.Transactions.{
  pre_registration, promote, promote_once, request_attestation, request_availability_check, TeeInfo,
  Machines, machine_data_of, signature_of,
}
use cipher_sign.App.Int64.{set_bytes}
use cipher_sign.Validate.Tests.{numbers, quiet, rich_client, twice}
use cipher_sign.Commands.Tools.{Tools}
use cipher_sign.Commands.CheckTeeState.Sections.{unseen, active_calls, sender_entries}
use cipher_sign.Commands.CheckTeeState.Sections.Shown.{
  IsIn, Distinct, ids_of, Reported, sections-Distinct,
}
use cipher_sign.Commands.VerifyDeploy.{Ready}
use cipher_sign.Commands.VerifyDeploy.Steps.{Succeeds, verify_deploy-all_iff}
use cipher_sign.Commands.DeployContract.{Views, Deployer}
use cipher_sign.Commands.DeployContract.Outcome.{Outcome}
use cipher_sign.Commands.AllowVersion.Allowed.{Allowed}
use cipher_sign.Commands.RegisterTee.{Options, host_of, job_of, look_up, start_disk, register_tee}
use cipher_sign.Commands.RegisterTee as RegisterTee
use cipher_sign.Commands.RegisterTee.Fresh.{Registered, SendsAll, register_tee-SendsAll}

abbrev ready : Ready numbers
ready = record {
  chain_client = rich_client;
  prv = 7;
  registry = twice;
  allowlist = record { is_allowed_tee_machine_owner = λ id a. ok true };
  flare_tee_manager = 3;
}

verify_deploy-all_iff_example : Succeeds numbers quiet ready "extension.env" "D5,R2" "all" ↔ (
    Succeeds numbers quiet ready "extension.env" "D5,R2" "deploy"
    × Succeeds numbers quiet ready "extension.env" "D5,R2" "register"
    × Succeeds numbers quiet ready "extension.env" "D5,R2" "services"
    × Succeeds numbers quiet ready "extension.env" "D5,R2" "tee-version"
    × Succeeds numbers quiet ready "extension.env" "D5,R2" "tee-machine"
    × Succeeds numbers quiet ready "extension.env" "D5,R2" "test")
verify_deploy-all_iff_example = verify_deploy-all_iff numbers quiet ready "extension.env" "D5,R2"

abbrev views : Views numbers mining
views = record {
  chain_client = λ w. rich_client;
  chain_key = λ k. k;
  address_bytes = λ a. a ∷ [];
  address_hex = λ b. "0x";
}

abbrev ready_deployer : Result String (Deployer numbers)
ready_deployer = ok (record { prv = 7; flare_tee_manager = 3 })

abbrev simulated : String → String
simulated name = if◌then◌else◌ true "true" ""

abbrev attestation : Attestation
attestation = record {
  Claims = Unit {0};
  parse_claims = λ b. err "no token";
  claimed_code_hash = λ u. ok [];
  claimed_platform = λ u. ok [];
  hash_text = λ b. "0x";
}

abbrev simulated_info : TeeInfo
simulated_info = record info { code_hash = tee_code_hash; platform = test_platform }

get_code_hash_and_platform-Attests_iff_example :
    (get_code_hash_and_platform attestation simulated simulated_info
      ≡ ok (tee_code_hash, test_platform))
    ↔ ((tee_code_hash ≡ tee_code_hash)
        × (test_platform ≡ test_platform)
        × Attested.Attests attestation simulated simulated_info tee_code_hash test_platform)
get_code_hash_and_platform-Attests_iff_example =
    get_code_hash_and_platform-Attests_iff attestation simulated simulated_info tee_code_hash
      test_platform

abbrev node : Node ℕ
node = record {
  http_get = λ url w. (w, reply 200 []);
  http_post = λ url body w. (w, reply 200 []);
  decode_tee_info = λ b. ok simulated_info;
  marshal_setting = λ s. ok [];
}

abbrev tools : Tools mining
tools = record {
  node = node;
  identities = around.identities;
  getenv = λ name. "";
  hex_to_ecdsa = λ text. ok 6;
}

abbrev unsupported : ℕ → ℕ → Bytes → Bytes → Result String Bool
unsupported w id code_hash platform = ok false

abbrev version_added : Net mining
version_added = record {
  world = 6;
  sent = add_tee_version 4 (118 ∷ 49 ∷ replicate 30 0) tee_code_hash (test_platform ∷ []) ∷ [];
}

-- A machine that is known from the promotion on, and a proxy that has its proof.
abbrev promoting : Surroundings ℕ
promoting = record around {
  machines = record machines { get_tee_machine = λ w id. if ltb w 8 then err "unknown" else ok id };
  proofs = record {
    unmarshal_prove = λ b. ok (record {
      response_header = [];
      request_body = 8 ∷ [];
      response_body = [];
      data_provider_signatures = [];
    });
    decode_response_header = λ b. ok b;
    decode_request = λ b. ok (b, []);
    decode_response = λ b. ok (record {
      status = 0;
      tee_timestamp = 1;
      code_hash = [];
      platform = [];
      initial_signing_policy_id = 1;
      last_signing_policy_id = 1;
      state = [];
    });
  };
}

abbrev options : Options
options = record {
  resume_given = false;
  proxy_address = "p";
  host_given = "";
  ftdc_address = "f";
  command_letters = codes "rap";
  instruction = [];
}

-- A state file in which every step is done.
abbrev all_done : FileRead
all_done = content (
    marshal (record {
      completed_steps = codes "ra";
      tee_attest_instruction_id = 1 ∷ [];
      instruction_id = 2 ∷ [];
    }))

abbrev sent_proof : Proof
sent_proof = record {
  signatures = [];
  header = [];
  request_tee_id = 8 ∷ [];
  request_rest = [];
  response = record {
    status = 0;
    tee_timestamp = 1;
    code_hash = [];
    platform = [];
    initial_signing_policy_id = 1;
    last_signing_policy_id = 1;
    state = [];
  };
}

abbrev registered_net : Net mining
registered_net = record {
  world = 9;
  sent =
      to_production sent_proof
      ∷ request_availability_check_attestation (1 ∷ []) (5 ∷ 1 ∷ []) (1 ∷ []) (4 ∷ []) (4 ∷ [])
      ∷ register_machine (machine_data_of simulated_info) (signature_of (replicate 65 1)) []
          (codes "p") (4 ∷ [])
      ∷ [];
}

registering_node_sample :
    register_node
      (chain_calls mining promoting 4)
      one_file
      (job_of options simulated_info (1 ∷ []))
      fresh
      missing
    ≡ ((registered_net, missing), ok tt)
unfolding register_node resume load_state outcome run_steps and_then prepare pre_register has_step
    started attested attest check_availability checked first_attestation produce promoted
    remove_state save_state pre_registration promote promote_once request_attestation
    request_availability_check Transactions.registered tee_proxy_id proof_of
    get_ftdc_availability_check_result is_ok poll response_of action_result policy_of
    check_ftdc_proxy_policy_consistency policy_in_sync byte_at send wait_mined check_tx set_bytes
    eq_bytes job_of host_of
registering_node_sample = refl

register_node-Registration_example :
    Registration mining promoting 4 one_file
      (job_of options simulated_info (1 ∷ []))
      missing
      fresh
      registered_net
register_node-Registration_example =
    register_node-Registration mining promoting 4 one_file (job_of options simulated_info (1 ∷ []))
      fresh registered_net missing missing registering_node_sample

registering_sample :
    register_tee mining node simulated attestation promoting one_file
      (ok 4)
      options
      (fresh, all_done)
    ≡ ((registered_net, missing), ok tt)
unfolding register_tee look_up start_disk RegisterTee.registered_from tee_info get_tee_proxy_id
    tee_proxy_id get_code_hash_and_platform code_hash_and_platform compare_code expected_code
    eq_bytes
registering_sample = registering_node_sample

register_tee-SendsAll_example :
    (r : Registered mining node simulated attestation promoting one_file
      (ok 4)
      options
      fresh
      registered_net
      all_done)
    × SendsAll mining node simulated attestation promoting one_file
        (ok 4)
        options
        fresh
        registered_net
        all_done
        r
register_tee-SendsAll_example =
    register_tee-SendsAll mining node simulated attestation promoting one_file (ok 4) options fresh
      registered_net all_done missing refl refl refl registering_sample

-- The map of senders run through backwards.
abbrev backwards : List (ℕ × String)
backwards = (4, "InstructionSender slot 0") ∷ (4, "proxy") ∷ (5, "TEE record") ∷ []

same_ids : (y : ℕ) → IsIn y (ids_of backwards) ↔ IsIn y (ids_of (sender_entries 4 4 (ok 5)))
same_ids y = ((λ h. ground arith), λ h. ground arith)

sections-Distinct_example :
    Distinct (ids_of (active_calls 4 4 (ok 5)))
    × (IsIn 5 (ids_of (active_calls 4 4 (ok 5))) ↔ Reported 4 4 (ok 5) 5)
    × Distinct (ids_of (unseen [] backwards))
    × (IsIn 5 (ids_of (unseen [] backwards)) ↔ Reported 4 4 (ok 5) 5)
sections-Distinct_example = sections-Distinct 4 4 (ok 5) backwards 5 same_ids
