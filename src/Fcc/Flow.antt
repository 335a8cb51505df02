-- ===== src/Fcc/Flow.antt =====
-- tee/go/tools/pkg/fccutils/registration.go: RegisterNode over the transactions of the same file, the
-- polling of a proxy and the check of its policy.
pub mod Attested
pub mod Due
pub mod Trail
use cipher_sign.Prelude.{ℕ, Option, Bytes, Result, ok, err, map_err}
use cipher_sign.Prelude.Text.{String}
use cipher_sign.Chain.{Chain, Net, Proof, aside}
use cipher_sign.Fcc.Poll.{Proxy}
use cipher_sign.Fcc.Policy.{check_ftdc_proxy_policy_consistency, out_of_sync_text}
use cipher_sign.Fcc.Identity.{Identities, tee_proxy_id, Proofs, get_ftdc_availability_check_result}
use cipher_sign.Fcc.Register.{Calls}
use cipher_sign.Fcc.Transactions.{
  TeeInfo, Machines, pre_registration, request_attestation, request_availability_check,
  promote_once,
}

-- What the flow needs beside the chain: the proxies, `TeeInfo` of an url, and the current reward epoch.
pub record Surroundings (World : Type 0) : Type 1 where
  pub machines : Machines World
  pub proxy : Proxy World
  pub identities : Identities
  pub proofs : Proofs
  pub get_tee_info : World → String → Result String TeeInfo
  pub get_current_reward_epoch_id : World → Result String (Option ℕ)
  pub hex_to_hash : Bytes → Bytes

-- The answer alone.
abbrev pub with_id : {S : Type 0} → S × Result String (Bytes × Bytes) → S × Result String Bytes
with_id (s, ok (challenge, id)) = (s, ok id)
with_id (s, err text) = (s, err text)

-- The policy id that a proxy reports.
abbrev policy_id : Result String TeeInfo → Result String ℕ
policy_id (ok info) = ok info.last_signing_policy_id
policy_id (err text) = err text

module _ (c : Chain) (x : Surroundings c.World) (prv : c.PrivateKey) where
  unfoldable pub policy_of : c.World → String → Result String (Unit {0})
  policy_of w url = map_err out_of_sync_text (
      check_ftdc_proxy_policy_consistency (x.get_current_reward_epoch_id w)
        (policy_id (x.get_tee_info w url)))

  abbrev pub chain_calls : Calls
  chain_calls = record {
    World = Net c;
    Info = TeeInfo;
    Proof = Proof;
    tee_proxy_id = tee_proxy_id x.identities;
    get_tee_machine = λ n tee_id. x.machines.get_tee_machine n.world tee_id;
    pre_registration = λ n host_url tee_id proxy_id info.
        with_id (pre_registration c x.machines prv host_url tee_id proxy_id info n);
    request_tee_attestation = λ n tee_id. request_attestation c x.machines prv tee_id n;
    check_ftdc_proxy_policy_consistency = λ n url. policy_of n.world url;
    request_ftdc_availability_check = λ n tee_id external_tee_id attest_id.
        request_availability_check c x.machines prv tee_id external_tee_id attest_id n;
    get_ftdc_availability_check_result = λ n url id.
        aside c (get_ftdc_availability_check_result x.proxy x.proofs url (c.hash_hex id)) n;
    to_production = λ n proof. promote_once c x.machines prv proof n;
    hex_to_hash = x.hex_to_hash;
  }
