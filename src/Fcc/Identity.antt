-- ===== src/Fcc/Identity.antt =====
-- tee/go/tools/pkg/fccutils/tee_calls.go and registration.go: the two ids of a TEE, and the proof that
-- its proxy hands out. The keys and signatures of go-ethereum, the hashes of tee-node and go-flare-common,
-- and the codings of a proof are the records Identities and Proofs.
use cipher_sign.Prelude.{ℕ, List, Bytes, Result, ok, ◌>>=◌}
use cipher_sign.Prelude.Text.{String}
use cipher_sign.Chain.{Proof, ResponseBody}
use cipher_sign.Fcc.Poll.{Proxy, ActionResponse, action_result}
use cipher_sign.Fcc.Transactions.{TeeInfo}

pub record Identities : Type 1 where
  pub Public : Type 0
  pub parse_pub_key : Bytes × Bytes → Result String Public
  pub pubkey_to_address : Public → Bytes
  -- `TeeInfo.Hash`, and the hash of the payload `ProxyTeeInfo` with the chain id.
  pub info_hash : TeeInfo → Result String Bytes
  pub payload_hash : ℕ → Bytes → Result String Bytes
  pub text_hash : Bytes → Bytes
  pub sig_to_pub : Bytes → Bytes → Result String Public

unfoldable pub tee_proxy_id : (x : Identities) → TeeInfo → Result String (Bytes × Bytes)
tee_proxy_id x tee_info = do
  pub_key ← x.parse_pub_key tee_info.public_key
  hash ← x.info_hash tee_info
  info_sign_hash ← x.payload_hash tee_info.chain_id hash
  proxy_pub_key ← x.sig_to_pub (x.text_hash info_sign_hash) tee_info.proxy_signature
  ok (x.pubkey_to_address pub_key, x.pubkey_to_address proxy_pub_key)

-- `fdc.ProveResponse`.
pub record ProveResponse : Type 0 where
  pub response_header : Bytes
  pub request_body : Bytes
  pub response_body : Bytes
  pub data_provider_signatures : List Bytes

-- The JSON of a response and the codings of package fdc; a request is its TEE id and the rest.
pub record Proofs : Type 0 where
  pub unmarshal_prove : Bytes → Result String ProveResponse
  pub decode_response_header : Bytes → Result String Bytes
  pub decode_request : Bytes → Result String (Bytes × Bytes)
  pub decode_response : Bytes → Result String ResponseBody

unfoldable pub proof_of : Proofs → ActionResponse → Result String Proof
proof_of x action_result = do
  ftdc_proof ← x.unmarshal_prove action_result.result_data
  header ← x.decode_response_header ftdc_proof.response_header
  (tee_id, rest) ← x.decode_request ftdc_proof.request_body
  response ← x.decode_response ftdc_proof.response_body
  ok (record {
    signatures = ftdc_proof.data_provider_signatures;
    header = header;
    request_tee_id = tee_id;
    request_rest = rest;
    response = response;
  })

-- `GetFTDCAvailabilityCheckResult`.
unfoldable pub get_ftdc_availability_check_result :
    {W : Type 0} → Proxy W → Proofs → String → String → W → W × Result String Proof
unfolding proof_of
get_ftdc_availability_check_result p x host_url instruction_id w =
    let (w', r) = action_result p host_url instruction_id w in (w', r >>= proof_of x)
