-- ===== src/Commands/Tests.antt =====
-- Tests: replies of the extension, and the verdict on a machine.
use cipher_sign.Prelude.{
  ℕ, [], ◌∷◌, ◌++◌, none, some, Bytes, codes, replicate, Result, ok, err, map_err, ◌≡◌, ◌↔◌, refl,
  arith,
}
use cipher_sign.Base.Hex.{hex_to_bytes}
use cipher_sign.Base.Bytes32.{byte_at}
use cipher_sign.App.Abi.{abi_encode_two}
use cipher_sign.App.Abi as Abi
use cipher_sign.App.Abi.{pad_left}
use cipher_sign.App.Crypto.{parse_secp256k1_private_key}
use cipher_sign.App.Handlers.{handle_key_sign}
use cipher_sign.App.Tests.{small, node, echo, keyed, ten}
use cipher_sign.Commands.RunTest.{abi_decode_two, Recovery, check_reply}
use cipher_sign.Commands.RunTest.Decode.{as_abi_fault, abi_decode_two-agrees}
use cipher_sign.Commands.RunTest.Verify.{Recovers, handle_key_sign-checked}
use Prim.Native.String.{String}
use cipher_sign.App.Int64.{set_bytes}
use cipher_sign.Chain.{Net, set_extension_id, update_key, sign}
use cipher_sign.Chain.Sample.{mining}
use cipher_sign.Fcc.Poll.{Proxy, reply}
use cipher_sign.Instructions.{Sender}
use cipher_sign.Commands.EndToEnd.{Tee, test_message, test_key}
use cipher_sign.Commands.CheckTeeState.{all_consistent, will_revert, verdict}
use cipher_sign.Commands.CheckTeeState.Consistent.{CanPromote}
use cipher_sign.Commands.CheckTeeState.Named.{Shows, Mismatch, verdict-named_iff}

abbrev reply_data : Bytes
reply_data = replicate 130 0

abi_decode_two-agrees_example :
    map_err as_abi_fault (abi_decode_two reply_data) ≡ Abi.abi_decode_two reply_data
abi_decode_two-agrees_example = abi_decode_two-agrees reply_data (omega arith) (omega arith)

-- Every signature is the same one, so it belongs to one key.
abbrev one_key : Recovery
one_key = record {
  PrivateKey = Unit {0};
  Public = Unit {0};
  to_ecdsa = λ b. ok tt;
  public_key = λ k. tt;
  keccak256 = λ m. replicate 32 0;
  sig_to_pub = λ hash sig. ok tt;
  pubkey_to_address = λ p. 5 ∷ [];
}

recovers_one : Recovers small one_key (λ k. tt)
unfolding byte_at
recovers_one k hash nonzero long = (omega arith, refl)

three_parsed : parse_secp256k1_private_key small (3 ∷ []) ≡ ok 3
unfolding parse_secp256k1_private_key pad_left set_bytes
three_parsed = refl

handle_key_sign-checked_example :
    (data_hex : Bytes) × (d : Bytes) × (handle_key_sign small node echo keyed (codes "0x0a")
      ≡ (keyed, record { result_data = some data_hex; status = 1; error = none }))
    × (hex_to_bytes data_hex ≡ ok d)
    × (check_reply one_key (10 ∷ []) (5 ∷ []) d ≡ ok tt)
handle_key_sign-checked_example =
    handle_key_sign-checked small one_key (λ k. tt) recovers_one (λ b. refl) node echo keyed 3
      (3 ∷ []) (codes "0x0a") (10 ∷ []) three_parsed refl (λ e. absurd (cc)) ten (omega arith)

abbrev no_sender : ℕ → Result String Bytes
no_sender ext = err "unknown extension"

verdict-named_iff_example :
    ((verdict no_sender 4 4 (ok 4) (ok 2) [] ≡ all_consistent ∷ []) ↔ (
      (x : ℕ) × (◌≡◌ {A = Result String ℕ} (ok 4) (ok x)) × (4 ≡ x) × (4 ≡ x) × CanPromote (ok 2)))
    × (Shows (will_revert 2) (verdict no_sender 4 4 (ok 4) (ok 2) []) ↔ (
        (x : ℕ) × (◌≡◌ {A = Result String ℕ} (ok 4) (ok x))
        × Mismatch no_sender (will_revert 2) tt 4 4 x (ok 2)))
verdict-named_iff_example = verdict-named_iff no_sender (will_revert 2) tt 4 4 (ok 4) (ok 2) []

-- The coding of two empty texts.
abbrev empty_pair : Bytes
empty_pair = replicate 31 0 ++ 64 ∷ (replicate 31 0 ++ 96 ∷ replicate 64 0)

abbrev answering : Proxy ℕ
answering = record {
  http_get = λ url w. (w, reply 200 empty_pair);
  sleep = λ t w. w;
  decode_response = λ b. ok (record { result_status = 1; result_log = ""; result_data = b });
}

abbrev pub bound_sender : Sender mining
bound_sender = record {
  default_fee = 7;
  new_instruction_sender = λ a. ok tt;
  pack = λ m. none;
  created = λ tx. tx ∷ [];
}

abbrev tee : Tee ℕ
tee = record {
  Public = Unit {0};
  tee_info = λ w url. ok (record {
    extension_id = 4 ∷ [];
    initial_owner = 1 ∷ [];
    code_hash = [];
    platform = [];
    public_key = ([], []);
    governance_hash = [];
    data_signature = [];
    proxy_signature = [];
    chain_id = 14;
    last_signing_policy_id = 9;
    attestation = [];
  });
  parse_pub_key = λ k. ok tt;
  hex = λ b. "0x";
  encrypt = λ w k b. ok (0 ∷ b);
}

abbrev tested : Net mining
tested = record {
  world = 8;
  sent =
      sign (9 ∷ []) test_message
      ∷ update_key (9 ∷ []) (0 ∷ test_key)
      ∷ set_extension_id (9 ∷ [])
      ∷ [];
}
