-- ===== src/App/Tests.antt =====
-- Tests: the handlers, the coding and the life of the service on a small group and small messages.
use cipher_sign.Prelude.{
  ℕ, ◌-◌, ◌%◌, ◌^◌, ◌≤◌, ◌<◌, true, [], ◌∷◌, Option, none, some, Bytes, codes, length, replicate,
  IsBytes, replicate-IsBytes, eq_bytes, ◌==◌, ==_iff, if◌then◌else◌, ok, err, ◌≡◌, ◌≢◌, ◌↔◌, ◌⊎◌,
  refl, arith,
}
use cipher_sign.App.Int64.{set_bytes}
use cipher_sign.App.Abi.{pad_left, abi_encode_two, abi_decode_two, abi_read_bytes}
use cipher_sign.App.Abi.RoundTrip.{abi_decode_two-abi_encode_two}
use cipher_sign.App.Abi.Overflow.{abi_read_bytes-eq-read_item, read_item}
use cipher_sign.App.Crypto.{Secp256k1, parse_secp256k1_private_key, sign_ecdsa}
use cipher_sign.App.Crypto.Laws.{parse_secp256k1_private_key_iff}
use cipher_sign.App.Handlers.{
  HttpPost, responded, NodeCodec, State, HandlerError, decrypt_via_node, handle_key_update,
  handle_key_sign, register, set_sign_port, decrypted_key, decrypt_reply, signed_message,
}
use cipher_sign.App.Handlers.Sign.{handle_key_sign-decodes, handle_key_sign-fails_iff}
use cipher_sign.App.Handlers.Update.{handle_key_update-outcome, Accepted, Refused}
use cipher_sign.App.Service.{main, respond, Trace, boot, request, env_or}
use cipher_sign.App.Service.Dispatch.{key_hex, update_hex, sign_hex}
use cipher_sign.App.Service.Life.{Reports, Any, HasKey, has_key_iff, sign_after_update}
use cipher_sign.Base.Framework.{lookup, handle}
use cipher_sign.Base.Bytes32.{string_to_bytes32_hex, copy_to_32}
use cipher_sign.Base.Hex.{
  hex_to_bytes, trim_0x, decode_string, hex_char, hex_value, encode_to_string, HexError,
}
use cipher_sign.Base.Server.{
  JsonCodec, Action, DataFixed, Request, Response, accept, serve, handle_action, action_result_of,
  original_message, new,
}

-- A group of seven elements, whose keys are numbers; a signature is the flag 28 and 64 zeros.
abbrev pub signature : Bytes
signature = 28 ∷ replicate 64 0

pub signature-IsBytes : IsBytes signature
signature-IsBytes = (omega arith, replicate-IsBytes 64)

pub small_zero_iff :
    (b : Bytes) → length b ≡ 32 → ((set_bytes b % 7) == 0 ≡ true) ↔ (set_bytes b % 7 ≡ 0)
small_zero_iff b h = ==_iff (set_bytes b % 7) 0

abbrev pub small : Secp256k1
small = record {
  PrivateKey = ℕ;
  order = 7;
  priv_key_from_bytes = λ b. set_bytes b % 7;
  is_zero = λ k. k == 0;
  sign_compact = λ k h. signature;
  keccak256 = λ m. replicate 32 0;
  length-keccak256 = λ m. refl;
  is_zero_iff = small_zero_iff;
  length-sign_compact = λ k h. refl;
  sign_compact-IsBytes = λ k h. signature-IsBytes;
}

abbrev pub node : NodeCodec
node = record {
  marshal_decrypt_request = λ r. r.encrypted_message;
  decode_decrypt_response = λ b. some (record { decrypted_message = b });
}

-- A node that answers with the ciphertext.
abbrev pub echo : HttpPost
echo url body = responded 200 body

-- The text of an action is its inner message; the first byte of that selects the operation.
abbrev action_of : Bytes → Action
action_of body = record {
  action_data = record { id = 1 ∷ []; action_type = []; submission_tag = []; message = body };
  additional_variable_messages = [];
  timestamps = [];
  additional_action_data = [];
  signatures = [];
}

abbrev fixed_of : Bytes → Bytes → DataFixed
fixed_of command message = record {
  instruction_id = [];
  tee_id = [];
  timestamp = 0;
  reward_epoch_id = 0;
  op_type = key_hex;
  op_command = command;
  cosigners = [];
  cosigners_threshold = 0;
  original_message = message;
  additional_fixed_message = [];
  message = [];
}

abbrev fixed_from : Bytes → Option DataFixed
fixed_from [] = none
fixed_from (x ∷ rest) = some (fixed_of (if x == 1 then update_hex else sign_hex) (codes "0x0a"))

abbrev json : JsonCodec
json = record { unmarshal_action = λ b. some (action_of b); unmarshal_data_fixed = fixed_from }

-- No variable is set.
abbrev no_env : Bytes → Bytes
no_env key = []

abbrev post_action : Bytes → Request
post_action text = record { path = codes "/action"; method = codes "POST"; body = some text }

abbrev pub keyed : State small node
keyed = record { private_key = some 3; sign_port = codes "9090" }

abbrev keyless : State small node
keyless = record { private_key = none; sign_port = codes "9090" }

parse_example : parse_secp256k1_private_key small (10 ∷ []) ≡ ok 3
unfolding parse_secp256k1_private_key set_bytes pad_left
parse_example = refl

abbrev updated : Response HandlerError
updated = (respond small node json no_env echo keyless (post_action (codes "01"))).1

update_example :
    respond small node json no_env echo keyless (post_action (codes "01")) ≡ (keyed, updated)
unfolding respond serve handle_action accept hex_to_bytes decode_string trim_0x hex_value
    original_message main new register handle lookup env_or handle_key_update decrypted_key
    decrypt_via_node decrypt_reply parse_secp256k1_private_key set_bytes pad_left eq_bytes
    string_to_bytes32_hex encode_to_string copy_to_32 hex_char
update_example = refl

-- The trace of one key update.
updated-Trace : Trace small node json no_env keyed (updated ∷ [])
unfolding main set_sign_port env_or
updated-Trace = request boot echo (post_action (codes "01")) update_example

has_key_iff_example : HasKey small node json no_env keyed ↔ Any (Reports update_hex) (updated ∷ [])
has_key_iff_example = has_key_iff small node json no_env updated-Trace

abbrev signed : Response HandlerError
signed = (respond small node json no_env echo keyed (post_action (codes "02"))).1

sign_example :
    respond small node json no_env echo keyed (post_action (codes "02")) ≡ (keyed, signed)
unfolding respond serve handle_action accept hex_to_bytes decode_string trim_0x hex_value
    original_message main new register handle lookup env_or handle_key_update decrypted_key
    decrypt_via_node decrypt_reply parse_secp256k1_private_key set_bytes pad_left eq_bytes
    string_to_bytes32_hex encode_to_string copy_to_32 hex_char handle_key_sign signed_message
sign_example = refl

signed-Reports : Reports sign_hex signed
unfolding respond serve handle_action accept hex_to_bytes decode_string trim_0x hex_value
    original_message main new register handle lookup env_or handle_key_update decrypted_key
    decrypt_via_node decrypt_reply parse_secp256k1_private_key set_bytes pad_left eq_bytes
    string_to_bytes32_hex encode_to_string copy_to_32 hex_char handle_key_sign signed_message
    action_result_of
signed-Reports = (refl, refl, refl)

sign_after_update_example : Any (Reports update_hex) (updated ∷ [])
sign_after_update_example =
    sign_after_update small node json no_env updated-Trace echo (post_action (codes "02"))
      sign_example signed-Reports

pub ten : hex_to_bytes (codes "0x0a") ≡ ok (10 ∷ [])
unfolding hex_to_bytes decode_string trim_0x hex_value
ten = refl

handle_key_sign-decodes_example :
    (data_hex : Bytes) × (d : Bytes) × (handle_key_sign small node echo keyed (codes "0x0a")
      ≡ (keyed, record { result_data = some data_hex; status = 1; error = none }))
    × (hex_to_bytes data_hex ≡ ok d)
    × (abi_decode_two d ≡ ok (10 ∷ [], sign_ecdsa small 3 (10 ∷ [])))
    × (length (sign_ecdsa small 3 (10 ∷ [])) ≡ 65)
handle_key_sign-decodes_example =
    handle_key_sign-decodes small node echo keyed 3 (codes "0x0a") (10 ∷ []) refl (λ e. absurd (cc))
      ten (omega arith)

handle_key_sign-fails_iff_example :
    ((handle_key_sign small node echo keyless (codes "0x0a")).0 ≡ keyless)
    × (((handle_key_sign small node echo keyless (codes "0x0a")).1.status ≡ 0) ↔ (
        (keyless.private_key ≡ none)
        ⊎ (codes "0x0a" ≡ [])
        ⊎ (e : HexError) × (hex_to_bytes (codes "0x0a") ≡ err e)))
handle_key_sign-fails_iff_example = handle_key_sign-fails_iff small node echo keyless (codes "0x0a")

handle_key_update-outcome_example :
    ((k : ℕ) × Accepted small node echo (codes "9090") (codes "0x0a") k
      × (handle_key_update small node echo keyless (codes "0x0a") ≡ (
        record keyless { private_key = some k },
        record { result_data = none; status = 1; error = none },
      )))
    ⊎ ((e : HandlerError) × Refused small node echo (codes "9090") (codes "0x0a") e
        × (handle_key_update small node echo keyless (codes "0x0a")
            ≡ (keyless, record { result_data = none; status = 0; error = some e })))
handle_key_update-outcome_example = handle_key_update-outcome small node echo keyless (codes "0x0a")

abi_decode_two-abi_encode_two_example :
    abi_decode_two (abi_encode_two (1 ∷ 2 ∷ []) (3 ∷ [])) ≡ ok (1 ∷ 2 ∷ [], 3 ∷ [])
abi_decode_two-abi_encode_two_example =
    abi_decode_two-abi_encode_two (1 ∷ 2 ∷ []) (3 ∷ []) (omega arith)

abi_read_bytes-eq-read_item_example :
    abi_read_bytes (replicate 64 1) (2 ^ 63 - 1) ≡ read_item (replicate 64 1) (2 ^ 63 - 1)
abi_read_bytes-eq-read_item_example =
    abi_read_bytes-eq-read_item (replicate 64 1) (2 ^ 63 - 1) (omega arith) (omega arith)
      (omega arith)

parse_secp256k1_private_key_iff_example : (parse_secp256k1_private_key small (10 ∷ []) ≡ ok 3) ↔ (
    (0 < 1)
    × (1 ≤ 32)
    × (set_bytes (10 ∷ []) % 7 ≢ 0)
    × (set_bytes (pad_left (10 ∷ []) 32) % 7 ≡ 3))
parse_secp256k1_private_key_iff_example = parse_secp256k1_private_key_iff small (10 ∷ []) 3
