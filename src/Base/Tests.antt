-- ===== src/Base/Tests.antt =====
-- Tests: the encodings, the dispatch and the server on small texts and a framework of one counter.
use cipher_sign.Prelude.{
  ℕ, suc, List, [], ◌∷◌, none, some, Bytes, codes, IsBytes, ok, ◌≡◌, ◌↔◌, ◌⊎◌, refl, arith,
}
use Prim.Native.String.{String}
use cipher_sign.Base.Hex.{hex_to_bytes, bytes_to_hex, hex_char, encode_to_string}
use cipher_sign.Base.Hex.Laws.{hex_to_bytes-bytes_to_hex}
use cipher_sign.Base.Bytes32.{string_to_bytes32_hex, op_type_to_string, copy_to_32}
use cipher_sign.Base.Bytes32.Laws.{EndsNonzero, op_type_to_string-string_to_bytes32_hex}
use cipher_sign.Base.Framework.{lookup, handle}
use cipher_sign.Base.Framework.Dispatch.{Registration, registered, FirstServing, lookup-handle_iff}
use cipher_sign.Base.Server.{
  JsonCodec, Action, DataFixed, Request, Server, HandlerFunc, http_error, action_result,
  ActionResult, handle_action, new,
}
use cipher_sign.Base.Server.Accept.{Accepts, IsMessage, Answers, Refuses, handle_action-outcome}

abbrev sign_text : Bytes
sign_text = codes "SIGN"

sign_IsBytes : IsBytes sign_text
sign_IsBytes = (omega arith, (omega arith, (omega arith, (omega arith, tt))))

sign_ends : EndsNonzero sign_text
sign_ends = λ e. absurd (omega arith)

sign_hex_sample :
    string_to_bytes32_hex sign_text
    ≡ codes "0x5349474e00000000000000000000000000000000000000000000000000000000"
unfolding string_to_bytes32_hex copy_to_32 encode_to_string hex_char
sign_hex_sample = refl

op_type_to_string-string_to_bytes32_hex_example :
    op_type_to_string (string_to_bytes32_hex sign_text) ≡ sign_text
op_type_to_string-string_to_bytes32_hex_example =
    op_type_to_string-string_to_bytes32_hex sign_text sign_IsBytes (omega arith) sign_ends

hex_to_bytes-bytes_to_hex_example : hex_to_bytes (bytes_to_hex sign_text) ≡ ok sign_text
hex_to_bytes-bytes_to_hex_example = hex_to_bytes-bytes_to_hex sign_text sign_IsBytes

-- Two calls, the second for every command of its type.
abbrev numbered : List (Registration ℕ)
numbered =
    record { op_type = codes "KEY"; op_command = codes "SIGN"; handler = 1 }
    ∷ record { op_type = codes "KEY"; op_command = []; handler = 2 }
    ∷ []

lookup-handle_iff_example :
    (lookup
        (registered numbered [])
        (string_to_bytes32_hex (codes "KEY"))
        (string_to_bytes32_hex sign_text)
      ≡ some 1)
    ↔ FirstServing
        (string_to_bytes32_hex (codes "KEY"))
        (string_to_bytes32_hex sign_text)
        1
        numbered
lookup-handle_iff_example =
    lookup-handle_iff (string_to_bytes32_hex (codes "KEY")) (string_to_bytes32_hex sign_text)
      numbered 1

-- Every text is an action whose message is that text, and a message names its operation.
abbrev texts : JsonCodec
texts = record {
  unmarshal_action = λ b. some (record {
    action_data = record { id = []; action_type = []; submission_tag = []; message = b };
    additional_variable_messages = [];
    timestamps = [];
    additional_action_data = [];
    signatures = [];
  });
  unmarshal_data_fixed = λ b. some (record {
    instruction_id = [];
    tee_id = [];
    timestamp = 0;
    reward_epoch_id = 0;
    op_type = b;
    op_command = [];
    cosigners = [];
    cosigners_threshold = 0;
    original_message = [];
    additional_fixed_message = [];
    message = b;
  });
}

-- A handler that counts its calls.
abbrev count_call : HandlerFunc (Unit {0}) ℕ ℕ
count_call v s msg = (suc s, record { result_data = none; status = 1; error = none })

abbrev counter : Server (Unit {0}) ℕ ℕ
counter = new [] [] (codes "1") (handle (codes "KEY") [] count_call) (λ s. [])

abbrev key_request : Request
key_request = record {
  path = codes "/action";
  method = codes "POST";
  body = some (codes "4b45590000000000000000000000000000000000000000000000000000000000");
}

handle_action-outcome_example :
    ((action : Action) × (df : DataFixed) × (f : HandlerFunc (Unit {0}) ℕ ℕ) × (msg : Bytes)
      × (res : ActionResult ℕ) × Accepts texts counter key_request action df f
      × IsMessage texts counter df msg
      × Answers texts counter action df (f tt 4 msg).1 res
      × (handle_action texts counter tt 4 key_request ≡ ((f tt 4 msg).0, action_result res)))
    ⊎ ((code : ℕ) × (text : String) × Refuses texts counter key_request code text
        × (handle_action texts counter tt 4 key_request ≡ (4, http_error code text)))
handle_action-outcome_example = handle_action-outcome texts counter tt 4 key_request
