-- ===== src/App/Handlers.antt =====
-- tee/go/internal/app/handlers.go: the key store and its two handlers. The state is the two
-- variables of the package that change. The HTTP client and the JSON text of the two messages to the
-- TEE node (types.go) are parameters; errors keep the structure of their texts.
pub mod Sign
pub mod Update
use cipher_sign.Prelude.{
  ℕ, ◌+◌, ◌/◌, Bool, true, false, not, [], ◌∷◌, ◌++◌, Option, none, some, Bytes, codes, ◌==◌,
  if◌then◌else◌, Result, ok, err, ◌>>=◌, ◌>>◌, map_err,
}
use cipher_sign.Base.Hex.{HexError, hex_to_bytes, bytes_to_hex}
use cipher_sign.Base.Framework.{Framework, handle}
use cipher_sign.Base.Server.{HandlerFunc}
use cipher_sign.App.Abi.{abi_encode_two}
use cipher_sign.App.Crypto.{Secp256k1, KeyError, parse_secp256k1_private_key, sign_ecdsa}

abbrev pub version : Bytes
version = codes "0.1.0"

abbrev pub op_type_key : Bytes
op_type_key = codes "KEY"

abbrev pub op_command_update : Bytes
op_command_update = codes "UPDATE"

abbrev pub op_command_sign : Bytes
op_command_sign = codes "SIGN"

-- `httpClient.Post`: the error case, or the status and the body of the answer.
pub data PostResult : Type 0 where
  request_failed : PostResult
  responded : ℕ → Bytes → PostResult

-- What the client answers during one handler call, by URL and body.
abbrev pub HttpPost : Type 0
HttpPost = Bytes → Bytes → PostResult

pub record DecryptRequest : Type 0 where
  pub encrypted_message : Bytes

pub record DecryptResponse : Type 0 where
  pub decrypted_message : Bytes

pub record NodeCodec : Type 0 where
  pub marshal_decrypt_request : DecryptRequest → Bytes
  pub decode_decrypt_response : Bytes → Option DecryptResponse

pub data DecryptError : Type 0 where
  request_error decode_error : DecryptError
  node_returned : ℕ → Bytes → DecryptError

pub data HandlerError : Type 0 where
  empty_message no_private_key : HandlerError
  invalid_hex : HexError → HandlerError
  decryption_failed : DecryptError → HandlerError
  invalid_private_key : KeyError → HandlerError

abbrev pub fail_if : Bool → HandlerError → Result HandlerError (Unit {0})
fail_if true e = err e
fail_if false e = ok tt

abbrev pub is_empty : Bytes → Bool
is_empty [] = true
is_empty (_ ∷ _) = false

module _ (c : Secp256k1) (codec : NodeCodec) where
  pub record State : Type 0 where
    pub private_key : Option c.PrivateKey
    pub sign_port : Bytes

  unfoldable pub set_sign_port : Bytes → State → State
  set_sign_port port s = record s { sign_port = port }

  -- `json.Marshal` of the map: its keys are written in order.
  unfoldable pub report_state : State → Bytes
  report_state s =
      codes "{\"hasKey\":"
      ++ (elim s.private_key [ none ↦ codes "false" | some _ ↦ codes "true" ]
          ++ codes ",\"version\":\"0.1.0\"}")

  -- The answer of the node: its status is tested, then its body is decoded.
  unfoldable pub decrypt_reply : PostResult → Result DecryptError Bytes
  decrypt_reply request_failed = err request_error
  decrypt_reply (responded status reply) =
      if not (status == 200)
      then err (node_returned status reply)
      else elim (codec.decode_decrypt_response reply) [
        | none ↦ err decode_error
        | some r ↦ ok r.decrypted_message
      ]

  unfoldable pub decrypt_via_node : HttpPost → Bytes → Bytes → Result DecryptError Bytes
  decrypt_via_node post sign_port ciphertext =
      let url = codes "http://localhost:" ++ (sign_port ++ codes "/decrypt") in
      let body = codec.marshal_decrypt_request (record { encrypted_message = ciphertext }) in
      decrypt_reply (post url body)

  unfoldable pub decrypted_key : HttpPost → Bytes → Bytes → Result HandlerError c.PrivateKey
  decrypted_key post sign_port msg = do
    fail_if (is_empty msg) empty_message
    ciphertext ← map_err invalid_hex (hex_to_bytes msg)
    key_bytes ← map_err decryption_failed (decrypt_via_node post sign_port ciphertext)
    map_err invalid_private_key (parse_secp256k1_private_key c key_bytes)

  unfoldable pub handle_key_update : HandlerFunc HttpPost State HandlerError
  handle_key_update post s msg = elim (decrypted_key post s.sign_port msg) [
    | err e ↦ (s, record { result_data = none; status = 0; error = some e })
    | ok k ↦
        (record s { private_key = some k }, record { result_data = none; status = 1; error = none })
  ]

  unfoldable pub signed_message : Option c.PrivateKey → Bytes → Result HandlerError Bytes
  signed_message none msg = err no_private_key
  signed_message (some k) msg = do
    fail_if (is_empty msg) empty_message
    msg_bytes ← map_err invalid_hex (hex_to_bytes msg)
    ok (bytes_to_hex (abi_encode_two msg_bytes (sign_ecdsa c k msg_bytes)))

  unfoldable pub handle_key_sign : HandlerFunc HttpPost State HandlerError
  handle_key_sign post s msg = elim (signed_message s.private_key msg) [
    | err e ↦ (s, record { result_data = none; status = 0; error = some e })
    | ok data_hex ↦ (s, record { result_data = some data_hex; status = 1; error = none })
  ]

  unfoldable pub register :
      Framework (HandlerFunc HttpPost State HandlerError)
      → Framework (HandlerFunc HttpPost State HandlerError)
  register f =
      handle op_type_key op_command_sign handle_key_sign
        (handle op_type_key op_command_update handle_key_update f)
