-- ===== src/App/Service/Dispatch.antt =====
-- tee/go/main.go: the table of handlers of the running service.
use cipher_sign.Prelude.{
  false, [], none, some, Bytes, eq_bytes, eq_bytes_refl, if◌then◌else◌, ◌≡◌, ◌≢◌, refl, ap, arith,
}
use cipher_sign.Base.Hex.{encode_to_string, hex_char}
use cipher_sign.Base.Bytes32.{string_to_bytes32_hex, copy_to_32}
use cipher_sign.Base.Framework.{lookup, handle}
use cipher_sign.App.Crypto.{Secp256k1}
use cipher_sign.App.Handlers.{
  NodeCodec, op_type_key, op_command_update, op_command_sign, register, handle_key_update,
  handle_key_sign,
}

abbrev pub key_hex : Bytes
key_hex = string_to_bytes32_hex op_type_key

abbrev pub update_hex : Bytes
update_hex = string_to_bytes32_hex op_command_update

abbrev pub sign_hex : Bytes
sign_hex = string_to_bytes32_hex op_command_sign

update-ne-any : eq_bytes update_hex (string_to_bytes32_hex []) ≡ false
unfolding eq_bytes string_to_bytes32_hex encode_to_string copy_to_32 hex_char
update-ne-any = refl

sign-ne-any : eq_bytes sign_hex (string_to_bytes32_hex []) ≡ false
unfolding eq_bytes string_to_bytes32_hex encode_to_string copy_to_32 hex_char
sign-ne-any = refl

update-eq-sign : eq_bytes update_hex sign_hex ≡ false
unfolding eq_bytes string_to_bytes32_hex encode_to_string copy_to_32 hex_char
update-eq-sign = refl

pub update-ne-sign : update_hex ≢ sign_hex
update-ne-sign e = cc (ap (eq_bytes update_hex) e, eq_bytes_refl update_hex, update-eq-sign)

module _ (c : Secp256k1) (codec : NodeCodec) where
  -- A request reaches the key handler exactly for (KEY, UPDATE), the signing handler exactly for
  -- (KEY, SIGN), as bytes32 hex, and no handler for any other pair.
  pub lookup-register :
      (op_type op_command : Bytes)
      → lookup (register c codec []) op_type op_command ≡ (
          if eq_bytes key_hex op_type
          then if eq_bytes update_hex op_command
            then some (handle_key_update c codec)
            else if eq_bytes sign_hex op_command
            then some (handle_key_sign c codec)
            else none
          else none)
  unfolding lookup register handle
  lookup-register t m = ground (arith, update-ne-any, sign-ne-any)
