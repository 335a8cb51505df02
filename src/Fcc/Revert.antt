-- ===== src/Fcc/Revert.antt =====
-- tee/go/tools/pkg/fccutils/revert.go.
pub mod Agree
use cipher_sign.Prelude.{
  ℕ, not, [], ◌∷◌, Option, none, some, Bytes, codes, length, ltb, leb, if◌then◌else◌, Result, ok,
  err,
}
use cipher_sign.Prelude.Text.{String, str_eq, concat, hex_text}
use cipher_sign.Base.Hex.{HexError, decode_string}
use cipher_sign.Chain.{Chain, RpcError, ErrorData, no_data, other_data, text_data, bytes_data}
use cipher_sign.Support.Failure.{trim_prefix_0x}

module _ (c : Chain) where
  -- The reason, or the hex text of an error that does not unpack.
  abbrev pub reason_or_hex : String → Option String → String
  reason_or_hex text (some reason) = reason
  reason_or_hex text none = concat ("0x" ∷ text ∷ [])

  abbrev pub decoded_reason : String → Result HexError Bytes → String
  decoded_reason text (err e) = ""
  decoded_reason text (ok decoded) =
      if ltb (length decoded) 4 then "" else reason_or_hex text (c.unpack_revert decoded)

  unfoldable pub decode_revert_hex : String → String
  unfolding trim_prefix_0x
  decode_revert_hex hex_str =
      let text = trim_prefix_0x hex_str in decoded_reason text (decode_string (codes text))

  abbrev pub reason_of_data : ErrorData → String
  unfolding decode_revert_hex
  reason_of_data no_data = ""
  reason_of_data other_data = ""
  reason_of_data (bytes_data d) = ""
  reason_of_data (text_data text) = decode_revert_hex text

  unfoldable pub decode_revert_reason : RpcError → String
  decode_revert_reason e = reason_of_data e.error_data

  abbrev reason_of_call : Result RpcError Bytes → String
  reason_of_call (err e) =
      let reason = decode_revert_reason e in if not (str_eq reason "") then reason else e.text
  reason_of_call (ok result) =
      if leb 4 (length result) then decode_revert_hex (hex_text result) else ""

  -- A value of nil is 0.
  unfoldable pub simulate_and_decode_revert : Bytes → Bytes → ℕ → Bytes → c.World → String
  unfolding decode_revert_reason decode_revert_hex
  simulate_and_decode_revert from to value call_data w = reason_of_call (
      c.call_contract (record { from = from; to = some to; value = value; call_data = call_data })
        w)
