-- ===== src/Support/Failure.antt =====
-- tee/go/tools/pkg/support/support.go: why a mined transaction failed, as far as the node tells.
use cipher_sign.Prelude.{
  not, [], ◌∷◌, Option, none, some, Bytes, codes, length, take, eq_bytes, ltb, if◌then◌else◌,
  Result, ok, err, ◌>>=◌,
}
use cipher_sign.Prelude.Text.{String, str_eq, concat, drop_2, hex_text}
use cipher_sign.Base.Hex.{decode_string}
use cipher_sign.Chain.{Chain, RpcError, ErrorData, no_data, other_data, text_data, bytes_data}

-- `strings.TrimPrefix(s, "0x")` of a text.
unfoldable pub trim_prefix_0x : String → String
trim_prefix_0x s = if eq_bytes (take 2 (codes s)) (codes "0x") then drop_2 s else s

module _ (c : Chain) where
  -- What the hex text of a revert unpacks to.
  unfoldable pub unpack_hex : String → Option String
  unfolding trim_prefix_0x
  unpack_hex text = elim (decode_string (codes (trim_prefix_0x text))) [
    | err e ↦ none
    | ok decoded ↦ c.unpack_revert decoded
  ]

  abbrev pub or_empty : Option String → String
  or_empty none = ""
  or_empty (some reason) = reason

  unfoldable pub revert_of_data : ErrorData → String
  unfolding unpack_hex
  revert_of_data no_data = ""
  revert_of_data other_data = ""
  revert_of_data (bytes_data d) = ""
  revert_of_data (text_data text) = or_empty (unpack_hex text)

  -- The empty text where there is no reason.
  unfoldable pub decode_revert_from_error : RpcError → String
  unfolding revert_of_data
  decode_revert_from_error e = revert_of_data e.error_data

  -- What a replay of the transaction shows.
  unfoldable pub reason_of_replay : Result RpcError Bytes → String
  unfolding decode_revert_from_error
  reason_of_replay (err e) =
      let reason = decode_revert_from_error e in if not (str_eq reason "") then reason else e.text
  reason_of_replay (ok res) = elim (c.unpack_revert res) [
    | some reason ↦ reason
    | none ↦
        if ltb 0 (length res) then concat ("0x" ∷ hex_text res ∷ []) else "unknown revert reason"
  ]

  unfoldable pub get_failing_message : Bytes → c.World → Result String String
  unfolding reason_of_replay
  get_failing_message hash w = do
    msg ← c.transaction_by_hash hash w
    from ← c.sender msg
    ok (reason_of_replay (c.call_contract (record msg { from = from }) w))
