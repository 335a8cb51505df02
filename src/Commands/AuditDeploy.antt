-- ===== src/Commands/AuditDeploy.antt =====
-- tee/go/tools/cmd/audit-deploy/main.go: the status of an address, and the replay of addTeeVersion, as the
-- line that each prints. The ABIs are the record Diagnostics of diag.go, with the three sources of
-- this command.
pub mod Replay
pub mod Printed
use cipher_sign.Prelude.{
  ℕ, ◌+◌, [], ◌∷◌, ◌++◌, Option, none, some, Bytes, length, take, drop, replicate, eq_bytes, ltb,
  ◌==◌, if◌then◌else◌, Result, ok, err,
}
use cipher_sign.Prelude.Text.{String, concat, itoa}
use cipher_sign.Chain.{Chain, add_tee_version}
use cipher_sign.Fcc.Diag.{
  Diagnostics, AbiError, error_string_selector, find_source, extract_revert_data,
}

-- `string_to_bytes32` of this command; `quote` is `%q`.
unfoldable pub value_to_bytes32 : (Bytes → String) → Bytes → Result String Bytes
value_to_bytes32 quote s =
    if ltb 32 (length s)
    then err (concat ("value " ∷ quote s ∷ " exceeds 32 bytes" ∷ []))
    else ok (take 32 (s ++ replicate 32 0))

-- The status that stands behind an address; an error of the node comes first.
unfoldable pub address_status : Bytes → Result String Bytes → String
address_status a (err text) = concat ("ERROR " ∷ text ∷ [])
address_status a (ok code) =
    if eq_bytes a (replicate 20 0)
    then "ZERO ADDRESS"
    else if length code == 0
    then "NO CODE"
    else concat ("ok (" ∷ itoa (length code) ∷ " bytes)" ∷ [])

pub data Replayed : Type 0 where
  load_failed bad_version pack_failed : String → Replayed
  would_succeed : Replayed
  short_data : String → Replayed
  reason_string : String → Replayed
  reverts_with : String → String → Result String String → Bytes → Replayed
  unknown_error : Bytes → Bytes → Replayed

module _ (c : Chain) (d : Diagnostics) where
  abbrev pub named : Bytes → Option (String × AbiError) → Replayed
  named revert_data none = unknown_error (take 4 revert_data) revert_data
  named revert_data (some (source, e)) =
      reverts_with source e.error_name (e.unpack_arguments (drop 4 revert_data)) revert_data

  abbrev pub reason_or_named : Bytes → Option String → Replayed
  reason_or_named revert_data (some reason) = reason_string reason
  reason_or_named revert_data none =
      named revert_data (find_source (take 4 revert_data) d.abi_sources)

  unfoldable pub read_revert : String → Bytes → Replayed
  read_revert text revert_data =
      if ltb (length revert_data) 4
      then short_data text
      else if eq_bytes (take 4 revert_data) error_string_selector
      then reason_or_named revert_data (c.unpack_revert revert_data)
      else named revert_data (find_source (take 4 revert_data) d.abi_sources)

  unfoldable pub replay_add_tee_version :
      (Bytes → String) → Bytes → Bytes → ℕ → Bytes → Bytes → Bytes → c.World → Replayed
  unfolding value_to_bytes32 read_revert
  replay_add_tee_version quote to from ext_id version code_hash platform w =
      elim (d.load_abi (add_tee_version ext_id [] code_hash (platform ∷ []))) [
        | err text ↦ load_failed text
        | ok _ ↦ elim (value_to_bytes32 quote version) [
          | err text ↦ bad_version text
          | ok packed ↦
              elim (d.pack_call (add_tee_version ext_id packed code_hash (platform ∷ []))) [
                | err text ↦ pack_failed text
                | ok call_data ↦
                    elim (c.call_contract
                      (record { from = from; to = some to; value = 0; call_data = call_data }) w) [
                        | ok _ ↦ would_succeed
                        | err e ↦ read_revert e.text (extract_revert_data c d e.error_data)
                      ]
              ]
        ]
      ]
