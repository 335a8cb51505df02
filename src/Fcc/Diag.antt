-- ===== src/Fcc/Diag.antt =====
-- tee/go/tools/pkg/fccutils/diag.go: what the log says of a refused call. The ABIs of the bindings, and
-- FromHex of go-ethereum, are the record Diagnostics; a map of errors is given in the order of its run.
pub mod Search
use cipher_sign.Prelude.{
  ℕ, List, [], ◌∷◌, Option, none, some, Bytes, length, take, drop, eq_bytes, ltb, ◌==◌,
  if◌then◌else◌, Result, ok, err,
}
use cipher_sign.Prelude.Text.{String}
use cipher_sign.Chain.{
  Chain, ErrorData, no_data, other_data, text_data, bytes_data, Method, Proof,
  request_availability_check_attestation, to_production,
}
use cipher_sign.Fcc.Transactions.{registration_fee}

-- A custom error of an ABI: its name, the four bytes of its id, and the print of its arguments.
pub record AbiError : Type 0 where
  pub error_name : String
  pub error_id : Bytes
  pub unpack_arguments : Bytes → Result String String

pub record Diagnostics : Type 0 where
  pub from_hex : String → Bytes
  pub load_abi : Method → Result String (Unit {0})
  pub pack_call : Method → Result String Bytes
  -- The four sources with their errors, or none where an ABI does not load.
  pub abi_sources : List (String × Option (List AbiError))

-- The last line of the log.
pub data Diagnosis : Type 0 where
  abi_not_loaded not_packed no_revert_data : String → Diagnosis
  call_succeeded : Diagnosis
  data_without_selector : Bytes → Diagnosis
  reason_text : String → Diagnosis
  custom_error : String → String → Result String String → Diagnosis
  unknown_selector : Bytes → Bytes → Diagnosis

abbrev pub error_string_selector : Bytes
error_string_selector = 0x08 ∷ 0xc3 ∷ 0x79 ∷ 0xa0 ∷ []

-- The first error with the selector, in one ABI and in the sources.
unfoldable pub find_error : Bytes → List AbiError → Option AbiError
find_error selector [] = none
find_error selector (e ∷ es) =
    let rest = find_error selector es in if eq_bytes e.error_id selector then some e else rest

unfoldable pub find_source :
    Bytes → List (String × Option (List AbiError)) → Option (String × AbiError)
unfolding find_error
find_source selector [] = none
find_source selector ((name, none) ∷ sources) = find_source selector sources
find_source selector ((name, some errors) ∷ sources) = elim (find_error selector errors) [
  | some e ↦ some (name, e)
  | none ↦ find_source selector sources
]

module _ (c : Chain) (d : Diagnostics) where
  unfoldable pub extract_revert_data : ErrorData → Bytes
  extract_revert_data no_data = []
  extract_revert_data other_data = []
  extract_revert_data (text_data text) = d.from_hex text
  extract_revert_data (bytes_data b) = b

  abbrev named_error : Bytes → Option (String × AbiError) → Diagnosis
  named_error revert_data none = unknown_selector (take 4 revert_data) revert_data
  named_error revert_data (some (source, e)) =
      custom_error source e.error_name (e.unpack_arguments (drop 4 revert_data))

  unfoldable pub by_selector : Bytes → Diagnosis
  unfolding find_source
  by_selector revert_data = named_error revert_data (find_source (take 4 revert_data) d.abi_sources)

  -- `Error(string)` first, where it unpacks.
  abbrev reason_or_selector : Bytes → Option String → Diagnosis
  reason_or_selector revert_data (some reason) = reason_text reason
  reason_or_selector revert_data none = by_selector revert_data

  unfoldable pub diagnose_data : String → Bytes → Diagnosis
  unfolding by_selector
  diagnose_data text revert_data =
      if length revert_data == 0
      then no_revert_data text
      else if ltb (length revert_data) 4
      then data_without_selector revert_data
      else if eq_bytes (take 4 revert_data) error_string_selector
      then reason_or_selector revert_data (c.unpack_revert revert_data)
      else by_selector revert_data

  -- The body that the two functions share, for a call that is replayed.
  unfoldable pub diagnose : Bytes → Bytes → ℕ → Method → c.World → Diagnosis
  unfolding extract_revert_data diagnose_data
  diagnose from flare_tee_manager value m w = elim (d.load_abi m) [
    | err text ↦ abi_not_loaded text
    | ok _ ↦ elim (d.pack_call m) [
      | err text ↦ not_packed text
      | ok call_data ↦
          elim (c.call_contract
            (record {
              from = from;
              to = some flare_tee_manager;
              value = value;
              call_data = call_data;
            })
            w) [
              | ok _ ↦ call_succeeded
              | err e ↦ diagnose_data e.text (extract_revert_data e.error_data)
            ]
    ]
  ]

  unfoldable pub diag_availability_check_revert :
      c.PrivateKey → Bytes → Bytes → Bytes → Bytes → Bytes → Bytes → c.World → Diagnosis
  unfolding diagnose
  diag_availability_check_revert prv manager tee_id instruction_id external_tee_id proof_owner
        claim_back =
      diagnose (c.pubkey_to_address prv) manager registration_fee (
        request_availability_check_attestation tee_id instruction_id external_tee_id proof_owner
          claim_back)

  unfoldable pub diag_to_production_revert : c.PrivateKey → Bytes → Proof → c.World → Diagnosis
  unfolding diagnose
  diag_to_production_revert prv manager proof =
      diagnose (c.pubkey_to_address prv) manager 0 (to_production proof)
