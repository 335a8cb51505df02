-- ===== src/Commands/QueryTee.antt =====
-- tee/go/tools/cmd/query-tee/main.go: what is printed, as lines. What the contract shows is the record
-- Machines; the libraries' printing of addresses is a parameter. An index out of range is the panic.
pub mod Urls
use cipher_sign.Prelude.{
  ℕ, ◌+◌, List, [], ◌∷◌, ◌++◌, Option, none, some, Bytes, replicate, eq_bytes, if◌then◌else◌,
  Result, ok, err,
}
use cipher_sign.Prelude.Text.{String, concat, itoa}

-- `GetTeeMachine`.
pub record Machine : Type 0 where
  pub machine_id : Bytes
  pub machine_proxy_id : Bytes
  pub machine_url : String

pub record Machines : Type 0 where
  -- The ids of the active set, and their urls.
  pub get_active : ℕ → Result String (List Bytes × List String)
  pub get_machine : Bytes → Result String Machine
  pub get_status : Bytes → Result String ℕ
  pub get_owner : Bytes → Result String Bytes
  pub get_extension : Bytes → Result String ℕ
  pub get_last_status_change_ts : Bytes → Result String ℕ
  pub get_initial_signing_policy_id : Bytes → Result String ℕ
  -- `Address.Hex` and `%q`.
  pub address_hex : Bytes → String
  pub quote : String → String

-- The end of the program: the print is whole, a set-up failed, or an index is out of range.
pub data Queried : Type 0 where
  printed : List String → Queried
  failed_setup : String → Queried
  index_panic : Queried

-- One line of a read: its name, and the print of its value where it gives one.
abbrev read_line : {A : Type 0} → String → (A → String) → Result String A → String
read_line name show (err text) = concat ("  " ∷ name ∷ " ERROR: " ∷ text ∷ [])
read_line name show (ok a) = concat ("  " ∷ name ∷ ": " ∷ show a ∷ [])

module _ (x : Machines) where
  -- The loop over the ids, which reads the url of the same index.
  unfoldable pub active_lines : ℕ → List Bytes → List String → Option (List String)
  active_lines i [] urls = some []
  active_lines i (id ∷ ids) [] = none
  active_lines i (id ∷ ids) (url ∷ urls) = elim (active_lines (i + 1) ids urls) [
    | none ↦ none
    | some rest ↦
        some (concat ("  " ∷ itoa i ∷ ": " ∷ x.address_hex id ∷ " url=" ∷ x.quote url ∷ []) ∷ rest)
  ]

  -- "  (none)" stands where no line does.
  abbrev or_none : List String → List String
  or_none [] = "  (none)" ∷ []
  or_none (line ∷ lines) = line ∷ lines

  abbrev headed : String → Option (List String) → Option (List String)
  headed head none = none
  headed head (some lines) = some (head ∷ or_none lines)

  -- The section of -ext, which is none where it is below 0.
  unfoldable pub active_section : Option ℕ → Option (List String)
  unfolding active_lines
  active_section none = some []
  active_section (some ext) =
      let head = concat ("\n=== Active TEEs for extensionId=" ∷ itoa ext ∷ " ===" ∷ []) in
      elim (x.get_active ext) [
        | err text ↦ some (head ∷ concat ("getActiveTeeMachines ERROR: " ∷ text ∷ []) ∷ [])
        | ok (ids, urls) ↦ headed head (active_lines 0 ids urls)
      ]

  abbrev machine_found : Result String Machine → List String
  machine_found (err text) = concat ("  getTeeMachine ERROR: " ∷ text ∷ []) ∷ []
  machine_found (ok m) =
      concat (
        "  getTeeMachine: teeId="
        ∷ x.address_hex m.machine_id
        ∷ " teeProxyId="
        ∷ x.address_hex m.machine_proxy_id
        ∷ " url="
        ∷ x.quote m.machine_url
        ∷ [])
      ∷ (if eq_bytes m.machine_id (replicate 20 0) then "  -> EMPTY/UNREGISTERED" ∷ [] else [])

  -- The section of one id; a read that fails stops no other.
  unfoldable pub tee_section : Bytes → List String
  tee_section id =
      concat ("\n=== TEE " ∷ x.address_hex id ∷ " ===" ∷ [])
      ∷ (machine_found (x.get_machine id)
          ++ (read_line "getTeeMachineStatus" itoa (x.get_status id)
              ∷ read_line "getTeeMachineOwner" x.address_hex (x.get_owner id)
              ∷ read_line "getExtensionId" itoa (x.get_extension id)
              ∷ read_line "getLastStatusChangeTs" itoa (x.get_last_status_change_ts id)
              ∷ read_line "getInitialSigningPolicyId" itoa (x.get_initial_signing_policy_id id)
              ∷ []))

  tee_sections : List Bytes → List String
  unfolding tee_section
  tee_sections [] = []
  tee_sections (id ∷ ids) = tee_section id ++ tee_sections ids

  abbrev or_panic : Option (List String) → List String → Queried
  or_panic none rest = index_panic
  or_panic (some lines) rest = printed (lines ++ rest)

  -- `main`, from the two steps of the set-up and the ids that follow the flags.
  unfoldable pub query_tee :
      Result String (Unit {0}) → Result String (Unit {0}) → Option ℕ → List Bytes → Queried
  unfolding active_section tee_sections
  query_tee (err text) bound ext ids = failed_setup (concat ("dial: " ∷ text ∷ []))
  query_tee (ok _) (err text) ext ids = failed_setup (concat ("bind: " ∷ text ∷ []))
  query_tee (ok _) (ok _) ext ids = or_panic (active_section ext) (tee_sections ids)
