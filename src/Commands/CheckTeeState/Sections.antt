-- ===== src/Commands/CheckTeeState/Sections.antt =====
-- tee/go/tools/cmd/check-tee-state/main.go: the sections that are printed, and the whole command. What the
-- contracts show is the record Reads; the binding gives a url for each id of the active set. The map
-- of senders is run through in an order of its own, which is an argument; its keys are numbers by
-- their decimal print.
pub mod Shown
use cipher_sign.Prelude.{
  ℕ, ◌+◌, ◌-◌, ◌/◌, Bool, true, false, not, ◌&&◌, ◌||◌, List, [], ◌∷◌, ◌++◌, map, Bytes, length,
  eq_bytes, ◌==◌, if◌then◌else◌, Result, ok, err, ◌>>=◌, ◌>>◌, map_err,
}
use cipher_sign.Prelude.Text.{String, str_eq, concat, itoa}
use cipher_sign.App.Int64.{set_bytes}
use cipher_sign.Fcc.Identity.{Identities, tee_proxy_id}
use cipher_sign.Fcc.Transactions.{TeeInfo}
use cipher_sign.Commands.CheckTeeState.{no_address, status_name, line_text, verdict, contains_tee}

-- `GetTeeMachine`.
pub record TeeRecord : Type 0 where
  pub record_tee_id : Bytes
  pub record_proxy_id : Bytes
  pub record_url : String

pub record Reads : Type 0 where
  pub storage_at : Bytes → Result String Bytes
  pub get_tee_machine_status : Bytes → Result String ℕ
  pub get_extension_id : Bytes → Result String ℕ
  pub get_tee_machine_owner : Bytes → Result String Bytes
  pub get_tee_machine : Bytes → Result String TeeRecord
  pub get_active_tee_machines : ℕ → Result String (List (Bytes × String))
  pub get_tee_extension_instructions_sender : ℕ → Result String Bytes
  -- `Address.Hex`, `%q`, and the print of a Boolean.
  pub hex : Bytes → String
  pub quote : String → String

abbrev pub bool_text : Bool → String
bool_text b = if b then "true" else "false"

-- The ids that are shown already.
unfoldable pub was_seen : List ℕ → ℕ → Bool
was_seen [] ext = false
was_seen (x ∷ xs) ext = x == ext || was_seen xs ext

-- The entries of the loop over the senders that are not skipped.
unfoldable pub unseen : List ℕ → List (ℕ × String) → List (ℕ × String)
unfolding was_seen
unseen seen [] = []
unseen seen ((ext, label) ∷ rest) =
    let skipped = unseen seen rest in
    let shown = (ext, label) ∷ unseen (ext ∷ seen) rest in
    if was_seen seen ext then skipped else shown

-- The calls of `listActive`.
abbrev pub third_active : ℕ → ℕ → Result String ℕ → List (ℕ × String)
third_active proxy is (err text) = []
third_active proxy is (ok onchain) =
    if not (onchain == proxy) && not (onchain == is) then (onchain, "TEE record") ∷ [] else []

unfoldable pub active_calls : ℕ → ℕ → Result String ℕ → List (ℕ × String)
active_calls proxy is onchain =
    (proxy, "proxy")
    ∷ ((if is == proxy then [] else (is, "InstructionSender") ∷ [])
        ++ third_active proxy is onchain)

-- The entries of the map `registeredSenders`; its keys are pointers, so equal ids have two of them.
abbrev pub sender_entries : ℕ → ℕ → Result String ℕ → List (ℕ × String)
sender_entries proxy is (err text) = (proxy, "proxy") ∷ (is, "InstructionSender slot 0") ∷ []
sender_entries proxy is (ok onchain) =
    (onchain, "TEE record") ∷ (proxy, "proxy") ∷ (is, "InstructionSender slot 0") ∷ []

module _ (x : Reads) where
  numbered_lines : ℕ → List (Bytes × String) → List String
  numbered_lines i [] = []
  numbered_lines i ((id, url) ∷ rest) =
      concat ("    " ∷ itoa i ∷ ": " ∷ x.hex id ∷ " " ∷ x.quote url ∷ [])
      ∷ numbered_lines (i + 1) rest

  abbrev first_ids : List (Bytes × String) → List Bytes
  first_ids [] = []
  first_ids ((id, url) ∷ rest) = id ∷ first_ids rest

  unfoldable pub list_active : Bytes → ℕ × String → List String
  unfolding numbered_lines
  list_active tee_id (ext, label) = elim (x.get_active_tee_machines ext) [
    | err text ↦ concat ("  [" ∷ label ∷ " ext=" ∷ itoa ext ∷ "] ERROR: " ∷ text ∷ []) ∷ []
    | ok machines ↦
        concat (
          "  ["
          ∷ label
          ∷ " ext="
          ∷ itoa ext
          ∷ "] count="
          ∷ itoa (length machines)
          ∷ " contains-this-TEE="
          ∷ bool_text (contains_tee tee_id (first_ids machines))
          ∷ [])
        ∷ numbered_lines 0 machines
  ]

  list_all : Bytes → List (ℕ × String) → List String
  unfolding list_active
  list_all tee_id [] = []
  list_all tee_id (call ∷ calls) = list_active tee_id call ++ list_all tee_id calls

  unfoldable pub sender_line : ℕ × String → String
  sender_line (ext, label) = elim (x.get_tee_extension_instructions_sender ext) [
    | err text ↦ concat (
        "  ["
        ∷ label
        ∷ " ext="
        ∷ itoa ext
        ∷ "] getTeeExtensionInstructionsSender ERROR: "
        ∷ text
        ∷ [])
    | ok addr ↦ concat ("  [" ∷ label ∷ " ext=" ∷ itoa ext ∷ "] -> " ∷ x.hex addr ∷ [])
  ]

  abbrev or_error : {A : Type 0} → String → Result String A → (A → String) → String
  or_error before (err text) show = concat (before ∷ "ERROR: " ∷ text ∷ [])
  or_error before (ok a) show = show a

  abbrev record_text : TeeRecord → String
  record_text r =
      if eq_bytes r.record_tee_id no_address
      then "  (no record — TEE is not registered)"
      else concat (
          "  teeId="
          ∷ x.hex r.record_tee_id
          ∷ " teeProxyId="
          ∷ x.hex r.record_proxy_id
          ∷ " url="
          ∷ x.quote r.record_url
          ∷ [])

  unfoldable pub machine_lines : Bytes → List String
  machine_lines tee_id =
      or_error "  getTeeMachine " (x.get_tee_machine tee_id) record_text
      ∷ or_error "  getTeeMachineStatus " (x.get_tee_machine_status tee_id)
          (λ s. concat ("  status: " ∷ itoa s ∷ " (" ∷ status_name s ∷ ")" ∷ []))
      ∷ or_error "  getTeeMachineOwner " (x.get_tee_machine_owner tee_id)
          (λ owner. concat ("  owner: " ∷ x.hex owner ∷ []))
      ∷ []

  abbrev on_chain_line : Result String ℕ → String
  on_chain_line (err text) = concat ("  TEE on-chain getExtensionId    ERROR: " ∷ text ∷ [])
  on_chain_line (ok id) = concat ("  TEE on-chain getExtensionId    " ∷ itoa id ∷ [])

  abbrev verdict_lines : ℕ → ℕ → Bytes → Bytes → List String
  verdict_lines proxy is tee_id sender = map (line_text x.hex) (
      verdict x.get_tee_extension_instructions_sender proxy is (x.get_extension_id tee_id)
        (x.get_tee_machine_status tee_id) sender)

  -- What is printed behind the inputs.
  unfoldable pub sections :
      (List (ℕ × String) → List (ℕ × String)) → ℕ → ℕ → Bytes → Bytes → List String
  unfolding machine_lines list_all sender_line unseen active_calls
  sections order proxy is tee_id sender =
      "\n=== Extension IDs (the three things that must agree) ==="
      ∷ concat ("  Proxy /info:                   " ∷ itoa proxy ∷ [])
      ∷ concat ("  InstructionSender._extensionId " ∷ itoa is ∷ [])
      ∷ on_chain_line (x.get_extension_id tee_id)
      ∷ "\n=== TEE machine record ==="
      ∷ (machine_lines tee_id
          ++ ("\n=== Active TEE set membership ==="
              ∷ (list_all tee_id (active_calls proxy is (x.get_extension_id tee_id))
                  ++ ("\n=== InstructionSender registered for the TEE's extension ==="
                      ∷ (map sender_line (
                            unseen [] (order (sender_entries proxy is (x.get_extension_id tee_id))))
                          ++ ("\n=== Verdict ===" ∷ verdict_lines proxy is tee_id sender))))))

  abbrev before : {A : Type 0} → String → Result String A → Result String A
  before text = map_err (λ t. concat (text ∷ t ∷ []))

  abbrev sender_given : String → Result String (Unit {0})
  sender_given text =
      if str_eq text ""
      then err "ERROR: --instructionSender required (or set INSTRUCTION_SENDER env)"
      else ok tt

  -- `main`, from the text of the instruction sender, the manager's address that DefaultSupport gives, and the
  -- proxy's info; an error is the line on standard error.
  unfoldable pub check_tee_state :
      Identities
      → (String → Bytes)
      → (List (ℕ × String) → List (ℕ × String))
      → String
      → String
      → String
      → Result String Bytes
      → Result String TeeInfo
      → Result String (List String)
  unfolding sections
  check_tee_state ids hex_to_address order chain_url proxy_url sender_text support proxy_info = do
    sender_given sender_text
    manager ← before "support init: " support
    info ← before "proxy /info: " proxy_info
    (tee_id, _) ← before "derive teeID: " (tee_proxy_id ids info)
    let sender = hex_to_address sender_text
    slot0 ← before "read InstructionSender slot 0: " (x.storage_at sender)
    ok (
        "=== Inputs ==="
        ∷ concat ("  Chain RPC:           " ∷ chain_url ∷ [])
        ∷ concat ("  Proxy:               " ∷ proxy_url ∷ [])
        ∷ concat ("  FlareTeeManager:     " ∷ x.hex manager ∷ [])
        ∷ concat ("  InstructionSender:   " ∷ x.hex sender ∷ [])
        ∷ concat ("  TEE ID (from proxy): " ∷ x.hex tee_id ∷ [])
        ∷ sections order (set_bytes info.extension_id) (set_bytes slot0) tee_id sender)
