-- ===== src/Commands/AuditDeploy/Printed.antt =====
-- tee/go/tools/cmd/audit-deploy/main.go: the lines that the command prints. What the node and the facets
-- show is the record Audited.
pub mod Inverse
use cipher_sign.Prelude.{
  ℕ, ◌+◌, ◌-◌, ◌/◌, List, [], ◌∷◌, ◌++◌, map, Option, none, some, Bytes, length, replicate,
  eq_bytes, ◌==◌, if◌then◌else◌, Result, ok, err, ◌>>=◌, ◌>>◌, map_err,
}
use cipher_sign.Prelude.Text.{String, concat, itoa, trim_space, hex_text}
use cipher_sign.Base.Bytes32.{trim_zeros}
use cipher_sign.Support.Addresses.{Addresses}
use cipher_sign.Commands.AuditDeploy.{
  address_status, Replayed, load_failed, bad_version, pack_failed, would_succeed, short_data,
  reason_string, reverts_with, unknown_error,
}

pub record Audited : Type 0 where
  pub chain_id : Result String ℕ
  -- 0 where it cannot be told.
  pub block_number : ℕ
  pub code_at : Bytes → Result String Bytes
  -- `NewExtensionManager`, its error.
  pub bind_manager : Result String (Unit {0})
  pub get_system_supported_platforms : Result String (List Bytes)
  pub next_public_extension_id : Result String ℕ
  pub get_extension_owner : ℕ → Result String Bytes
  pub get_supported_code_hashes : ℕ → Result String (List Bytes)
  pub get_supported_key_types : ℕ → Result String (List Bytes)
  -- `Address.Hex`, `Hash.Hex`, the text of some bytes, and `%q` of a text.
  pub address_hex : Bytes → String
  pub hash_hex : Bytes → String
  pub text_of : Bytes → String
  pub quote : String → String

-- `%-25s` of a name that is shorter.
abbrev pub padded : String → ℕ → String
padded name spaces = concat (name ∷ concat (replicate spaces " ") ∷ [])

module _ (x : Audited) where
  unfoldable pub bytes32_to_string : Bytes → String
  bytes32_to_string b = trim_space (x.text_of (trim_zeros b))

  unfoldable pub address_line : String → Bytes → String
  address_line name a =
      concat ("  " ∷ name ∷ " " ∷ x.address_hex a ∷ "   " ∷ address_status a (x.code_at a) ∷ [])

  unfoldable pub named_line : Bytes → String
  unfolding bytes32_to_string
  named_line b = concat ("    " ∷ x.hash_hex b ∷ "   " ∷ x.quote (bytes32_to_string b) ∷ [])

  unfoldable pub platform_lines : List String
  unfolding named_line
  platform_lines = elim x.get_system_supported_platforms [
    | err text ↦ concat ("  getSystemSupportedPlatforms ERROR: " ∷ text ∷ []) ∷ []
    | ok plats ↦
        concat ("  systemSupportedPlatforms (" ∷ itoa (length plats) ∷ "):" ∷ [])
        ∷ map named_line plats
  ]

  abbrev counter_lines : Result String ℕ → List String
  counter_lines (err text) = []
  counter_lines (ok cnt) = concat ("  nextPublicExtensionId: " ∷ itoa cnt ∷ []) ∷ []

  abbrev owner_line : Result String Bytes → String
  owner_line (err text) = concat ("  getExtensionOwner ERROR: " ∷ text ∷ [])
  owner_line (ok owner) = concat ("  owner: " ∷ x.address_hex owner ∷ [])

  abbrev code_hash_lines : Result String (List Bytes) → List String
  code_hash_lines (err text) = concat ("  getSupportedCodeHashes ERROR: " ∷ text ∷ []) ∷ []
  code_hash_lines (ok hashes) =
      concat ("  supportedCodeHashes (" ∷ itoa (length hashes) ∷ "):" ∷ [])
      ∷ map (λ h. concat ("    " ∷ x.hash_hex h ∷ [])) hashes

  abbrev key_type_lines : Result String (List Bytes) → List String
  key_type_lines (err text) = []
  key_type_lines (ok types) =
      concat ("  supportedKeyTypes (" ∷ itoa (length types) ∷ "):" ∷ []) ∷ map named_line types

  -- The section of -ext, which is none where it is below 0.
  unfoldable pub extension_lines : Option ℕ → List String
  unfolding named_line
  extension_lines none = []
  extension_lines (some id) =
      concat ("\n=== Extension id=" ∷ itoa id ∷ " ===" ∷ [])
      ∷ owner_line (x.get_extension_owner id)
      ∷ (code_hash_lines (x.get_supported_code_hashes id)
          ++ key_type_lines (x.get_supported_key_types id))

  abbrev pub arguments_text : String → String → Result String String → Bytes → String
  arguments_text source name (ok arguments) data_found =
      concat ("  revert -> " ∷ source ∷ "." ∷ name ∷ arguments ∷ [])
  arguments_text source name (err text) data_found = concat (
      "  revert -> "
      ∷ source
      ∷ "."
      ∷ name
      ∷ " (unpack failed: "
      ∷ text
      ∷ ") data=0x"
      ∷ hex_text data_found
      ∷ [])

  unfoldable pub replayed_text : Replayed → String
  replayed_text (load_failed text) = concat ("  load ABI: " ∷ text ∷ [])
  replayed_text (bad_version text) = concat ("  version: " ∷ text ∷ [])
  replayed_text (pack_failed text) = concat ("  pack: " ∷ text ∷ [])
  replayed_text would_succeed = "  eth_call succeeded — tx-time-only revert (gas/state race?)"
  replayed_text (short_data text) = concat ("  no/short revert data: " ∷ text ∷ [])
  replayed_text (reason_string reason) = concat ("  revert reason (string): " ∷ x.quote reason ∷ [])
  replayed_text (reverts_with source name arguments data_found) =
      arguments_text source name arguments data_found
  replayed_text (unknown_error selector data_found) = concat (
      "  revert with unknown selector 0x"
      ∷ hex_text selector
      ∷ " (full: 0x"
      ∷ hex_text data_found
      ∷ ")"
      ∷ [])

  -- The replay stands at the end where its three flags are given.
  unfoldable pub replay_lines : Bytes → Bytes → Option ℕ → (ℕ → Replayed) → List String
  unfolding replayed_text
  replay_lines [] platform ext replay = []
  replay_lines (b ∷ hash) [] ext replay = []
  replay_lines (b ∷ hash) (q ∷ platform) none replay = []
  replay_lines (b ∷ hash) (q ∷ platform) (some id) replay =
      "\n=== addTeeVersion eth_call replay (decoding revert) ===" ∷ replayed_text (replay id) ∷ []

  unfoldable pub manager_lines : Bytes → Bytes → Bytes → Option ℕ → (ℕ → Replayed) → List String
  unfolding platform_lines extension_lines replay_lines
  manager_lines manager code_hash platform ext replay = elim x.bind_manager [
    | err text ↦ concat ("bind ExtensionManager: " ∷ text ∷ []) ∷ []
    | ok _ ↦
        concat
          ("\n=== ExtensionManager facet @ FlareTeeManager " ∷ x.address_hex manager ∷ " ===" ∷ [])
        ∷ (platform_lines
            ++ (counter_lines x.next_public_extension_id
                ++ (extension_lines ext ++ replay_lines code_hash platform ext replay)))
  ]

  -- `main`, from the addresses file, the client and the flags -codeHash, -platform and -ext, with the
  -- replay of the version for an extension; an error ends it at once.
  unfoldable pub audit :
      Result String Addresses
      → Result String (Unit {0})
      → Bytes
      → Bytes
      → Option ℕ
      → (ℕ → Replayed)
      → Result String (List String)
  unfolding address_line manager_lines
  audit addresses dialled code_hash platform ext replay = do
    addr ← map_err (λ text. concat ("parse addresses: " ∷ text ∷ [])) addresses
    map_err (λ text. concat ("dial: " ∷ text ∷ [])) dialled
    id ← map_err (λ text. concat ("chainId: " ∷ text ∷ [])) x.chain_id
    ok (
        concat ("Chain ID: " ∷ itoa id ∷ "   block: " ∷ itoa x.block_number ∷ [])
        ∷ address_line (padded "FlareTeeManager" 10) addr.flare_tee_manager
        ∷ address_line (padded "FlareSystemsManager" 6) addr.flare_system_manager
        ∷ address_line (padded "Fdc2Hub" 18) addr.fdc2_hub
        ∷ (if eq_bytes addr.flare_tee_manager (replicate 20 0)
            then []
            else manager_lines addr.flare_tee_manager code_hash platform ext replay))
