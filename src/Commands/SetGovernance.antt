-- ===== src/Commands/SetGovernance.antt =====
-- tee/go/tools/cmd/set-governance/main.go. What DefaultSupport gives is its key or the text of its error;
-- HexToAddress and ParseUint are arguments.
pub mod Defaults
use cipher_sign.Prelude.{ℕ, Bytes, codes, take, eq_bytes, if◌then◌else◌, Result, ok}
use cipher_sign.Prelude.Text.{String, str_eq, drop_2}
use cipher_sign.Prelude.Runs.{Run, ◌>>=◌, ◌>>◌, lift}
use cipher_sign.Prelude.Text.{trim_space}
use cipher_sign.App.Int64.{set_bytes}
use cipher_sign.Chain.{Chain, Net, aside}
use cipher_sign.Fcc.Governance.{Governed, set_tee_governance, parse_signers, parse_threshold}
use cipher_sign.Fcc.TeeCalls.{tee_info}
use cipher_sign.Commands.Tools.{Tools}

-- `strings.TrimPrefix`, of a prefix of two characters.
unfoldable pub trim_prefix : String → String → String
trim_prefix s prefix = if eq_bytes (take 2 (codes s)) (codes prefix) then drop_2 s else s

module _ (c : Chain) (x : Tools c) (g : Governed c.World) (hex_to_address : String → Bytes)
    (parse_uint : String → Result String ℕ) where
  unfoldable pub governance_key : c.PrivateKey → Result String c.PrivateKey
  unfolding trim_prefix
  governance_key prv =
      let text = x.getenv "EXTENSION_OWNER_KEY" in
      if str_eq text "" then ok prv else x.hex_to_ecdsa (trim_prefix (trim_prefix text "0x") "0X")

  -- INITIAL_OWNER, or the address of the key.
  unfoldable pub default_signer : c.PrivateKey → Bytes
  default_signer key =
      let owner = trim_space (x.getenv "INITIAL_OWNER") in
      if str_eq owner "" then c.pubkey_to_address key else hex_to_address owner

  unfoldable pub set_governance :
      Result String c.PrivateKey → String → Run (Net c) String (Unit {0})
  unfolding governance_key default_signer
  set_governance support url = do
    prv ← lift support
    key ← lift (governance_key prv)
    info ← aside c (tee_info x.node url)
    set_tee_governance c g key (set_bytes info.extension_id)
        (parse_signers hex_to_address (x.getenv "GOVERNANCE_SIGNERS") (default_signer key))
        (parse_threshold parse_uint (x.getenv "GOVERNANCE_THRESHOLD"))
