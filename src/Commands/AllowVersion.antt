-- ===== src/Commands/AllowVersion.antt =====
-- tee/go/tools/cmd/allow-tee-version/main.go. What DefaultSupport gives is its key or the text of its
-- error; a call of FatalWithCause ends the command with an error.
pub mod Allowed
use cipher_sign.Prelude.{ℕ, Bool, true, false, Bytes, codes, if◌then◌else◌, Result, ok, err}
use cipher_sign.Prelude.Text.{String, str_eq}
use cipher_sign.Prelude.Runs.{Run, ◌>>=◌, ◌>>◌, lift, view}
use cipher_sign.Prelude.Text.{has_text}
use cipher_sign.App.Int64.{set_bytes}
use cipher_sign.Chain.{Chain, Net, aside}
use cipher_sign.Support.Connect.{without_0x}
use cipher_sign.Fcc.Identity.{tee_proxy_id}
use cipher_sign.Fcc.TeeCalls.{tee_info}
use cipher_sign.Fcc.Transactions.{TeeInfo, Machines, add_version}
use cipher_sign.Commands.Tools.{Tools}

module _ (c : Chain) (x : Tools c) (m : Machines c.World)
    (is_code_hash_platform_supported : c.World → ℕ → Bytes → Bytes → Result String Bool) where
  -- The key of the extension's owner, or the key of the tool.
  unfoldable pub owner_key : c.PrivateKey → Result String c.PrivateKey
  owner_key prv =
      let text = x.getenv "EXTENSION_OWNER_KEY" in
      if str_eq text "" then ok prv else x.hex_to_ecdsa (without_0x text)

  -- An error that says that the version is there already is only logged.
  abbrev pub tolerated : Net c × Result String (Unit {0}) → Net c × Result String (Unit {0})
  tolerated (n, ok u) = (n, ok u)
  tolerated (n, err text) =
      if has_text (codes text) (codes "VersionAlreadyExists") then (n, ok tt) else (n, err text)

  unfoldable pub supported : TeeInfo → c.World → Result String Bool
  supported info w =
      is_code_hash_platform_supported w (set_bytes info.extension_id) info.code_hash info.platform

  unfoldable pub add_unless : Bytes → c.PrivateKey → TeeInfo → Bool → Run (Net c) String (Unit {0})
  add_unless version key info true n = (n, ok tt)
  add_unless version key info false n =
      tolerated
        (add_version c m key (set_bytes info.extension_id) info.code_hash info.platform version n)

  unfoldable pub allow_tee_version :
      Result String c.PrivateKey → String → Bytes → Run (Net c) String (Unit {0})
  unfolding owner_key supported add_unless
  allow_tee_version support url version = do
    prv ← lift support
    info ← aside c (tee_info x.node url)
    key ← lift (owner_key prv)
    _ ← lift (tee_proxy_id x.identities info)
    there ← view (λ n. supported info n.world)
    add_unless version key info there
