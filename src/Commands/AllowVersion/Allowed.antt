-- ===== src/Commands/AllowVersion/Allowed.antt =====
-- tee/go/tools/cmd/allow-tee-version/main.go: a run that ends well.
use cipher_sign.Prelude.{ℕ, Bool, true, false, [], ◌∷◌, Bytes, codes, Result, ok, err, ◌≡◌, ◌⊎◌}
use cipher_sign.Prelude.Text.{String}
use cipher_sign.Prelude.Text.{has_text}
use cipher_sign.App.Int64.{set_bytes}
use cipher_sign.Chain.{Chain, Net, Method, aside, add_tee_version}
use cipher_sign.Chain.Sent.{SendsOne}
use cipher_sign.Fcc.TeeCalls.{tee_info}
use cipher_sign.Fcc.Transactions.{TeeInfo, Machines, add_version, string_to_bytes32}
use cipher_sign.Commands.Tools.{Tools}
use cipher_sign.Commands.AllowVersion.{owner_key, supported}

module _ (c : Chain) (x : Tools c) (m : Machines c.World)
    (is_supported : c.World → ℕ → Bytes → Bytes → Result String Bool) where
  -- The call that adds the version, its name padded to 32 bytes.
  abbrev pub Adds : Bytes → TeeInfo → Method → Type 0
  Adds version info y =
      (packed : Bytes) × (string_to_bytes32 m.quote version ≡ ok packed)
      × (y
          ≡ add_tee_version (set_bytes info.extension_id) packed info.code_hash
              (info.platform ∷ []))

  -- The code and the platform are supported and nothing is sent; or they are not, and the version is
  -- added by one transaction, or refused as one that exists.
  abbrev pub Settled : Bytes → c.PrivateKey → TeeInfo → Net c → Net c → Type 0
  Settled version key info n n' =
      ((supported c x m is_supported info n.world ≡ ok true) × (n' ≡ n))
      ⊎ ((supported c x m is_supported info n.world ≡ ok false)
          × (SendsOne c (Adds version info) n n'
              ⊎ ((text : String) × (add_version c m key (set_bytes info.extension_id) info.code_hash
                      info.platform version n
                    ≡ (n', err text))
                  × (has_text (codes text) (codes "VersionAlreadyExists") ≡ true))))

  pub record Allowed (support : Result String c.PrivateKey) (url : String) (version : Bytes)
      (n n' : Net c) : Type 0 where
    pub prv : c.PrivateKey
    pub key : c.PrivateKey
    pub info : TeeInfo
    pub asked : Net c
    pub has_support : support ≡ ok prv
    pub tells : aside c (tee_info x.node url) n ≡ (asked, ok info)
    pub owns : owner_key c x m is_supported prv ≡ ok key
    pub settles : Settled version key info asked n'
