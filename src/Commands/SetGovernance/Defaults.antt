-- ===== src/Commands/SetGovernance/Defaults.antt =====
-- tee/go/tools/cmd/set-governance/main.go: the governance of an owner who configures nothing.
use cipher_sign.Prelude.{ℕ, [], ◌∷◌, Bytes, Result, ok, err, ◌≡◌, sym, ap, ◌∙◌, arith}
use cipher_sign.Prelude.Text.{String}
use cipher_sign.Prelude.Runs.{from_ok, from_lift_ok}
use cipher_sign.App.Int64.{set_bytes}
use mathlib.Core.Path.{subst}
use cipher_sign.Chain.{Chain, Net, aside}
use cipher_sign.Chain.Sent.{Keeps-aside}
use cipher_sign.Fcc.Governance.{Governed, set_tee_governance}
use cipher_sign.Fcc.Governance.Once.{set_tee_governance-accepted, Governs, govern-Governs}
use cipher_sign.Fcc.Governance.Settings.{settings_accepted}
use cipher_sign.Fcc.TeeCalls.{tee_info}
use cipher_sign.Fcc.Transactions.{TeeInfo}
use cipher_sign.Commands.Tools.{Tools}
use cipher_sign.Commands.SetGovernance.{governance_key, default_signer, set_governance}

module _ (c : Chain) (x : Tools c) (g : Governed c.World) (hex_to_address : String → Bytes)
    (parse_uint : String → Result String ℕ) where
  pub record Defaulted (support : Result String c.PrivateKey) (url : String) (n n' : Net c)
      : Type 0 where
    pub prv : c.PrivateKey
    pub key : c.PrivateKey
    pub info : TeeInfo
    pub asked : Net c
    pub has_support : support ≡ ok prv
    pub owns : governance_key c x g hex_to_address parse_uint prv ≡ ok key
    pub tells : aside c (tee_info x.node url) n ≡ (asked, ok info)
    pub unsent : asked.sent ≡ n.sent
    pub governs :
        Governs c g key
          (set_bytes info.extension_id)
          (default_signer c x g hex_to_address parse_uint key ∷ [])
          1
          asked
          (n', ok tt)

  -- With no GOVERNANCE_SIGNERS and no GOVERNANCE_THRESHOLD, a run of set-governance that ends well has made
  -- the default signer the only one with the threshold 1: it has sent that governance for the
  -- extension of the TEE once, or nothing if its hash is the latest already.
  pub set_governance-Defaulted :
      (support : Result String c.PrivateKey) (url text : String) (n n' : Net c)
      → x.getenv "GOVERNANCE_SIGNERS" ≡ ""
      → x.getenv "GOVERNANCE_THRESHOLD" ≡ ""
      → parse_uint "" ≡ err text
      → set_governance c x g hex_to_address parse_uint support url n ≡ (n', ok tt)
      → Defaulted support url n n'
  unfolding set_governance
  set_governance-Defaulted support url text n n' signers threshold no_number h =
      from_lift_ok n support _ n' tt h λ prv e1 h1.
        from_lift_ok n (governance_key c x g hex_to_address parse_uint prv) _ n' tt h1 λ key e2 h2.
          from_ok (aside c (tee_info x.node url) n) _ n' tt h2 λ asked info e3 h3.
            let f = default_signer c x g hex_to_address parse_uint key in
            let id = set_bytes info.extension_id in
            let (one, least) =
              (settings_accepted c g key hex_to_address parse_uint "" "" f id asked).1 text
                no_number in
            let run : set_tee_governance c g key id (f ∷ []) 1 asked ≡ (n', ok tt) =
              rw (signers, threshold, one, least) at h3 in
            let accepted =
              set_tee_governance-accepted c g key id (f ∷ []) 1 asked (omega arith) (omega arith)
                (omega arith) in
            record {
              prv = prv;
              key = key;
              info = info;
              asked = asked;
              has_support = e1;
              owns = e2;
              tells = e3;
              unsent = sym (ap (λ z. z.0.sent) e3) ∙ Keeps-aside c n (tee_info x.node url);
              governs =
                  subst (Governs c g key id (f ∷ []) 1 asked) (sym accepted ∙ run)
                    (govern-Governs c g key id (f ∷ []) 1 asked);
            }
