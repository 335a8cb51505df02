-- ===== src/Validate/Deploy.antt =====
-- tee/go/tools/pkg/validate/checks.go: RegisterDeployChecks and what it calls. The two loops over the
-- address map run in whatever orders Go picks, so each is given the order of its run.
pub mod Verdict
use cipher_sign.Prelude.{
  ℕ, zero, ◌+◌, ◌-◌, ◌/◌, true, not, ◌||◌, List, [], ◌∷◌, ◌++◌, Option, none, some, if◌then◌else◌,
  ok, err,
}
use cipher_sign.Prelude.Text.{String, str_eq, concat, itoa, contains}
use cipher_sign.Validate.Report.{pass, warn, fail, CheckResult, Report, add_all}
use cipher_sign.Validate.EnvFile.{check_extension_env_format}
use cipher_sign.Validate.World.{
  World, Eth, Client, address_not_zero, address_has_code, key_has_funds, min_deploy_balance,
}

unfoldable pub check_deployer_key_source : World → CheckResult
check_deployer_key_source w =
    let local_mode = w.getenv "LOCAL_MODE" in
    if not (str_eq (w.getenv "DEPLOYMENT_PRIVATE_KEY") "")
    then record {
      step = "deploy";
      id = "D5";
      name = "deployer key source";
      status = pass;
      message = "DEPLOYMENT_PRIVATE_KEY is set";
      fix = "";
    }
    else if str_eq local_mode "true" || str_eq local_mode ""
    then record {
      step = "deploy";
      id = "D5";
      name = "deployer key source";
      status = pass;
      message = "using Hardhat dev key (LOCAL_MODE)";
      fix = "";
    }
    else record {
      step = "deploy";
      id = "D5";
      name = "deployer key source";
      status = warn;
      message =
          "DEPLOYMENT_PRIVATE_KEY not set — using Hardhat dev key which has no funds on Coston2";
      fix = "Set DEPLOYMENT_PRIVATE_KEY in .env to a funded account on the target network";
    }

unfoldable pub chain_name : ℕ → String
chain_name id =
    let text = itoa id in
    if str_eq text "31337"
    then "Hardhat/Anvil (local devnet)"
    else if str_eq text "114"
    then "Coston2 (testnet)"
    else if str_eq text "14"
    then "Flare (mainnet)"
    else "unknown network"

module _ (e : Eth) where
  -- D3, for one entry of the map.
  unfoldable pub zero_check : String → e.Address → CheckResult
  zero_check label addr = elim (address_not_zero e addr label) [
    | err text ↦ record {
      step = "deploy";
      id = "D3";
      name = concat (label ∷ " address not zero" ∷ []);
      status = fail;
      message = text;
      fix = "Re-run the deploy script or check deployed-addresses.json";
    }
    | ok _ ↦ record {
      step = "deploy";
      id = "D3";
      name = concat (label ∷ " address not zero" ∷ []);
      status = pass;
      message = e.hex addr;
      fix = "";
    }
  ]

  -- The map `zeroAddrs` after the first loop.
  unfoldable pub zero_addrs : List (String × e.Address) → List String
  zero_addrs [] = []
  zero_addrs ((label, addr) ∷ rest) =
      let later = zero_addrs rest in
      elim (address_not_zero e addr label) [ err _ ↦ label ∷ later | ok _ ↦ later ]

  unfoldable pub zero_checks : List (String × e.Address) → List CheckResult
  unfolding zero_check
  zero_checks [] = []
  zero_checks ((label, addr) ∷ rest) = zero_check label addr ∷ zero_checks rest

  unfoldable pub code_check : Option (Client e) → String → e.Address → CheckResult
  code_check client label addr = elim (address_has_code e client addr label) [
    | err text ↦ record {
      step = "deploy";
      id = "D1";
      name = concat (label ∷ " has deployed code" ∷ []);
      status = fail;
      message = text;
      fix = "Deploy contracts or check CHAIN_URL / deployed-addresses.json";
    }
    | ok _ ↦ record {
      step = "deploy";
      id = "D1";
      name = concat (label ∷ " has deployed code" ∷ []);
      status = pass;
      message = concat ("code found at " ∷ e.hex addr ∷ []);
      fix = "";
    }
  ]

  unfoldable pub code_checks :
      Option (Client e) → List String → List (String × e.Address) → List CheckResult
  unfolding code_check
  code_checks client zeros [] = []
  code_checks client zeros ((label, addr) ∷ rest) =
      let later = code_checks client zeros rest in
      if contains zeros label then later else code_check client label addr ∷ later

  unfoldable pub funds_check : Option (Client e) → Option e.PrivateKey → List CheckResult
  funds_check none key = []
  funds_check (some client) none = []
  funds_check (some client) (some key) =
      elim (key_has_funds e (some client) key min_deploy_balance) [
        | err text ↦
            record {
              step = "deploy";
              id = "D5";
              name = "deployer has sufficient funds";
              status = fail;
              message = text;
              fix = "Fund the deployer account before deploying";
            }
            ∷ []
        | ok _ ↦
            record {
              step = "deploy";
              id = "D5";
              name = "deployer has sufficient funds";
              status = pass;
              message = "balance above minimum threshold";
              fix = "";
            }
            ∷ []
      ]

  unfoldable pub check_chain_id : Client e → CheckResult
  check_chain_id client = elim client.chain_id [
    | err text ↦ record {
      step = "deploy";
      id = "D6";
      name = "chain ID";
      status = fail;
      message = concat ("failed to get chain ID: " ∷ text ∷ []);
      fix = "Check CHAIN_URL";
    }
    | ok id ↦ record {
      step = "deploy";
      id = "D6";
      name = "chain ID";
      status = pass;
      message = concat ("chain ID " ∷ itoa id ∷ " (" ∷ chain_name id ∷ ")" ∷ []);
      fix = "";
    }
  ]

  unfoldable pub chain_checks : Option (Client e) → List CheckResult
  chain_checks none = []
  chain_checks (some client) = check_chain_id client ∷ []

  unfoldable pub env_checks : World → String → List CheckResult
  env_checks w path =
      if str_eq path "" then [] else check_extension_env_format w.quote path (w.open_file path)

  -- `first` and `second` enumerate the address map, each in the order of one loop.
  unfoldable pub register_deploy_checks :
      World
      → Option (Client e)
      → Option e.PrivateKey
      → List (String × e.Address)
      → List (String × e.Address)
      → String
      → Report
      → Report
  register_deploy_checks w client key first second path r =
      add_all
        (zero_checks first
          ++ (code_checks client (zero_addrs first) second
              ++ (check_deployer_key_source w
                  ∷ (funds_check client key ++ (chain_checks client ++ env_checks w path)))))
        r
