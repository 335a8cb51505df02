-- ===== src/Commands/VerifyDeploy.antt =====
-- tee/go/tools/cmd/verify-deploy/main.go. What DefaultSupport gives is the record Ready or the text of its
-- error; the exit code stands for the end of the process.
pub mod Steps
use cipher_sign.Prelude.{ℕ, ◌-◌, Bool, List, [], ◌∷◌, some, if◌then◌else◌, Result, ok, err}
use cipher_sign.Prelude.Text.{String, str_eq, concat, contains, trim_space}
use cipher_sign.Fcc.Governance.{split_commas}
use cipher_sign.Validate.Report.{CheckResult, Report, JsonReport, has_failures, fprint, fprint_json}
use cipher_sign.Validate.World.{World, Eth, Client, Registry, Allowlist}
use cipher_sign.Validate.Deploy.{register_deploy_checks}
use cipher_sign.Validate.Registration.{register_registration_checks}
use cipher_sign.Validate.Services.{register_services_checks}
use cipher_sign.Validate.TeeVersion.{register_tee_version_checks}
use cipher_sign.Validate.TeeMachine.{register_tee_machine_checks}
use cipher_sign.Validate.TestReady.{register_test_checks}

pub record Ready (e : Eth) : Type 0 where
  pub chain_client : Client e
  pub prv : e.PrivateKey
  pub registry : Registry e
  pub allowlist : Allowlist e
  pub flare_tee_manager : e.Address

-- Where the process ends before the report, or the report.
pub data Ended : Type 0 where
  no_support unknown_step : String → Ended
  reported : Report → Ended

abbrev pub no_results : Report
no_results = record { results = [] }

-- The ids that --checks names.
unfoldable pub allowed_ids : List String → List String
allowed_ids [] = []
allowed_ids (id ∷ ids) =
    let rest = allowed_ids ids in if str_eq (trim_space id) "" then rest else trim_space id ∷ rest

unfoldable pub kept : List String → List CheckResult → List CheckResult
kept allowed [] = []
kept allowed (x ∷ xs) =
    let rest = kept allowed xs in if contains allowed x.id then x ∷ rest else rest

-- The results that --checks leaves.
unfoldable pub filter_checks : String → Report → Report
unfolding allowed_ids kept
filter_checks checks r =
    if str_eq checks ""
    then r
    else record { results = kept (allowed_ids (split_commas checks)) r.results }

abbrev pub filtered : String → Ended → Ended
filtered checks (no_support text) = no_support text
filtered checks (unknown_step step) = unknown_step step
filtered checks (reported r) = reported (filter_checks checks r)

unfoldable pub exit_code : Ended → ℕ
exit_code (no_support text) = 1
exit_code (unknown_step step) = 1
exit_code (reported r) = if has_failures r then 1 else 0

-- What is printed; the first hint lines of an error have the flags of the two paths.
pub data Printed : Type 0 where
  error_lines : List String → Printed
  json_report : JsonReport → Printed
  report_lines : List String → Printed

unfoldable pub print : (String → String) → String → String → Bool → Ended → Printed
print quote addresses_file chain_url json_out (no_support text) = error_lines (
    concat ("Error initializing support: " ∷ text ∷ "\n" ∷ [])
    ∷ "\nHints:\n"
    ∷ concat ("  - Check that the addresses file exists: " ∷ addresses_file ∷ "\n" ∷ [])
    ∷ concat ("  - Check that the chain node is running: " ∷ chain_url ∷ "\n" ∷ [])
    ∷ "  - If using a custom key, ensure DEPLOYMENT_PRIVATE_KEY is set in .env\n"
    ∷ [])
print quote addresses_file chain_url json_out (unknown_step step) = error_lines (
    concat ("Unknown step: " ∷ quote step ∷ "\n" ∷ [])
    ∷ "Valid steps: deploy, register, services, tee-version, tee-machine, test, all\n"
    ∷ [])
print quote addresses_file chain_url json_out (reported r) =
    if json_out then json_report (fprint_json r) else report_lines (fprint r)

module _ (e : Eth) (w : World) where
  -- The address map has one entry, so both loops over it have one order.
  abbrev pub addresses_of : Ready e → List (String × e.Address)
  addresses_of s = ("FlareTeeManager", s.flare_tee_manager) ∷ []

  unfoldable pub deploy_group : Ready e → String → Report → Report
  deploy_group s path =
      register_deploy_checks e w (some s.chain_client) (some s.prv) (addresses_of s)
        (addresses_of s) path

  unfoldable pub register_group : Ready e → String → Report → Report
  register_group s path =
      register_registration_checks e w (some s.chain_client) (some s.prv) (some s.registry)
        (some s.allowlist) path

  unfoldable pub all_groups : Ready e → String → Report → Report
  all_groups s path r = register_test_checks w path (
      register_tee_machine_checks w path (
        register_tee_version_checks w path
          (register_services_checks w path (register_group s path (deploy_group s path r)))))

  abbrev pub with_support : Result String (Ready e) → (Ready e → Report) → Ended
  with_support (err text) f = no_support text
  with_support (ok s) f = reported (f s)

  -- The switch over the step.
  unfoldable pub check_step : Result String (Ready e) → String → String → Ended
  unfolding all_groups
  check_step support step path =
      if str_eq step "deploy"
      then with_support support (λ s. deploy_group s path no_results)
      else if str_eq step "register"
      then with_support support (λ s. register_group s path no_results)
      else if str_eq step "all"
      then with_support support (λ s. all_groups s path no_results)
      else if str_eq step "services"
      then reported (register_services_checks w path no_results)
      else if str_eq step "tee-version"
      then reported (register_tee_version_checks w path no_results)
      else if str_eq step "tee-machine"
      then reported (register_tee_machine_checks w path no_results)
      else if str_eq step "test"
      then reported (register_test_checks w path no_results)
      else unknown_step step

  unfoldable pub verify_deploy : Result String (Ready e) → String → String → String → Ended
  verify_deploy support step path checks = filtered checks (check_step support step path)
