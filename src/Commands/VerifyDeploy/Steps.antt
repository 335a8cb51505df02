-- ===== src/Commands/VerifyDeploy/Steps.antt =====
-- tee/go/tools/cmd/verify-deploy/main.go: the step that runs every group of checks, and the single ones.
use cipher_sign.Prelude.{
  false, ◌&&◌, List, [], ◌∷◌, ◌++◌, ok, Result-cases, Bool-cases, ◌≡◌, ◌↔◌, inl, inr, refl,
}
use cipher_sign.Prelude.Text.{String, str_eq, contains}
use cipher_sign.Fcc.Governance.{split_commas}
use cipher_sign.Validate.EnvFile.{parse_extension_env}
use cipher_sign.Validate.Report.{CheckResult, Report, add_all, has_failures}
use cipher_sign.Validate.Report.Fails.{Clean-append, add_all-results}
use cipher_sign.Validate.World.{World, Eth}
use cipher_sign.Validate.Deploy.{register_deploy_checks}
use cipher_sign.Validate.Registration.{register_registration_checks}
use cipher_sign.Validate.Services.{register_services_checks}
use cipher_sign.Validate.TeeVersion.{register_tee_version_checks}
use cipher_sign.Validate.TeeMachine.{register_tee_machine_checks}
use cipher_sign.Validate.TestReady.{register_test_checks}
use cipher_sign.Commands.VerifyDeploy.{
  Ready, reported, no_results, allowed_ids, kept, filter_checks, filtered, exit_code, deploy_group,
  register_group, all_groups, check_step, verify_deploy,
}

-- A group adds the same results to every report.
abbrev Appends : (Report → Report) → Type 0
Appends g = (r : Report) → (g r).results ≡ r.results ++ (g no_results).results

add_all-Appends : (xs : List CheckResult) → Appends (add_all xs)
add_all-Appends xs r = rw (add_all-results xs r, add_all-results xs no_results) refl

kept-append :
    (ids : List String) (xs ys : List CheckResult)
    → kept ids (xs ++ ys) ≡ kept ids xs ++ kept ids ys
unfolding kept
kept-append ids [] ys = refl
kept-append ids (x ∷ xs) ys =
    rw (kept-append ids xs ys)
      (elim (Bool-cases (contains ids x.id)) [ inl t ↦ rw t refl | inr f ↦ rw f refl ])

-- The run over the report has no failure that --checks leaves.
abbrev Passes : String → Report → Type 0
Passes checks r = has_failures (filter_checks checks r) ≡ false

exit-Passes :
    (checks : String) (r : Report)
    → (exit_code (filtered checks (reported r)) ≡ 0) ↔ Passes checks r
unfolding exit_code
exit-Passes checks r = elim (Bool-cases (has_failures (filter_checks checks r))) [
  | inl t ↦ rw t ((λ h. absurd (cc h)), λ h. absurd (cc h))
  | inr f ↦ rw f ((λ h. refl), λ h. refl)
]

Passes-appended :
    (checks : String) (g : Report → Report) (r : Report)
    → Appends g
    → Passes checks (g r) ↔ (Passes checks r × Passes checks (g no_results))
unfolding filter_checks has_failures
Passes-appended checks g r appends = elim (Bool-cases (str_eq checks "")) [
  | inl t ↦ rw (t, appends r) (Clean-append r.results (g no_results).results)
  | inr f ↦
      let ids = allowed_ids (split_commas checks) in
      rw (f, appends r, kept-append ids r.results (g no_results).results)
        (Clean-append (kept ids r.results) (kept ids (g no_results).results))
]

-- A group behind other groups.
exit-appended :
    (checks : String) (g : Report → Report) (r : Report)
    → Appends g
    → (exit_code (filtered checks (reported (g r))) ≡ 0) ↔ (
        (exit_code (filtered checks (reported r)) ≡ 0)
        × (exit_code (filtered checks (reported (g no_results))) ≡ 0))
exit-appended checks g r appends =
    let (there, back) = exit-Passes checks (g r) in
    let (there1, back1) = exit-Passes checks r in
    let (there2, back2) = exit-Passes checks (g no_results) in
    let (split, join) = Passes-appended checks g r appends in
    (
      λ h. let (p, q) = split (there h) in (back1 p, back2 q),
      λ (p, q). back (join (there1 p, there2 q)),
    )

module _ (e : Eth) (w : World) where
  deploy_group-Appends : (s : Ready e) (path : String) → Appends (deploy_group e w s path)
  unfolding deploy_group register_deploy_checks
  deploy_group-Appends s path = add_all-Appends _

  register_group-Appends : (s : Ready e) (path : String) → Appends (register_group e w s path)
  unfolding register_group register_registration_checks
  register_group-Appends s path r = elim (Bool-cases (str_eq path "")) [
    | inl t ↦ rw (t, register_group, register_registration_checks) (add_all-Appends _ r)
    | inr f ↦ elim (Result-cases (parse_extension_env (w.open_file path))) [
      | inr (text, p) ↦
          rw (f, p, register_group, register_registration_checks) (add_all-Appends _ r)
      | inl ((ext_id, sender), p) ↦ elim (Bool-cases (str_eq ext_id "" && str_eq sender "")) [
        | inl t ↦ rw (f, p, t, register_group, register_registration_checks) (add_all-Appends _ r)
        | inr g ↦ rw (f, p, g, register_group, register_registration_checks) (add_all-Appends _ r)
      ]
    ]
  ]

  services-Appends : (path : String) → Appends (register_services_checks w path)
  unfolding register_services_checks
  services-Appends path = add_all-Appends _

  tee_version-Appends : (path : String) → Appends (register_tee_version_checks w path)
  unfolding register_tee_version_checks
  tee_version-Appends path = add_all-Appends _

  tee_machine-Appends : (path : String) → Appends (register_tee_machine_checks w path)
  unfolding register_tee_machine_checks
  tee_machine-Appends path = add_all-Appends _

  test-Appends : (path : String) → Appends (register_test_checks w path)
  unfolding register_test_checks
  test-Appends path = add_all-Appends _

  -- The process ends with the exit code 0.
  abbrev pub Succeeds : Ready e → String → String → String → Type 0
  Succeeds s path checks step = exit_code (verify_deploy e w (ok s) step path checks) ≡ 0

  -- With a support, the run over all steps ends with the exit code 0 exactly where the run over each
  -- single step does, with the same configuration file and the same filter of check ids.
  pub verify_deploy-all_iff :
      (s : Ready e) (path checks : String)
      → Succeeds s path checks "all" ↔ (
          Succeeds s path checks "deploy"
          × Succeeds s path checks "register"
          × Succeeds s path checks "services"
          × Succeeds s path checks "tee-version"
          × Succeeds s path checks "tee-machine"
          × Succeeds s path checks "test")
  unfolding verify_deploy check_step all_groups
  verify_deploy-all_iff s path checks =
      let r1 = deploy_group e w s path no_results in
      let r2 = register_group e w s path r1 in
      let r3 = register_services_checks w path r2 in
      let r4 = register_tee_version_checks w path r3 in
      let r5 = register_tee_machine_checks w path r4 in
      let (d2, j2) =
        exit-appended checks (register_group e w s path) r1 (register_group-Appends s path) in
      let (d3, j3) =
        exit-appended checks (register_services_checks w path) r2 (services-Appends path) in
      let (d4, j4) =
        exit-appended checks (register_tee_version_checks w path) r3 (tee_version-Appends path) in
      let (d5, j5) =
        exit-appended checks (register_tee_machine_checks w path) r4 (tee_machine-Appends path) in
      let (d6, j6) = exit-appended checks (register_test_checks w path) r5 (test-Appends path) in
      (
        λ h.
            let (h5, p6) = d6 h in
            let (h4, p5) = d5 h5 in
            let (h3, p4) = d4 h4 in
            let (h2, p3) = d3 h3 in let (p1, p2) = d2 h2 in (p1, p2, p3, p4, p5, p6),
        λ (p1, p2, p3, p4, p5, p6). j6 (j5 (j4 (j3 (j2 (p1, p2), p3), p4), p5), p6),
      )
