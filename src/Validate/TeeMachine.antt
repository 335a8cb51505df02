-- ===== src/Validate/TeeMachine.antt =====
-- tee/go/tools/pkg/validate/checks.go: RegisterTeeMachineChecks, which reads no file.
use cipher_sign.Prelude.{◌&&◌, [], ◌∷◌, if◌then◌else◌}
use cipher_sign.Prelude.Text.{String, str_eq, concat}
use cipher_sign.Validate.Report.{pass, warn, skip, CheckResult, Report, add_all}
use cipher_sign.Validate.World.{World, reachable}

-- T1.
unfoldable pub t1 : World → CheckResult
t1 w =
    let simulated = w.getenv "SIMULATED_TEE" in
    if str_eq simulated "true" && str_eq (w.getenv "LOCAL_MODE") "false"
    then record {
      step = "tee-machine";
      id = "T1";
      name = "SIMULATED_TEE mode";
      status = warn;
      message =
          "SIMULATED_TEE=true on non-local deployment — machine will be registered with test attestation values. Set SIMULATED_TEE=false for real TEE hardware";
      fix = "Set SIMULATED_TEE=false in .env when deploying to a real GCP TEE";
    }
    else if str_eq simulated "true"
    then record {
      step = "tee-machine";
      id = "T1";
      name = "SIMULATED_TEE mode";
      status = pass;
      message = "simulated TEE mode (local)";
      fix = "";
    }
    else record {
      step = "tee-machine";
      id = "T1";
      name = "SIMULATED_TEE mode";
      status = pass;
      message = "real attestation mode";
      fix = "";
    }

-- T5.
unfoldable pub t5 : World → CheckResult
t5 w =
    let url = w.getenv "NORMAL_PROXY_URL" in
    if str_eq url ""
    then record {
      step = "tee-machine";
      id = "T5";
      name = "NORMAL_PROXY_URL reachable";
      status = skip;
      message = "NORMAL_PROXY_URL not set";
      fix = "";
    }
    else if reachable w url
    then record {
      step = "tee-machine";
      id = "T5";
      name = "NORMAL_PROXY_URL reachable";
      status = pass;
      message = concat ("normal proxy reachable at " ∷ url ∷ []);
      fix = "";
    }
    else record {
      step = "tee-machine";
      id = "T5";
      name = "NORMAL_PROXY_URL reachable";
      status = warn;
      message =
          concat (
            "normal proxy not reachable at " ∷ url ∷ " — required for FTDC availability check"
            ∷ []);
      fix = "Ensure the normal/FTDC proxy is running and NORMAL_PROXY_URL is correct in .env";
    }

-- T10.
unfoldable pub t10 : World → CheckResult
t10 w =
    let url = w.getenv "EXT_PROXY_URL" in
    if str_eq url ""
    then record {
      step = "tee-machine";
      id = "T10";
      name = "host URL reachable";
      status = skip;
      message = "EXT_PROXY_URL not set";
      fix = "";
    }
    else if reachable w url
    then record {
      step = "tee-machine";
      id = "T10";
      name = "host URL reachable";
      status = pass;
      message = concat ("host URL reachable at " ∷ url ∷ []);
      fix = "";
    }
    else record {
      step = "tee-machine";
      id = "T10";
      name = "host URL reachable";
      status = warn;
      message = concat (
          "host URL not reachable at " ∷ url
          ∷ " — machine will be registered with unreachable host. Data providers can't relay instructions"
          ∷ []);
      fix = "Ensure the host is accessible and EXT_PROXY_URL or -h flag points to the right URL";
    }

unfoldable pub register_tee_machine_checks : World → String → Report → Report
register_tee_machine_checks w path r = add_all (t1 w ∷ t5 w ∷ t10 w ∷ []) r
