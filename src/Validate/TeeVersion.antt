-- ===== src/Validate/TeeVersion.antt =====
-- tee/go/tools/pkg/validate/checks.go: RegisterTeeVersionChecks.
use cipher_sign.Prelude.{not, ◌&&◌, [], ◌∷◌, if◌then◌else◌, ok, err}
use cipher_sign.Prelude.Text.{String, str_eq, concat}
use cipher_sign.Validate.Report.{pass, warn, fail, skip, CheckResult, Report, add_all}
use cipher_sign.Validate.EnvFile.{extension_id_regex, parse_extension_env}
use cipher_sign.Validate.World.{World, reachable}

-- V2.
unfoldable pub v2 : World → CheckResult
v2 w =
    let local_mode = w.getenv "LOCAL_MODE" in
    if not (str_eq (w.getenv "EXTENSION_OWNER_KEY") "")
    then record {
      step = "tee-version";
      id = "V2";
      name = "extension owner key";
      status = pass;
      message = "EXTENSION_OWNER_KEY is configured";
      fix = "";
    }
    else if not (str_eq (w.getenv "DEPLOYMENT_PRIVATE_KEY") "")
    then record {
      step = "tee-version";
      id = "V2";
      name = "extension owner key";
      status = pass;
      message = "using DEPLOYMENT_PRIVATE_KEY (EXTENSION_OWNER_KEY not set)";
      fix = "";
    }
    else if not (str_eq local_mode "true") && not (str_eq local_mode "")
    then record {
      step = "tee-version";
      id = "V2";
      name = "extension owner key";
      status = warn;
      message =
          "neither EXTENSION_OWNER_KEY nor DEPLOYMENT_PRIVATE_KEY set — AddTeeVersion will use dev key which isn't the extension owner on Coston2";
      fix = "Set EXTENSION_OWNER_KEY or DEPLOYMENT_PRIVATE_KEY in .env";
    }
    else record {
      step = "tee-version";
      id = "V2";
      name = "extension owner key";
      status = pass;
      message = "using dev key (local mode)";
      fix = "";
    }

-- V4: a missing file is told from one without an id.
unfoldable pub v4 : World → String → CheckResult
v4 w path =
    if str_eq path ""
    then record {
      step = "tee-version";
      id = "V4";
      name = "EXTENSION_ID valid";
      status = skip;
      message = "no --config provided";
      fix = "";
    }
    else elim (parse_extension_env (w.open_file path)) [
      | err text ↦ record {
        step = "tee-version";
        id = "V4";
        name = "EXTENSION_ID valid";
        status = fail;
        message = concat ("failed to parse extension.env: " ∷ text ∷ []);
        fix = "";
      }
      | ok (ext_id, _) ↦
          if str_eq ext_id ""
          then if w.not_exist path
            then record {
              step = "tee-version";
              id = "V4";
              name = "EXTENSION_ID valid";
              status = skip;
              message = "extension.env not found — run pre-build.sh first";
              fix = "";
            }
            else record {
              step = "tee-version";
              id = "V4";
              name = "EXTENSION_ID valid";
              status = fail;
              message = "EXTENSION_ID not set";
              fix = "Delete config/extension.env and re-run scripts/pre-build.sh";
            }
          else if not (extension_id_regex ext_id)
          then record {
            step = "tee-version";
            id = "V4";
            name = "EXTENSION_ID valid";
            status = fail;
            message = "EXTENSION_ID malformed";
            fix = "Delete config/extension.env and re-run scripts/pre-build.sh";
          }
          else record {
            step = "tee-version";
            id = "V4";
            name = "EXTENSION_ID valid";
            status = pass;
            message = ext_id;
            fix = "";
          }
    ]

-- V6.
unfoldable pub v6 : World → CheckResult
v6 w =
    let url = w.getenv "EXT_PROXY_URL" in
    if str_eq url ""
    then record {
      step = "tee-version";
      id = "V6";
      name = "proxy reachable";
      status = skip;
      message = "EXT_PROXY_URL not set — allow-tee-version uses -p flag";
      fix = "";
    }
    else if reachable w url
    then record {
      step = "tee-version";
      id = "V6";
      name = "proxy reachable";
      status = pass;
      message = concat ("proxy reachable at " ∷ url ∷ []);
      fix = "";
    }
    else record {
      step = "tee-version";
      id = "V6";
      name = "proxy reachable";
      status = warn;
      message = concat ("proxy not reachable at " ∷ url ∷ " — start services first" ∷ []);
      fix = "Start the proxy or check EXT_PROXY_URL";
    }

unfoldable pub register_tee_version_checks : World → String → Report → Report
register_tee_version_checks w path r = add_all (v2 w ∷ v4 w path ∷ v6 w ∷ []) r
