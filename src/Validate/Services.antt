-- ===== src/Validate/Services.antt =====
-- tee/go/tools/pkg/validate/checks.go: RegisterServicesChecks.
use cipher_sign.Prelude.{not, ◌&&◌, ◌||◌, [], ◌∷◌, if◌then◌else◌, ok, err}
use cipher_sign.Prelude.Text.{String, str_eq, concat}
use cipher_sign.Validate.Report.{pass, warn, fail, skip, CheckResult, Report, add_all}
use cipher_sign.Validate.EnvFile.{extension_id_regex, parse_extension_env}
use cipher_sign.Validate.World.{World, reachable}

-- S2, on what `parseExtensionEnv` gives; its error is dropped.
unfoldable pub s2 : World → String → CheckResult
s2 w path =
    if str_eq path ""
    then record {
      step = "services";
      id = "S2";
      name = "EXTENSION_ID is set and well-formed";
      status = skip;
      message = "run pre-build.sh first";
      fix = "";
    }
    else elim (parse_extension_env (w.open_file path)) [
      | err _ ↦ record {
        step = "services";
        id = "S2";
        name = "EXTENSION_ID is set and well-formed";
        status = fail;
        message = "EXTENSION_ID is empty or not found in extension.env";
        fix = "Delete config/extension.env and re-run scripts/pre-build.sh";
      }
      | ok (ext_id, _) ↦
          if str_eq ext_id ""
          then record {
            step = "services";
            id = "S2";
            name = "EXTENSION_ID is set and well-formed";
            status = fail;
            message = "EXTENSION_ID is empty or not found in extension.env";
            fix = "Delete config/extension.env and re-run scripts/pre-build.sh";
          }
          else if not (extension_id_regex ext_id)
          then record {
            step = "services";
            id = "S2";
            name = "EXTENSION_ID is set and well-formed";
            status = fail;
            message = concat ("EXTENSION_ID has invalid format: " ∷ w.quote ext_id ∷ []);
            fix = "Delete config/extension.env and re-run scripts/pre-build.sh";
          }
          else record {
            step = "services";
            id = "S2";
            name = "EXTENSION_ID is set and well-formed";
            status = pass;
            message = ext_id;
            fix = "";
          }
    ]

-- S5: a connection to the extension port means that it is taken.
unfoldable pub s5 : World → CheckResult
s5 w =
    let set = w.getenv "EXTENSION_PORT" in
    let port = if str_eq set "" then "7702" else set in
    if w.dial (concat ("localhost:" ∷ port ∷ []))
    then record {
      step = "services";
      id = "S5";
      name = "extension port not in use";
      status = warn;
      message =
          concat ("port " ∷ port ∷ " is already in use — extension server will fail to bind" ∷ []);
      fix = "Stop the process using that port or change EXTENSION_PORT";
    }
    else record {
      step = "services";
      id = "S5";
      name = "extension port not in use";
      status = pass;
      message = "port available";
      fix = "";
    }

-- S7.
unfoldable pub s7 : World → CheckResult
s7 w =
    let ext_port = w.getenv "EXTENSION_PORT" in
    let sign_port = w.getenv "SIGN_PORT" in
    if not (str_eq ext_port "") || not (str_eq sign_port "")
    then record {
      step = "services";
      id = "S7";
      name = "port configuration";
      status = pass;
      message = concat ("EXTENSION_PORT=" ∷ ext_port ∷ ", SIGN_PORT=" ∷ sign_port ∷ []);
      fix = "";
    }
    else record {
      step = "services";
      id = "S7";
      name = "port configuration";
      status = pass;
      message = "using defaults (standalone: 8080/9090, Docker: 7702/7701)";
      fix = "";
    }

-- S9.
unfoldable pub s9 : World → CheckResult
s9 w =
    let url = w.getenv "EXT_PROXY_URL" in
    if str_eq url ""
    then record {
      step = "services";
      id = "S9";
      name = "EXT_PROXY_URL reachable";
      status = skip;
      message = "EXT_PROXY_URL not set";
      fix = "";
    }
    else if reachable w url
    then record {
      step = "services";
      id = "S9";
      name = "EXT_PROXY_URL reachable";
      status = pass;
      message = concat ("proxy reachable at " ∷ url ∷ []);
      fix = "";
    }
    else record {
      step = "services";
      id = "S9";
      name = "EXT_PROXY_URL reachable";
      status = warn;
      message = concat ("proxy not reachable at " ∷ url ∷ " — is the proxy running?" ∷ []);
      fix = "Start the proxy or check EXT_PROXY_URL";
    }

-- S10.
unfoldable pub s10 : World → CheckResult
s10 w =
    let local_mode = w.getenv "LOCAL_MODE" in
    let private_key = w.getenv "PROXY_PRIVATE_KEY" in
    if str_eq local_mode "true" || str_eq local_mode ""
    then record {
      step = "services";
      id = "S10";
      name = "PROXY_PRIVATE_KEY set on non-local";
      status = pass;
      message = "local mode, dev key OK";
      fix = "";
    }
    else if str_eq local_mode "false" && str_eq private_key ""
    then record {
      step = "services";
      id = "S10";
      name = "PROXY_PRIVATE_KEY set on non-local";
      status = warn;
      message = "PROXY_PRIVATE_KEY not set in non-local mode — proxy will use default key";
      fix = "Set PROXY_PRIVATE_KEY in .env for non-local deployments";
    }
    else record {
      step = "services";
      id = "S10";
      name = "PROXY_PRIVATE_KEY set on non-local";
      status = pass;
      message = "PROXY_PRIVATE_KEY is configured";
      fix = "";
    }

unfoldable pub register_services_checks : World → String → Report → Report
register_services_checks w path r = add_all (s2 w path ∷ s5 w ∷ s7 w ∷ s9 w ∷ s10 w ∷ []) r
