-- ===== src/Validate/TestReady.antt =====
-- tee/go/tools/pkg/validate/checks.go: RegisterTestChecks and RegisterStubChecks.
use cipher_sign.Prelude.{not, [], ◌∷◌, if◌then◌else◌, Result, ok, err}
use cipher_sign.Prelude.Text.{String, str_eq}
use cipher_sign.Validate.Report.{pass, warn, fail, skip, CheckResult, Report, add_all}
use cipher_sign.Validate.EnvFile.{address_regex, parse_extension_env}
use cipher_sign.Validate.World.{World, reachable}

-- The second result of `parseExtensionEnv`, its error dropped.
abbrev sender_of : Result String (String × String) → String
sender_of (ok (_, sender)) = sender
sender_of (err _) = ""

-- E1.
unfoldable pub e1 : World → String → CheckResult
e1 w path =
    let sender = sender_of (parse_extension_env (w.open_file path)) in
    if str_eq path ""
    then record {
      step = "test";
      id = "E1";
      name = "INSTRUCTION_SENDER valid";
      status = skip;
      message = "no --config provided";
      fix = "";
    }
    else if w.not_exist path
    then record {
      step = "test";
      id = "E1";
      name = "INSTRUCTION_SENDER valid";
      status = skip;
      message = "extension.env not found — run pre-build.sh first";
      fix = "";
    }
    else if str_eq sender ""
    then record {
      step = "test";
      id = "E1";
      name = "INSTRUCTION_SENDER valid";
      status = fail;
      message = "INSTRUCTION_SENDER not set — run pre-build.sh";
      fix = "Run scripts/pre-build.sh to deploy and register the extension";
    }
    else if not (address_regex sender)
    then record {
      step = "test";
      id = "E1";
      name = "INSTRUCTION_SENDER valid";
      status = fail;
      message = "INSTRUCTION_SENDER malformed";
      fix = "Delete config/extension.env and re-run scripts/pre-build.sh";
    }
    else record {
      step = "test";
      id = "E1";
      name = "INSTRUCTION_SENDER valid";
      status = pass;
      message = sender;
      fix = "";
    }

-- E3.
unfoldable pub e3 : World → CheckResult
e3 w =
    let url = w.getenv "EXT_PROXY_URL" in
    if str_eq url ""
    then record {
      step = "test";
      id = "E3";
      name = "proxy reachable for test results";
      status = skip;
      message = "EXT_PROXY_URL not set";
      fix = "";
    }
    else if reachable w url
    then record {
      step = "test";
      id = "E3";
      name = "proxy reachable for test results";
      status = pass;
      message = "proxy reachable for test result polling";
      fix = "";
    }
    else record {
      step = "test";
      id = "E3";
      name = "proxy reachable for test results";
      status = warn;
      message = "proxy not reachable — test results cannot be polled";
      fix = "Start the proxy or check EXT_PROXY_URL";
    }

-- E6 says the same in every run.
e6 : CheckResult
e6 = record {
  step = "test";
  id = "E6";
  name = "OPType/OPCommand alignment info";
  status = pass;
  message =
      "OPType/OPCommand hashes are validated at runtime — if a 501 error occurs, check the hash values in the error message";
  fix = "";
}

unfoldable pub register_test_checks : World → String → Report → Report
unfolding e6
register_test_checks w path r = add_all (e1 w path ∷ e3 w ∷ e6 ∷ []) r

unfoldable pub register_stub_checks : String → String → String → Report → Report
register_stub_checks step id_range name r =
    add_all
      (record {
        step = step;
        id = id_range;
        name = name;
        status = skip;
        message = "not yet implemented";
        fix = "";
      }
        ∷ [])
      r
