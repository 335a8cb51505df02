-- ===== src/Validate/Tests.antt =====
-- Tests: the readers of extension.env, the report and the checks on a chain of a few addresses.
use cipher_sign.Prelude.{
  ℕ, ◌+◌, true, false, ◌&&◌, List, [], ◌∷◌, some, ltb, ◌==◌, ==_iff, if◌then◌else◌, ok, err, ◌≡◌,
  ◌↔◌, ◌⊎◌, refl, arith,
}
use cipher_sign.Prelude.Text.{String, itoa, contains}
use cipher_sign.Validate.Report.{Status, pass, warn, fail, skip, CheckResult, Report}
use cipher_sign.Prelude.Text.{trim_space}
use cipher_sign.Validate.Report.{has_failures, steps_of}
use cipher_sign.Validate.Report.Fails.{Clean}
use cipher_sign.Validate.EnvFile.{
  parse_extension_env, vars_of, address_regex, check_extension_env_format, entry,
}
use cipher_sign.Validate.EnvFile.Agree.{
  both_vars, parse_extension_env-vars_of, SetToHex, check_extension_env_format-pass_iff,
}
use cipher_sign.Validate.World.{World, Eth, Client, Registry}
use cipher_sign.Validate.Deploy.{register_deploy_checks, env_checks}
use cipher_sign.Validate.Deploy.Verdict.{
  NonZero, HasCode, Funded, Answers, register_deploy_checks-Clean_iff,
}
use cipher_sign.Validate.Registration.{r7}
use cipher_sign.Validate.Registration.Duplicates.{TwoSenders, r7-warn_iff}

abbrev pub env_text : String
env_text =
    "# ids\nEXTENSION_ID = 0x01\r\nINSTRUCTION_SENDER=0x1111111111111111111111111111111111111111\n"

abbrev sender : String
sender = "0x1111111111111111111111111111111111111111"

env_sample : parse_extension_env (some env_text) ≡ ok ("0x01", sender)
unfolding parse_extension_env entry trim_space
env_sample = refl

parse_extension_env-vars_of_example :
    parse_extension_env (some env_text) ≡ ok (both_vars (vars_of env_text))
parse_extension_env-vars_of_example = parse_extension_env-vars_of env_text

abbrev plain_quote : String → String
plain_quote s = s

check_extension_env_format-pass_iff_example :
    (first : CheckResult) × (second : CheckResult) × (check_extension_env_format plain_quote
        "extension.env"
        (some env_text)
      ≡ first ∷ second ∷ [])
    × ((first.status ≡ pass) ↔ SetToHex "INSTRUCTION_SENDER" 40 env_text)
    × ((second.status ≡ pass) ↔ SetToHex "EXTENSION_ID" 64 env_text)
check_extension_env_format-pass_iff_example =
    check_extension_env_format-pass_iff plain_quote "extension.env" env_text

abbrev result_of : String → Status → CheckResult
result_of step status = record {
  step = step;
  id = "X";
  name = "";
  status = status;
  message = "";
  fix = "";
}

abbrev mixed_report : Report
mixed_report = record {
  results = result_of "deploy" pass ∷ result_of "test" fail ∷ result_of "deploy" skip ∷ [];
}

steps_sample : steps_of mixed_report ≡ "deploy" ∷ "test" ∷ []
unfolding steps_of contains
steps_sample = refl

-- Addresses are numbers.
pub number_eq_iff : (a b : ℕ) → (a == b ≡ true) ↔ (a ≡ b)
number_eq_iff a b = ==_iff a b

abbrev pub numbers : Eth
numbers = record {
  Address = ℕ;
  PrivateKey = ℕ;
  zero_address = 0;
  address_eq = λ a b. a == b;
  address_eq_iff = number_eq_iff;
  hex = itoa;
  hex_to_address = λ s. 5;
  pubkey_to_address = λ k. k + 1;
  big_of_hex = λ s. 0;
  evm_type = [];
}

abbrev pub quiet : World
quiet = record {
  getenv = λ s. "";
  open_file = λ s. some env_text;
  not_exist = λ s. false;
  dial = λ s. true;
  http_get = λ s. some 200;
  quote = λ s. s;
}

-- Every address has code, and some wei.
abbrev pub rich_client : Client numbers
rich_client = record {
  code_at = λ a. ok (1 ∷ []);
  balance_at = λ a. ok 10_000_000_000_000_000;
  chain_id = ok 114;
}

abbrev address_map : List (String × ℕ)
address_map = ("A", 3) ∷ ("B", 4) ∷ []

register_deploy_checks-Clean_iff_example :
    (has_failures (
        register_deploy_checks numbers quiet
          (some rich_client)
          (some 7)
          address_map
          address_map
          "extension.env"
          mixed_report)
      ≡ false)
    ↔ ((has_failures mixed_report ≡ false)
        × NonZero numbers address_map
        × HasCode numbers (some rich_client) address_map
        × Funded numbers (some rich_client) (some 7)
        × Answers numbers (some rich_client)
        × Clean (env_checks numbers quiet "extension.env"))
register_deploy_checks-Clean_iff_example =
    register_deploy_checks-Clean_iff numbers quiet (some rich_client) (some 7) address_map
      address_map "extension.env" mixed_report

-- Ids 1 and 2 have the sender 5.
abbrev pub twice : Registry numbers
twice = record {
  next_public_extension_id = ok 4;
  get_tee_extension_instructions_sender = λ i. if ltb 0 i && ltb i 3 then ok 5 else err "none";
  is_key_type_supported = λ i b. ok true;
}

sender_fits : address_regex sender ≡ true
unfolding address_regex
sender_fits = refl

r7-warn_iff_example :
    (x : CheckResult) × (r7 numbers (some twice) (some rich_client) (some 4) sender ≡ x ∷ [])
    × ((x.status ≡ warn) ↔ TwoSenders numbers twice 5 4)
    × ((x.status ≡ pass) ⊎ (x.status ≡ warn))
r7-warn_iff_example =
    r7-warn_iff numbers twice rich_client 4 sender (omega arith) (omega arith) sender_fits
