-- ===== src/Validate/Registration.antt =====
-- tee/go/tools/pkg/validate/checks.go: RegisterRegistrationChecks, check by check.
pub mod Duplicates
use cipher_sign.Validate.OnChain.{r1, r2, r3, r4}
use cipher_sign.Prelude.{
  ℕ, zero, suc, ◌+◌, ◌-◌, ◌/◌, not, ◌&&◌, List, [], ◌∷◌, ◌++◌, map, Option, none, some, length, ltb,
  if◌then◌else◌, ok, err,
}
use cipher_sign.Prelude.Text.{drop_2, String, str_eq, concat, itoa}
use cipher_sign.Validate.Report.{pass, warn, fail, skip, CheckResult, Report, add_all}
use cipher_sign.App.Int64.{is_negative, to_int64}
use cipher_sign.Validate.EnvFile.{address_regex, extension_id_regex, parse_extension_env}
use cipher_sign.Validate.World.{World, Eth, Client, Registry, Allowlist}

-- `strings.Join`.
unfoldable pub join : List String → String → String
join [] sep = ""
join (x ∷ []) sep = x
join (x ∷ y ∷ xs) sep = concat (x ∷ sep ∷ join (y ∷ xs) sep ∷ [])

module _ (e : Eth) where
  -- The ids from `i` on, `rounds` of them, whose sender is the expected one; an error is passed over.
  unfoldable pub matching_ids : Registry e → e.Address → ℕ → ℕ → List ℕ
  matching_ids registry expected i zero = []
  matching_ids registry expected i (suc rounds) =
      let rest = matching_ids registry expected (i + 1) rounds in
      elim (registry.get_tee_extension_instructions_sender i) [
        | err text ↦ rest
        | ok sender ↦ if e.address_eq sender expected then i ∷ rest else rest
      ]

  -- The bound of the loop, `counter.Int64()`: no round where it is negative.
  unfoldable pub rounds_of : ℕ → ℕ
  rounds_of counter = if is_negative (to_int64 counter) then 0 else to_int64 counter

  -- R7: the sender is that of one extension only.
  unfoldable pub r7 : Option (Registry e) → Option (Client e) → Option ℕ → String → List CheckResult
  unfolding rounds_of
  r7 registry client none sender = []
  r7 none client (some counter) sender = []
  r7 (some registry) none (some counter) sender = []
  r7 (some registry) (some client) (some counter) sender =
      let ids = matching_ids registry (e.hex_to_address sender) 0 (rounds_of counter) in
      if ltb 0 counter && address_regex sender
      then if ltb 1 (length ids)
        then record {
          step = "register";
          id = "R7";
          name = "unique instruction sender";
          status = warn;
          message = concat (
              "INSTRUCTION_SENDER "
              ∷ sender
              ∷ " is used by multiple extensions: "
              ∷ join (map itoa ids) ", "
              ∷ []);
          fix = "";
        }
          ∷ []
        else record {
          step = "register";
          id = "R7";
          name = "unique instruction sender";
          status = pass;
          message = "instruction sender is unique across registered extensions";
          fix = "";
        }
          ∷ []
      else []

  -- The checks behind the format of EXTENSION_ID.
  after_format :
      World
      → Option (Client e)
      → Option e.PrivateKey
      → Option (Registry e)
      → Option (Allowlist e)
      → Option ℕ
      → String
      → String
      → List CheckResult
  after_format w client key registry allowlist counter ext_id sender =
      if not (extension_id_regex ext_id)
      then record {
        step = "register";
        id = "R2";
        name = "EXTENSION_ID format";
        status = fail;
        message = concat ("malformed EXTENSION_ID: " ∷ w.quote ext_id ∷ []);
        fix = "Delete config/extension.env and re-run scripts/pre-build.sh";
      }
        ∷ []
      else let extension_id = e.big_of_hex (drop_2 ext_id) in
        r2 e registry client extension_id sender
        ++ (r3 e key allowlist client extension_id
            ++ (r4 e registry client extension_id ++ r7 registry client counter sender))

  unfoldable pub register_registration_checks :
      World
      → Option (Client e)
      → Option e.PrivateKey
      → Option (Registry e)
      → Option (Allowlist e)
      → String
      → Report
      → Report
  unfolding after_format
  register_registration_checks w client key registry allowlist path r =
      if str_eq path ""
      then add_all
          (record {
            step = "register";
            id = "R1-R7";
            name = "registration checks";
            status = skip;
            message = "no --config path provided";
            fix = "";
          }
            ∷ [])
          r
      else elim (parse_extension_env (w.open_file path)) [
        | err text ↦
            add_all
              (record {
                step = "register";
                id = "R1-R7";
                name = "registration checks";
                status = fail;
                message = concat ("failed to parse extension.env: " ∷ text ∷ []);
                fix = "";
              }
                ∷ [])
              r
        | ok (ext_id, sender) ↦
            if str_eq ext_id "" && str_eq sender ""
            then add_all
                (record {
                  step = "register";
                  id = "R1-R7";
                  name = "registration checks";
                  status = skip;
                  message = "config/extension.env not found — run pre-build.sh first";
                  fix = "";
                }
                  ∷ [])
                r
            else let (counter, first) = r1 e registry client in
              add_all (first ++ after_format w client key registry allowlist counter ext_id sender)
                r
      ]
