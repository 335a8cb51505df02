-- ===== src/Validate/OnChain.antt =====
-- tee/go/tools/pkg/validate/checks.go: the checks R1 to R4 of RegisterRegistrationChecks.
use cipher_sign.Prelude.{
  ℕ, true, false, not, List, [], ◌∷◌, ◌++◌, Option, none, some, take, replicate, ◌==◌,
  if◌then◌else◌, ok, err,
}
use cipher_sign.Prelude.Text.{String, concat, itoa}
use cipher_sign.Validate.Report.{pass, warn, fail, CheckResult}
use cipher_sign.Validate.EnvFile.{address_regex}
use cipher_sign.Validate.World.{Eth, Client, Registry, Allowlist}

module _ (e : Eth) where
  -- R1, with the counter that the later checks use.
  unfoldable pub r1 : Option (Registry e) → Option (Client e) → Option ℕ × List CheckResult
  r1 none client = (none, [])
  r1 (some registry) none = (none, [])
  r1 (some registry) (some client) = elim registry.next_public_extension_id [
    | err text ↦ (
      none,
      record {
        step = "register";
        id = "R1";
        name = "next public extension id";
        status = fail;
        message = concat ("failed to query nextPublicExtensionId: " ∷ text ∷ []);
        fix = "";
      }
          ∷ [],
    )
    | ok counter ↦
        if counter == 0
        then (
          some counter,
          record {
            step = "register";
            id = "R1";
            name = "next public extension id";
            status = warn;
            message = "nextPublicExtensionId is 0 — no public extensions registered yet";
            fix = "";
          }
              ∷ [],
        )
        else (
          some counter,
          record {
            step = "register";
            id = "R1";
            name = "next public extension id";
            status = pass;
            message = concat ("nextPublicExtensionId = " ∷ itoa counter ∷ []);
            fix = "";
          }
              ∷ [],
        )
  ]

  -- R2: the sender on the chain against that of extension.env.
  unfoldable pub r2 : Option (Registry e) → Option (Client e) → ℕ → String → List CheckResult
  r2 none client extension_id sender = []
  r2 (some registry) none extension_id sender = []
  r2 (some registry) (some client) extension_id sender =
      if not (address_regex sender)
      then []
      else elim (registry.get_tee_extension_instructions_sender extension_id) [
        | err text ↦
            record {
              step = "register";
              id = "R2";
              name = "instruction sender matches on-chain";
              status = fail;
              message = concat ("failed to query instruction sender: " ∷ text ∷ []);
              fix = "";
            }
            ∷ []
        | ok on_chain ↦
            if e.address_eq on_chain (e.hex_to_address sender)
            then record {
              step = "register";
              id = "R2";
              name = "instruction sender matches on-chain";
              status = pass;
              message =
                  concat ("on-chain sender " ∷ e.hex on_chain ∷ " matches extension.env" ∷ []);
              fix = "";
            }
              ∷ []
            else record {
              step = "register";
              id = "R2";
              name = "instruction sender matches on-chain";
              status = fail;
              message =
                  concat ("on-chain sender " ∷ e.hex on_chain ∷ " != extension.env " ∷ sender ∷ []);
              fix = "Re-register the extension or update extension.env";
            }
              ∷ []
      ]

  -- R3: the deployer is an allowed owner of TEE machines.
  unfoldable pub r3 :
      Option e.PrivateKey → Option (Allowlist e) → Option (Client e) → ℕ → List CheckResult
  r3 none allowlist client extension_id = []
  r3 (some key) none client extension_id = []
  r3 (some key) (some allowlist) none extension_id = []
  r3 (some key) (some allowlist) (some client) extension_id =
      elim (allowlist.is_allowed_tee_machine_owner extension_id (e.pubkey_to_address key)) [
        | err text ↦
            record {
              step = "register";
              id = "R3";
              name = "deployer is allowed TEE machine owner";
              status = fail;
              message = concat ("failed to query allowlist: " ∷ text ∷ []);
              fix = "";
            }
            ∷ []
        | ok true ↦
            record {
              step = "register";
              id = "R3";
              name = "deployer is allowed TEE machine owner";
              status = pass;
              message = "deployer is on the TEE machine owner allowlist";
              fix = "";
            }
            ∷ []
        | ok false ↦
            record {
              step = "register";
              id = "R3";
              name = "deployer is allowed TEE machine owner";
              status = fail;
              message = "deployer is NOT on the TEE machine owner allowlist";
              fix = "Run the register step to add the deployer as a TEE machine owner";
            }
            ∷ []
      ]

  -- R4: the EVM key type is supported; the type is copied to 32 bytes.
  unfoldable pub r4 : Option (Registry e) → Option (Client e) → ℕ → List CheckResult
  r4 none client extension_id = []
  r4 (some registry) none extension_id = []
  r4 (some registry) (some client) extension_id =
      elim (registry.is_key_type_supported extension_id (take 32 (e.evm_type ++ replicate 32 0))) [
        | err text ↦
            record {
              step = "register";
              id = "R4";
              name = "EVM key type supported";
              status = fail;
              message = concat ("failed to query key type support: " ∷ text ∷ []);
              fix = "";
            }
            ∷ []
        | ok true ↦
            record {
              step = "register";
              id = "R4";
              name = "EVM key type supported";
              status = pass;
              message = "EVM key type is supported for this extension";
              fix = "";
            }
            ∷ []
        | ok false ↦
            record {
              step = "register";
              id = "R4";
              name = "EVM key type supported";
              status = fail;
              message = "EVM key type is NOT supported for this extension";
              fix = "Run the register step to add EVM key type support";
            }
            ∷ []
      ]
