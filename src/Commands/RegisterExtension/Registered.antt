-- ===== src/Commands/RegisterExtension/Registered.antt =====
-- tee/go/tools/cmd/register-extension/main.go: a run that ends well.
use cipher_sign.Prelude.{ℕ, some, Bytes, replicate, Result, ok, ok_eq, ◌≡◌, sym, ap, ◌∙◌}
use cipher_sign.Prelude.Text.{String}
use cipher_sign.Prelude.Runs.{from_ok, from_lift_ok}
use cipher_sign.Chain.{Chain, Net}
use cipher_sign.Fcc.Extension as Extension
use cipher_sign.Fcc.Extension.{setup_extension}
use cipher_sign.Fcc.Extension.Trail.{SetUp, setup_extension-SetUp}
use cipher_sign.Validate.World.{Eth, address_has_code}
use cipher_sign.Validate.Checked.{HasCodeAt, address_has_code_ok}
use cipher_sign.Commands.DeployContract.{Views}
use cipher_sign.Commands.RegisterExtension.{required, id_text, register_extension_command}

module _ (e : Eth) (c : Chain) (v : Views e c) (r : Extension.Registry c.World c.Log)
    (evm_type : Bytes) where
  pub record Registered (support : Result String c.PrivateKey) (instruction_sender : String)
      (n n' : Net c) (out : String) : Type 0 where
    pub prv : c.PrivateKey
    pub id : ℕ
    pub has_support : support ≡ ok prv
    pub has_code : HasCodeAt e (v.chain_client n.world) (e.hex_to_address instruction_sender)
    pub sets_up :
        SetUp c r prv evm_type
          (v.address_bytes (e.hex_to_address instruction_sender))
          (replicate 20 0)
          id
          n
          n'
    pub prints : out ≡ id_text id

  -- A run of register-extension that ends well has found code at the address of the instruction sender and
  -- has then set up the extension for that sender and no state verifier, as SetUp says; it prints
  -- the id of that extension.
  pub register_extension_command-Registered :
      (support : Result String c.PrivateKey) (instruction_sender : String) (n n' : Net c)
      (out : String)
      → register_extension_command e c v r evm_type support instruction_sender n ≡ (n', ok out)
      → Registered support instruction_sender n n' out
  unfolding register_extension_command
  register_extension_command-Registered support instruction_sender n n' out h =
      let sender = e.hex_to_address instruction_sender in
      from_lift_ok n (required instruction_sender) _ n' out h λ u e0 h0.
        from_lift_ok n support _ n' out h0 λ prv e1 h1.
          from_lift_ok n
            (address_has_code e (some (v.chain_client n.world)) sender "InstructionSender") _ n' out
            h1
            λ u e2 h2.
              from_ok (setup_extension c r prv evm_type (v.address_bytes sender) (replicate 20 0) n)
                _ n' out h2
                λ n3 id e3 h3. record {
                  prv = prv;
                  id = id;
                  has_support = e1;
                  has_code =
                      address_has_code_ok e (v.chain_client n.world) sender "InstructionSender" e2;
                  sets_up =
                      setup_extension-SetUp c r prv evm_type (v.address_bytes sender)
                        (replicate 20 0) n n' id (e3 ∙ ap (λ z. (z.0, ok id)) h3);
                  prints = sym (ok_eq (ap (λ z. z.1) h3));
                }
