-- ===== src/Commands/RegisterExtension.antt =====
-- tee/go/tools/cmd/register-extension/main.go. What DefaultSupport gives is its key or the text of its
-- error; HexToAddress is an argument. The governance hash is read and not used by SetupExtension.
pub mod Registered
use cipher_sign.Prelude.{
  ℕ, zero, suc, ◌-◌, ◌/◌, ◌%◌, List, [], ◌∷◌, some, Bytes, length, replicate, ◌==◌, if◌then◌else◌,
  Result, ok, err,
}
use cipher_sign.Prelude.Text.{String, str_eq, concat, hex_digit}
use cipher_sign.Prelude.Runs.{Run, ◌>>=◌, ◌>>◌, pure, lift, view}
use cipher_sign.Chain.{Chain, Net}
use cipher_sign.Fcc.Extension as Extension
use cipher_sign.Fcc.Extension.{setup_extension}
use cipher_sign.Validate.World.{Eth, address_has_code}
use cipher_sign.Commands.DeployContract.{Views}

-- `%x` of a number, with a round for each digit; a number has at most as many hex digits as itself and
-- one more.
hex_loop : ℕ → ℕ → List String → List String
hex_loop zero n acc = acc
hex_loop (suc f) n acc =
    let out = hex_digit (n % 16) ∷ acc in
    let rest = hex_loop f (n / 16) out in if n / 16 == 0 then out else rest

-- `0x%064x`: the digits behind as many zeros as fill 64 places.
unfoldable pub id_text : ℕ → String
unfolding hex_loop
id_text id =
    let digits = hex_loop (suc id) id [] in
    concat ("0x" ∷ concat (replicate (64 - length digits) "0") ∷ digits)

abbrev pub required : String → Result String (Unit {0})
required instruction_sender =
    if str_eq instruction_sender "" then err "--instructionSender flag is required" else ok tt

module _ (e : Eth) (c : Chain) (v : Views e c) (r : Extension.Registry c.World c.Log)
    (evm_type : Bytes) where
  unfoldable pub register_extension_command :
      Result String c.PrivateKey → String → Run (Net c) String String
  unfolding id_text
  register_extension_command support instruction_sender = do
    lift (required instruction_sender)
    prv ← lift support
    let sender = e.hex_to_address instruction_sender
    view (λ n. address_has_code e (some (v.chain_client n.world)) sender "InstructionSender")
    id ← setup_extension c r prv evm_type (v.address_bytes sender) (replicate 20 0)
    pure (id_text id)
