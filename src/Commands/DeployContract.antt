-- ===== src/Commands/DeployContract.antt =====
-- tee/go/tools/cmd/deploy-contract/main.go. What DefaultSupport gives is the record Deployer or the text of
-- its error; go-ethereum, whose addresses and keys the checks and the chain see each in their way, is
-- the record Views. Errors of the output file are ignored by the code.
pub mod Outcome
use cipher_sign.Prelude.{Bool, true, false, List, [], ◌∷◌, some, Bytes, if◌then◌else◌, Result}
use cipher_sign.Prelude.Text.{String, str_eq}
use cipher_sign.Prelude.Runs.{Run, ◌>>=◌, ◌>>◌, pure, lift, view}
use cipher_sign.Chain.{Chain, Net}
use cipher_sign.Instructions.{Sender, deploy_sender}
use cipher_sign.Validate.World.{
  Eth, Client, address_not_zero, address_has_code, key_has_funds, min_deploy_balance,
}

pub record Views (e : Eth) (c : Chain) : Type 0 where
  pub chain_client : c.World → Client e
  pub chain_key : e.PrivateKey → c.PrivateKey
  pub address_bytes : e.Address → Bytes
  -- `Address.Hex`.
  pub address_hex : Bytes → String

pub record Deployer (e : Eth) : Type 0 where
  pub prv : e.PrivateKey
  pub flare_tee_manager : e.Address

-- A file that is written, and a line on standard output.
pub data Output : Type 0 where
  file : String → String → Output
  line : String → Output

module _ (e : Eth) (c : Chain) (v : Views e c) (x : Sender c) where
  -- The file is written where -o names one.
  unfoldable pub outputs : String → Bytes → List Output
  outputs out_file address =
      let text = v.address_hex address in
      if str_eq out_file "" then line text ∷ [] else file out_file text ∷ line text ∷ []

  unfoldable pub deploy_unless : Bool → String → Deployer e → Run (Net c) String (List Output)
  unfolding outputs
  deploy_unless true out_file s = pure []
  deploy_unless false out_file s = do
    address ← deploy_sender c x (v.chain_key s.prv) (v.address_bytes s.flare_tee_manager)
    pure (outputs out_file address)

  unfoldable pub deploy_contract :
      Result String (Deployer e) → Bool → String → Run (Net c) String (List Output)
  unfolding deploy_unless
  deploy_contract support preflight_only out_file = do
    s ← lift support
    lift (address_not_zero e s.flare_tee_manager "FlareTeeManager")
    view (λ n.
        address_has_code e (some (v.chain_client n.world)) s.flare_tee_manager "FlareTeeManager")
    view (λ n. key_has_funds e (some (v.chain_client n.world)) s.prv min_deploy_balance)
    deploy_unless preflight_only out_file s
