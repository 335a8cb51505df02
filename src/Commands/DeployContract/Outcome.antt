-- ===== src/Commands/DeployContract/Outcome.antt =====
-- tee/go/tools/cmd/deploy-contract/main.go: what a run sends behind its checks.
use cipher_sign.Prelude.{Bool, true, false, List, [], ◌∷◌, Bytes, Result, ok, err, ◌≡◌, ◌⊎◌}
use cipher_sign.Prelude.Text.{String}
use cipher_sign.Chain.{Chain, Net, deploy_instruction_sender}
use cipher_sign.Instructions.{Sender, deploy_sender}
use cipher_sign.Validate.World.{Eth, min_deploy_balance}
use cipher_sign.Validate.Checked.{HasCodeAt, HasFunds}
use cipher_sign.Commands.DeployContract.{Views, Deployer, Output, outputs}

module _ (e : Eth) (c : Chain) (v : Views e c) (x : Sender c) where
  -- The TEE manager is not the zero address and has code, and the key can pay.
  abbrev pub Preflight : Net c → Deployer e → Type 0
  Preflight n s =
      (e.address_eq s.flare_tee_manager e.zero_address ≡ false)
      × HasCodeAt e (v.chain_client n.world) s.flare_tee_manager
      × HasFunds e (v.chain_client n.world) s.prv min_deploy_balance

  -- The deployment itself, with the manager for both registries, and what is printed of it.
  abbrev pub Deploys : Deployer e → String → Net c → Net c → List Output → Type 0
  Deploys s out_file n n' outs =
      let manager = v.address_bytes s.flare_tee_manager in
      (address : Bytes) × (deploy_sender c x (v.chain_key s.prv) manager n ≡ (n', ok address))
      × (outs ≡ outputs e c v x out_file address)
      × (n'.sent ≡ deploy_instruction_sender manager manager ∷ n.sent)

  abbrev pub Attempts : Deployer e → Net c → Net c → Type 0
  Attempts s n n' =
      let manager = v.address_bytes s.flare_tee_manager in
      n'.sent ≡ deploy_instruction_sender manager manager ∷ n.sent

  abbrev pub Outcome :
      Result String (Deployer e)
      → Bool
      → String
      → Net c
      → Net c × Result String (List Output)
      → Type 0
  Outcome support preflight_only out_file n (n', ok outs) =
      (s : Deployer e) × (support ≡ ok s)
      × Preflight n s
      × (((preflight_only ≡ true) × (n' ≡ n) × (outs ≡ []))
          ⊎ ((preflight_only ≡ false) × Deploys s out_file n n' outs))
  Outcome support preflight_only out_file n (n', err text) =
      (n'.sent ≡ n.sent)
      ⊎ ((s : Deployer e) × (support ≡ ok s)
          × Preflight n s
          × (preflight_only ≡ false)
          × Attempts s n n')
