-- ===== src/Commands/RegisterTee.antt =====
-- tee/go/tools/cmd/register-tee/main.go. What DefaultSupport gives is its key or the text of its error. A
-- state file that cannot be removed is only logged.
pub mod Fresh
use cipher_sign.Prelude.{Bool, [], Bytes, if◌then◌else◌, Result, ok, err}
use cipher_sign.Prelude.Text.{String, str_eq}
use cipher_sign.Prelude.Runs.{Run, ◌>>=◌, ◌>>◌, pure, lift}
use cipher_sign.Chain.{Chain, Net, aside}
use cipher_sign.Fcc.Attestation.{Attestation, get_code_hash_and_platform}
use cipher_sign.Fcc.Flow.{Surroundings, chain_calls}
use cipher_sign.Fcc.Identity.{tee_proxy_id}
use cipher_sign.Fcc.Register.{Files, Job, register_node}
use cipher_sign.Fcc.TeeCalls.{Node, tee_info, get_tee_proxy_id}
use cipher_sign.Fcc.Transactions.{TeeInfo}

-- The flags, without those of DefaultSupport.
pub record Options : Type 0 where
  pub resume_given : Bool
  pub proxy_address : String
  pub host_given : String
  pub ftdc_address : String
  pub command_letters : Bytes
  pub instruction : Bytes

unfoldable pub host_of : Options → String
host_of o = if str_eq o.host_given "" then o.proxy_address else o.host_given

-- The arguments of `RegisterNode`, which fills in the two ids itself.
unfoldable pub job_of : Options → TeeInfo → Bytes → Job TeeInfo
unfolding host_of
job_of o info ftdc_tee = record {
  tee_id = [];
  proxy_id = [];
  tee_info = info;
  host_url = host_of o;
  ftdc_tee_url = o.ftdc_address;
  ftdc_tee = ftdc_tee;
  command = o.command_letters;
  instruction_id_string = o.instruction;
}

module _ (c : Chain) (node : Node c.World) (getenv : String → String) (a : Attestation)
    (x : Surroundings c.World) (f : Files) where
  -- What is known before `RegisterNode`: the key, the TEE and the id of the FTDC's TEE.
  abbrev pub Known : Type 0
  Known = c.PrivateKey × (TeeInfo × Bytes)

  unfoldable pub look_up : Result String c.PrivateKey → Options → Run (Net c) String Known
  look_up support o = do
    prv ← lift support
    info ← aside c (tee_info node o.proxy_address)
    _ ← lift (tee_proxy_id x.identities info)
    (ftdc_tee, _) ← aside c (get_tee_proxy_id node x.identities o.ftdc_address)
    _ ← lift (get_code_hash_and_platform a getenv info)
    pure (prv, (info, ftdc_tee))

  unfoldable pub start_disk : Options → f.Disk → f.Disk
  start_disk o d = if o.resume_given then d else f.remove d

  unfoldable pub registered_from :
      Options → f.Disk → Net c × Result String Known → (Net c × f.Disk) × Result String (Unit {0})
  unfolding job_of
  registered_from o d (n, err text) = ((n, d), err text)
  registered_from o d (n, ok (prv, (info, ftdc_tee))) =
      register_node (chain_calls c x prv) f (job_of o info ftdc_tee) n d

  unfoldable pub register_tee :
      Result String c.PrivateKey → Options → Run (Net c × f.Disk) String (Unit {0})
  unfolding look_up start_disk registered_from
  register_tee support o (n, d) = registered_from o (start_disk o d) (look_up support o n)
