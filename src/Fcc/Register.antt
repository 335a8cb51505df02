-- ===== src/Fcc/Register.antt =====
-- tee/go/tools/pkg/fccutils/registration.go: RegisterNode and its state file. The calls of the same
-- package that send transactions or ask a proxy are the interface Calls; the file system and the JSON
-- text of the state are the interface Files. An address and a hash are byte lists.
pub mod Steps
pub mod Resume
pub mod Produce
use cipher_sign.Prelude.{
  ℕ, ◌+◌, ◌-◌, Bool, false, not, ◌||◌, [], ◌∷◌, ◌++◌, Option, none, some, Bytes, replicate,
  eq_bytes, ◌==◌, if◌then◌else◌, Result, ok, err, map_err, ◌≡◌,
}
use Prim.Native.String.{String}
use cipher_sign.Prelude.Text.{concat}

pub record RegistrationState : Type 0 where
  pub completed_steps : Bytes
  pub tee_attest_instruction_id : Bytes
  pub instruction_id : Bytes

-- `common.Hash{}` and `common.Address{}`.
abbrev pub zero_hash : Bytes
zero_hash = replicate 32 0

abbrev pub zero_address : Bytes
zero_address = replicate 20 0

-- What the flow does to the chain and asks of the proxies; `World` is their state.
pub record Calls : Type 1 where
  pub World : Type 0
  pub Info : Type 0
  pub Proof : Type 0
  pub tee_proxy_id : Info → Result String (Bytes × Bytes)
  -- The `TeeId` of the registered machine.
  pub get_tee_machine : World → Bytes → Result String Bytes
  pub pre_registration : World → String → Bytes → Bytes → Info → World × Result String Bytes
  pub request_tee_attestation : World → Bytes → World × Result String Bytes
  pub check_ftdc_proxy_policy_consistency : World → String → Result String (Unit {0})
  pub request_ftdc_availability_check : World → Bytes → Bytes → Bytes → World × Result String Bytes
  pub get_ftdc_availability_check_result : World → String → Bytes → World × Result String Proof
  pub to_production : World → Proof → World × Result String (Unit {0})
  pub hex_to_hash : Bytes → Bytes

-- `os.ReadFile`: no such file, another error, or the data.
pub data FileRead : Type 0 where
  missing : FileRead
  unreadable : String → FileRead
  content : Bytes → FileRead

-- The state file on disk, and encoding/json of the state.
pub record Files : Type 1 where
  pub Disk : Type 0
  pub read_file : Disk → FileRead
  pub write_file : Disk → Bytes → Disk × Option String
  pub remove : Disk → Disk
  pub marshal : RegistrationState → Result String Bytes
  pub unmarshal : Bytes → Result String RegistrationState
  -- A write with no error is read back, and so is a marshalled state.
  pub read_file-write_file :
      (d : Disk) (b : Bytes) → (write_file d b).1 ≡ none → read_file (write_file d b).0 ≡ content b
  pub unmarshal-marshal :
      (st : RegistrationState) → (b : Bytes) × (marshal st ≡ ok b) × (unmarshal b ≡ ok st)

-- The arguments of `RegisterNode`, with the two ids of its TEE.
pub record Job (Info : Type 0) : Type 0 where
  pub tee_id : Bytes
  pub proxy_id : Bytes
  pub tee_info : Info
  pub host_url : String
  pub ftdc_tee_url : String
  pub ftdc_tee : Bytes
  pub command : Bytes
  pub instruction_id_string : Bytes

-- `strings.Contains` of a text of one character.
unfoldable pub has_step : Bytes → ℕ → Bool
has_step [] step = false
has_step (x ∷ xs) step = x == step || has_step xs step

abbrev write_error : Option String → Option String
write_error none = none
write_error (some text) = some (concat ("failed to write state file: " ∷ text ∷ []))

module _ (f : Files) where
  unfoldable pub load_state : f.Disk → Result String RegistrationState
  load_state d = elim (f.read_file d) [
    | missing ↦ ok (record {
      completed_steps = [];
      tee_attest_instruction_id = zero_hash;
      instruction_id = zero_hash;
    })
    | unreadable text ↦ err (concat ("failed to read state file: " ∷ text ∷ []))
    | content data_read ↦
        map_err (λ text. concat ("failed to parse state file: " ∷ text ∷ []))
          (f.unmarshal data_read)
  ]

  unfoldable pub save_state : f.Disk → RegistrationState → f.Disk × Option String
  save_state d st = elim (f.marshal st) [
    | err text ↦ (d, some (concat ("failed to marshal state: " ∷ text ∷ [])))
    | ok text ↦ let (d', failed) = f.write_file d text in (d', write_error failed)
  ]

module _ (c : Calls) (f : Files) where
  -- The variables of `RegisterNode` while it runs.
  pub record Session : Type 0 where
    pub world : c.World
    pub disk : f.Disk
    pub state : RegistrationState
    pub attest_id : Bytes
    pub instruction_id : Bytes

  abbrev pub Step : Type 0
  Step = Session × Result String (Unit {0})

  -- The rest of the flow, unless the step returned an error.
  unfoldable pub and_then : Step → (Session → Step) → Step
  and_then (s, err text) rest = (s, err text)
  and_then (s, ok _) rest = rest s

  -- A call for an attestation, recorded as done on success. A state that cannot be saved is only logged.
  unfoldable pub attested : ℕ → Session → c.World × Result String Bytes → Step
  attested step s (w, err text) = (record s { world = w }, err text)
  attested step s (w, ok id) =
      let st = record s.state {
        completed_steps = s.state.completed_steps ++ step ∷ [];
        tee_attest_instruction_id = id;
      } in
      (record s { world = w; disk = (save_state f s.disk st).0; state = st; attest_id = id }, ok tt)

  unfoldable pub checked : Session → c.World × Result String Bytes → Step
  checked s (w, err text) = (record s { world = w }, err text)
  checked s (w, ok id) =
      let st = record s.state {
        completed_steps = s.state.completed_steps ++ b'a' ∷ [];
        instruction_id = id;
      } in
      (
        record s { world = w; disk = (save_state f s.disk st).0; state = st; instruction_id = id },
        ok tt,
      )

  -- A registered machine needs a fresh attestation, another one is registered first.
  unfoldable pub first_attestation : Job c.Info → c.World → c.World × Result String Bytes
  first_attestation j w = elim (c.get_tee_machine w j.tee_id) [
    | err text ↦ c.pre_registration w j.host_url j.tee_id j.proxy_id j.tee_info
    | ok id ↦
        if not (eq_bytes id zero_address)
        then c.request_tee_attestation w j.tee_id
        else c.pre_registration w j.host_url j.tee_id j.proxy_id j.tee_info
  ]

  -- Step r.
  unfoldable pub pre_register : Job c.Info → Session → Step
  unfolding first_attestation
  pre_register j s =
      if has_step j.command b'r'
      then if has_step s.state.completed_steps b'r'
        then (record s { attest_id = s.state.tee_attest_instruction_id }, ok tt)
        else attested b'r' s (first_attestation j s.world)
      else (s, ok tt)

  -- Step R.
  unfoldable pub attest : Job c.Info → Session → Step
  attest j s =
      if has_step j.command b'R'
      then if has_step s.state.completed_steps b'R'
        then (record s { attest_id = s.state.tee_attest_instruction_id }, ok tt)
        else attested b'R' s (c.request_tee_attestation s.world j.tee_id)
      else (s, ok tt)

  -- Step a.
  unfoldable pub check_availability : Job c.Info → Session → Step
  check_availability j s =
      if has_step j.command b'a'
      then if has_step s.state.completed_steps b'a'
        then (record s { instruction_id = s.state.instruction_id }, ok tt)
        else elim (c.check_ftdc_proxy_policy_consistency s.world j.ftdc_tee_url) [
          | err text ↦ (s, err text)
          | ok _ ↦
              checked s (c.request_ftdc_availability_check s.world j.tee_id j.ftdc_tee s.attest_id)
        ]
      else (record s { instruction_id = c.hex_to_hash j.instruction_id_string }, ok tt)

  -- The proof that the proxy gives is sent on.
  unfoldable pub promoted : Session → c.World × Result String c.Proof → Step
  promoted s (w, err text) = (record s { world = w }, err text)
  promoted s (w, ok proof) =
      let (w', result) = c.to_production w proof in (record s { world = w' }, result)

  -- Step p.
  unfoldable pub produce : Job c.Info → Session → Step
  unfolding promoted
  produce j s =
      if has_step j.command b'p'
      then promoted s (c.get_ftdc_availability_check_result s.world j.ftdc_tee_url s.instruction_id)
      else (s, ok tt)

  -- The state file is removed at the end.
  unfoldable pub remove_state : Session → Step
  remove_state s = (record s { disk = f.remove s.disk }, ok tt)

  -- The variables before step r.
  unfoldable pub started : c.World → f.Disk → RegistrationState → Session
  started w d st = record {
    world = w;
    disk = d;
    state = st;
    attest_id = zero_hash;
    instruction_id = zero_hash;
  }

  -- Steps r, R and a.
  unfoldable pub prepare : Job c.Info → Session → Step
  prepare j s = and_then (and_then (pre_register j s) (attest j)) (check_availability j)

  unfoldable pub run_steps : Job c.Info → Session → Step
  run_steps j s = and_then (and_then (prepare j s) (produce j)) remove_state

  unfoldable pub outcome : Step → (c.World × f.Disk) × Result String (Unit {0})
  outcome (s, result) = ((s.world, s.disk), result)

  -- `RegisterNode` behind its call of `TeeProxyId`.
  unfoldable pub resume :
      Job c.Info → c.World → f.Disk → (c.World × f.Disk) × Result String (Unit {0})
  resume j w d = elim (load_state f d) [
    | err text ↦ ((w, d), err text)
    | ok st ↦ outcome (run_steps j (started w d st))
  ]

  -- The two ids of the job are filled in first.
  unfoldable pub register_node :
      Job c.Info → c.World → f.Disk → (c.World × f.Disk) × Result String (Unit {0})
  register_node j w d = elim (c.tee_proxy_id j.tee_info) [
    | err text ↦ ((w, d), err text)
    | ok (tee_id, proxy_id) ↦ resume (record j { tee_id = tee_id; proxy_id = proxy_id }) w d
  ]
