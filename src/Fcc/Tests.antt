-- ===== src/Fcc/Tests.antt =====
-- Tests: a registration on a world that counts its calls and a disk that is one file.
use cipher_sign.Prelude.{
  ℕ, suc, [], ◌∷◌, ◌++◌, none, Bytes, codes, length, take, drop, Result, ok, err, ◌≡◌, refl,
  take-append, drop-append, ◌↔◌, ◌<◌, ◌^◌, ◌+◌, arith, Option, some,
}
use Prim.Native.String.{String}
use cipher_sign.Fcc.Register.{
  RegistrationState, Calls, Files, FileRead, Job, zero_hash, has_step, load_state, save_state,
  Session, and_then, attested, checked, first_attestation, pre_register, attest, check_availability,
  produce, remove_state, started, prepare, outcome, resume, missing, content,
}
use cipher_sign.Fcc.Register.Resume.{both_attestations, resume-attested}
use cipher_sign.Fcc.Policy.{OutOfSync, behind, check_ftdc_proxy_policy_consistency}
use cipher_sign.Fcc.Policy.Sync.{Distant, check_ftdc_proxy_policy_consistency-fails_iff}
use cipher_sign.Fcc.Register.Produce.{resume-prepared}

-- Each call adds one to the world and gives the new number.
abbrev counting : Calls
counting = record {
  World = ℕ;
  Info = Unit {0};
  Proof = Bytes;
  tee_proxy_id = λ i. ok (1 ∷ [], 2 ∷ []);
  get_tee_machine = λ w a. err "not registered";
  pre_registration = λ w h t p i. (suc w, ok (suc w ∷ []));
  request_tee_attestation = λ w t. (suc w, ok (suc w ∷ []));
  check_ftdc_proxy_policy_consistency = λ w u. ok tt;
  request_ftdc_availability_check = λ w t f i. (suc w, ok (suc w ∷ i));
  get_ftdc_availability_check_result = λ w u i. (w, ok i);
  to_production = λ w p. (suc w, ok tt);
  hex_to_hash = λ b. b;
}

-- A state is written as the lengths of its first two fields and then its fields.
abbrev pub marshal : RegistrationState → Bytes
marshal st =
    length st.completed_steps
    ∷ (length st.tee_attest_instruction_id
        ∷ (st.completed_steps ++ (st.tee_attest_instruction_id ++ st.instruction_id)))

abbrev pub unmarshal : Bytes → Result String RegistrationState
unmarshal (n ∷ m ∷ rest) = ok (record {
  completed_steps = take n rest;
  tee_attest_instruction_id = take m (drop n rest);
  instruction_id = drop m (drop n rest);
})
unmarshal _ = err "short"

pub unmarshal-marshal : (st : RegistrationState) → unmarshal (marshal st) ≡ ok st
unmarshal-marshal st =
    let tail = st.tee_attest_instruction_id ++ st.instruction_id in
    rw
      (
        take-append st.completed_steps tail,
        drop-append st.completed_steps tail,
        take-append st.tee_attest_instruction_id st.instruction_id,
        drop-append st.tee_attest_instruction_id st.instruction_id,
      )
      refl

abbrev pub one_file : Files
one_file = record {
  Disk = FileRead;
  read_file = λ d. d;
  write_file = λ d b. (content b, none);
  remove = λ d. missing;
  marshal = λ st. ok (marshal st);
  unmarshal = unmarshal;
  read_file-write_file = λ d b e. refl;
  unmarshal-marshal = λ st. (marshal st, refl, unmarshal-marshal st);
}

abbrev job : Job (Unit {0})
job = record {
  tee_id = 1 ∷ [];
  proxy_id = 2 ∷ [];
  tee_info = tt;
  host_url = "";
  ftdc_tee_url = "";
  ftdc_tee = 3 ∷ [];
  command = codes "rRap";
  instruction_id_string = [];
}

abbrev empty_state : RegistrationState
empty_state = record {
  completed_steps = [];
  tee_attest_instruction_id = zero_hash;
  instruction_id = zero_hash;
}

abbrev attested_state : RegistrationState
attested_state = record {
  completed_steps = codes "rR";
  tee_attest_instruction_id = 2 ∷ [];
  instruction_id = zero_hash;
}

abbrev attested_session : Session counting one_file
attested_session = record {
  world = 2;
  disk = content (marshal attested_state);
  state = attested_state;
  attest_id = 2 ∷ [];
  instruction_id = zero_hash;
}

attested_run :
    both_attestations counting one_file job (started counting one_file 0 missing empty_state)
    ≡ (attested_session, ok tt)
unfolding and_then pre_register attest attested first_attestation has_step save_state started
attested_run = refl

nothing_loaded : load_state one_file missing ≡ ok empty_state
unfolding load_state
nothing_loaded = refl

resume-attested_example :
    resume counting one_file job 9 (content (marshal attested_state))
    ≡ outcome counting one_file (
        and_then counting one_file
          (and_then counting one_file
            (check_availability counting one_file job (record attested_session { world = 9 }))
            (produce counting one_file job))
          (remove_state counting one_file))
resume-attested_example =
    resume-attested counting one_file job 0 9 missing empty_state attested_session (λ d b. refl)
      nothing_loaded attested_run

abbrev prepared_state : RegistrationState
prepared_state = record {
  completed_steps = codes "rRa";
  tee_attest_instruction_id = 2 ∷ [];
  instruction_id = 3 ∷ 2 ∷ [];
}

abbrev prepared_session : Session counting one_file
prepared_session = record {
  world = 3;
  disk = content (marshal prepared_state);
  state = prepared_state;
  attest_id = 2 ∷ [];
  instruction_id = 3 ∷ 2 ∷ [];
}

prepared_run :
    prepare counting one_file job (started counting one_file 0 missing empty_state)
    ≡ (prepared_session, ok tt)
unfolding prepare and_then pre_register attest attested checked check_availability first_attestation
    has_step save_state started
prepared_run = refl

resume-prepared_example :
    resume counting one_file job 9 (content (marshal prepared_state))
    ≡ outcome counting one_file (
        and_then counting one_file
          (produce counting one_file job (record prepared_session { world = 9 }))
          (remove_state counting one_file))
resume-prepared_example =
    resume-prepared counting one_file job 0 9 missing empty_state prepared_session (λ d b. refl)
      nothing_loaded prepared_run

-- The proxy is two epochs behind.
abbrev two_behind : OutOfSync
two_behind = record { proxy_policy_id = 5; onchain_epoch = 7; relation = behind 2 }

found_small :
    {E : Type 0} (a n : ℕ)
    → ◌≡◌ {A = Result E (Option ℕ)} (ok (some a)) (ok (some n))
    → a + 1 < 2 ^ 64
    → n + 1 < 2 ^ 64
found_small a n e h = let same : a ≡ n = cc in omega arith

check_ftdc_proxy_policy_consistency-fails_iff_example :
    (check_ftdc_proxy_policy_consistency (ok (some 7)) (ok 5) ≡ err two_behind) ↔ (
      (onchain : ℕ) × (policy : ℕ) × (◌≡◌ {A = Result String (Option ℕ)}
        (ok (some 7))
        (ok (some onchain)))
      × (◌≡◌ {A = Result String ℕ} (ok 5) (ok policy))
      × Distant onchain policy two_behind)
check_ftdc_proxy_policy_consistency-fails_iff_example =
    check_ftdc_proxy_policy_consistency-fails_iff (ok (some 7)) (ok 5) two_behind
      (λ n e. found_small 7 n e (omega arith))
