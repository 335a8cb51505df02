-- ===== src/Base/Server.antt =====
-- tee/go/internal/base: the messages of types.go and the HTTP server of server.go, over handlers
-- that change a state `S` and may fail with an `E`. `V` is what the world outside answers while
-- one handler runs. The text codec of encoding/json is a parameter. A handler call holds the
-- mutex, so it is one step on the state; a number of Go type int64 that the code only stores is its
-- 64-bit pattern.
pub mod Accept
use cipher_sign.Prelude.{
  ℕ, ◌/◌, Bool, true, false, not, List, [], ◌∷◌, Option, none, some, Bytes, codes, eq_bytes, ◌==◌,
  if◌then◌else◌, Result, ok, err, ◌>>=◌, ◌>>◌, map_err,
}
use cipher_sign.Prelude.Text.{String}
use cipher_sign.Base.Hex.{hex_to_bytes}
use cipher_sign.Base.Bytes32.{version_to_hex}
use cipher_sign.Base.Framework.{Framework, lookup}

pub record ActionData : Type 0 where
  pub id : Bytes
  pub action_type : Bytes
  pub submission_tag : Bytes
  pub message : Bytes

pub record Action : Type 0 where
  pub action_data : ActionData
  pub additional_variable_messages : List Bytes
  pub timestamps : List ℕ
  pub additional_action_data : Bytes
  pub signatures : List Bytes

pub record DataFixed : Type 0 where
  pub instruction_id : Bytes
  pub tee_id : Bytes
  pub timestamp : ℕ
  pub reward_epoch_id : ℕ
  pub op_type : Bytes
  pub op_command : Bytes
  pub cosigners : List Bytes
  pub cosigners_threshold : ℕ
  pub original_message : Bytes
  pub additional_fixed_message : Bytes
  pub message : Bytes

-- The texts of `result.Log`.
pub data Log (E : Type 0) : Type 0 where
  error_unknown ok_msg pending_msg : Log E
  error_of : E → Log E

pub record ActionResult (E : Type 0) : Type 0 where
  pub id : Bytes
  pub submission_tag : Bytes
  pub status : ℕ
  pub log : Option (Log E)
  pub op_type : Bytes
  pub op_command : Bytes
  pub additional_result_status : Option Bytes
  pub version : Bytes
  pub result_data : Option Bytes

pub record StateResponse : Type 0 where
  pub state_version : Bytes
  pub state : Bytes

-- The three results of a `HandlerFunc`.
pub record HandlerResult (E : Type 0) : Type 0 where
  pub result_data : Option Bytes
  pub status : ℕ
  pub error : Option E

abbrev pub HandlerFunc : Type 0 → Type 0 → Type 0 → Type 0
HandlerFunc V S E = V → S → Bytes → S × HandlerResult E

-- `body` is none where reading it fails.
pub record Request : Type 0 where
  pub path : Bytes
  pub method : Bytes
  pub body : Option Bytes

pub data Response (E : Type 0) : Type 0 where
  http_error : ℕ → String → Response E
  action_result : ActionResult E → Response E
  state_response : StateResponse → Response E

pub record JsonCodec : Type 0 where
  pub unmarshal_action : Bytes → Option Action
  pub unmarshal_data_fixed : Bytes → Option DataFixed

pub record Server (V S E : Type 0) : Type 0 where
  pub ext_port : Bytes
  pub sign_port : Bytes
  pub version : Bytes
  pub version_hex : Bytes
  pub framework : Framework (HandlerFunc V S E)
  pub report_state : S → Bytes

abbrev pub HttpError : Type 0
HttpError = ℕ × String

abbrev pub guard : Bool → HttpError → Result HttpError (Unit {0})
guard true e = ok tt
guard false e = err e

abbrev pub require {ℓ} : {A : Type ℓ} → Option A → HttpError → Result HttpError A
require (some a) e = ok a
require none e = err e

module _ {V S E : Type 0} where
  unfoldable pub new :
      Bytes
      → Bytes
      → Bytes
      → (Framework (HandlerFunc V S E) → Framework (HandlerFunc V S E))
      → (S → Bytes)
      → Server V S E
  new ext_port sign_port version register report_state = record {
    ext_port = ext_port;
    sign_port = sign_port;
    version = version;
    version_hex = version_to_hex version;
    framework = register [];
    report_state = report_state;
  }

  module _ (json : JsonCodec) (srv : Server V S E) where
    -- The guards of `handleAction`, up to the handler that is found.
    unfoldable pub accept : Request → Result HttpError (Action × DataFixed × HandlerFunc V S E)
    accept r = do
      guard (eq_bytes r.method (codes "POST")) (405, "method not allowed")
      body ← require r.body (400, "failed to read body")
      action ← require (json.unmarshal_action body) (400, "invalid action JSON")
      msg ← map_err (λ _. (400, "invalid hex in message")) (hex_to_bytes action.action_data.message)
      df ← require (json.unmarshal_data_fixed msg) (400, "invalid DataFixed JSON in message")
      handler ← require (lookup srv.framework df.op_type df.op_command) (501, "unsupported op type")
      ok (action, df, handler)

    unfoldable pub log_message : HandlerResult E → Log E
    log_message r =
        if r.status == 0
        then elim r.error [ none ↦ error_unknown | some e ↦ error_of e ]
        else if r.status == 1
        then ok_msg
        else pending_msg

    unfoldable pub original_message : DataFixed → Bytes
    original_message df = elim df.original_message [ [] ↦ df.message | x ∷ xs ↦ x ∷ xs ]

    unfoldable pub action_result_of : Action → DataFixed → HandlerResult E → ActionResult E
    unfolding log_message
    action_result_of action df r = record {
      id = action.action_data.id;
      submission_tag = action.action_data.submission_tag;
      status = r.status;
      log = some (log_message r);
      op_type = df.op_type;
      op_command = df.op_command;
      additional_result_status = none;
      version = srv.version_hex;
      result_data = r.result_data;
    }

    unfoldable pub handle_action : V → S → Request → S × Response E
    handle_action v s r = elim (accept r) [
      | err (code, text) ↦ (s, http_error code text)
      | ok (action, df, handler) ↦
          let (s', result) = handler v s (original_message df) in
          (s', action_result (action_result_of action df result))
    ]

    unfoldable pub handle_state : S → Request → S × Response E
    handle_state s r =
        if eq_bytes r.method (codes "GET")
        then (
          s,
          state_response (record { state_version = srv.version_hex; state = srv.report_state s }),
        )
        else (s, http_error 405 "method not allowed")

    -- The routes of `mux`.
    unfoldable pub serve : V → S → Request → S × Response E
    serve v s r =
        if eq_bytes r.path (codes "/action")
        then handle_action v s r
        else if eq_bytes r.path (codes "/state")
        then handle_state s r
        else (s, http_error 404 "404 page not found")
