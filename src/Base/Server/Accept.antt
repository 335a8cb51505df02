-- ===== src/Base/Server/Accept.antt =====
-- tee/go/internal/base/server.go: which requests of handleAction reach a handler.
use cipher_sign.Prelude.{
  ℕ, Bool, true, false, [], ◌∷◌, Option, none, some, Bytes, codes, Bool-cases, ◌==◌, ==_iff,
  eq_bytes, eq_bytes_iff, ok, err, Result-cases, Option-cases, ◌≡◌, ◌≢◌, ◌⊎◌, inl, inr, refl, arith,
}
use cipher_sign.Prelude.Text.{String}
use cipher_sign.Base.Hex.{HexError, hex_to_bytes}
use cipher_sign.Base.Framework.{lookup}
use cipher_sign.Base.Server.{
  JsonCodec, Action, DataFixed, HandlerFunc, Request, Server, HttpError, guard, require, accept,
  handle_action, http_error, action_result, action_result_of, original_message, log_message,
  HandlerResult, ActionResult, Log, error_unknown, error_of, ok_msg, pending_msg,
}

guard-cases :
    (b : Bool) (e : HttpError)
    → (b ≡ true) × (guard b e ≡ ok tt) ⊎ (b ≡ false) × (guard b e ≡ err e)
guard-cases true e = inl (refl, refl)
guard-cases false e = inr (refl, refl)

require-cases {ℓ} :
    {A : Type ℓ} (o : Option A) (e : HttpError)
    → ((a : A) × (o ≡ some a) × (require o e ≡ ok a)) ⊎ (o ≡ none) × (require o e ≡ err e)
require-cases none e = inr (refl, refl)
require-cases (some a) e = inl (a, refl, refl)

module _ {V S E : Type 0} (json : JsonCodec) (srv : Server V S E) where
  -- The request passes every guard of `handleAction`.
  pub record Accepts (r : Request) (action : Action) (df : DataFixed) (f : HandlerFunc V S E)
      : Type 0 where
    pub posted : r.method ≡ codes "POST"
    pub body : Bytes
    pub body_read : r.body ≡ some body
    pub action_read : json.unmarshal_action body ≡ some action
    pub inner : Bytes
    pub inner_read : hex_to_bytes action.action_data.message ≡ ok inner
    pub fixed_read : json.unmarshal_data_fixed inner ≡ some df
    pub found : lookup srv.framework df.op_type df.op_command ≡ some f

  -- The first guard that fails, with its status.
  pub data Refuses (r : Request) : ℕ → String → Type 0 where
    not_posted : r.method ≢ codes "POST" → Refuses r 405 "method not allowed"
    unreadable : r.method ≡ codes "POST" → r.body ≡ none → Refuses r 400 "failed to read body"
    bad_action :
        (body : Bytes)
        → r.method ≡ codes "POST"
        → r.body ≡ some body
        → json.unmarshal_action body ≡ none
        → Refuses r 400 "invalid action JSON"
    bad_hex :
        (body : Bytes) (action : Action) (e : HexError)
        → r.method ≡ codes "POST"
        → r.body ≡ some body
        → json.unmarshal_action body ≡ some action
        → hex_to_bytes action.action_data.message ≡ err e
        → Refuses r 400 "invalid hex in message"
    bad_fixed :
        (body : Bytes) (action : Action) (inner : Bytes)
        → r.method ≡ codes "POST"
        → r.body ≡ some body
        → json.unmarshal_action body ≡ some action
        → hex_to_bytes action.action_data.message ≡ ok inner
        → json.unmarshal_data_fixed inner ≡ none
        → Refuses r 400 "invalid DataFixed JSON in message"
    unsupported :
        (body : Bytes) (action : Action) (inner : Bytes) (df : DataFixed)
        → r.method ≡ codes "POST"
        → r.body ≡ some body
        → json.unmarshal_action body ≡ some action
        → hex_to_bytes action.action_data.message ≡ ok inner
        → json.unmarshal_data_fixed inner ≡ some df
        → lookup srv.framework df.op_type df.op_command ≡ none
        → Refuses r 501 "unsupported op type"

  abbrev pub Outcome : Request → Type 0
  Outcome r =
      ((action : Action) × (df : DataFixed) × (f : HandlerFunc V S E) × Accepts r action df f
        × (accept json srv r ≡ ok (action, df, f)))
      ⊎ ((code : ℕ) × (text : String) × Refuses r code text
          × (accept json srv r ≡ err (code, text)))

  -- A posted message that decodes is accepted if the framework has a handler for it.
  fixed-cases :
      (r : Request) (body : Bytes) (action : Action) (inner : Bytes)
      → r.method ≡ codes "POST"
      → r.body ≡ some body
      → json.unmarshal_action body ≡ some action
      → hex_to_bytes action.action_data.message ≡ ok inner
      → Outcome r
  unfolding accept
  fixed-cases r body action inner m b a h =
      let posted = (eq_bytes_iff r.method (codes "POST")).1 m in
      elim (Option-cases (json.unmarshal_data_fixed inner)) [
        | inl n ↦ inr (
          400,
          "invalid DataFixed JSON in message",
          bad_fixed body action inner m b a h n,
          rw (posted, b, a, h, n),
        )
        | inr (df, d) ↦ elim (Option-cases (lookup srv.framework df.op_type df.op_command)) [
          | inl n ↦ inr (
            501,
            "unsupported op type",
            unsupported body action inner df m b a h d n,
            rw (posted, b, a, h, d, n),
          )
          | inr (f, l) ↦ inl (
            action,
            df,
            f,
            record {
              posted = m;
              body = body;
              body_read = b;
              action_read = a;
              inner = inner;
              inner_read = h;
              fixed_read = d;
              found = l;
            },
            rw (posted, b, a, h, d, l),
          )
        ]
      ]

  -- Every request is accepted with all that this needs, or refused by the first guard that fails.
  pub accept-cases : (r : Request) → Outcome r
  unfolding accept
  accept-cases r =
      elim (guard-cases (eq_bytes r.method (codes "POST")) (405, "method not allowed")) [
        | inr (m, g) ↦ inr (
          405,
          "method not allowed",
          not_posted (λ e. ground (arith, eq_bytes_iff r.method (codes "POST"))),
          rw g,
        )
        | inl (m, g) ↦
            let post = (eq_bytes_iff r.method (codes "POST")).0 m in
            elim (Option-cases r.body) [
              | inl n ↦ inr (400, "failed to read body", unreadable post n, rw (m, n))
              | inr (body, b) ↦ elim (Option-cases (json.unmarshal_action body)) [
                | inl n ↦ inr (400, "invalid action JSON", bad_action body post b n, rw (m, b, n))
                | inr (action, a) ↦ elim (Result-cases (hex_to_bytes action.action_data.message)) [
                  | inr (e, h) ↦ inr (
                    400,
                    "invalid hex in message",
                    bad_hex body action e post b a h,
                    rw (m, b, a, h),
                  )
                  | inl (inner, h) ↦ fixed-cases r body action inner post b a h
                ]
              ]
            ]
      ]

  -- The original message, or the message where the original one is empty.
  abbrev pub IsMessage : DataFixed → Bytes → Type 0
  IsMessage df msg =
      (df.original_message ≢ []) × (msg ≡ df.original_message)
      ⊎ (df.original_message ≡ []) × (msg ≡ df.message)

  -- The line of the log that belongs to a status and an error.
  abbrev pub LogOf : ℕ → Option E → Option (Log E) → Type 0
  LogOf status error log =
      (status ≡ 0) × (error ≡ none) × (log ≡ some error_unknown)
      ⊎ (status ≡ 0) × ((e : E) × (error ≡ some e) × (log ≡ some (error_of e)))
      ⊎ (status ≡ 1) × (log ≡ some ok_msg)
      ⊎ (status ≢ 0) × (status ≢ 1) × (log ≡ some pending_msg)

  -- The answer has the handler's result, and the identifiers of the request.
  pub record Answers (action : Action) (df : DataFixed) (r : HandlerResult E) (res : ActionResult E)
      : Type 0 where
    pub own_id : res.id ≡ action.action_data.id
    pub own_tag : res.submission_tag ≡ action.action_data.submission_tag
    pub own_type : res.op_type ≡ df.op_type
    pub own_command : res.op_command ≡ df.op_command
    pub its_status : res.status ≡ r.status
    pub its_data : res.result_data ≡ r.result_data
    pub its_log : LogOf r.status r.error res.log
    pub its_version : res.version ≡ srv.version_hex
    pub no_additional : res.additional_result_status ≡ none

  IsMessage-or :
      (xs ys : Bytes)
      → (xs ≢ []) × (elim xs [ [] ↦ ys | z ∷ zs ↦ z ∷ zs ] ≡ xs)
        ⊎ (xs ≡ []) × (elim xs [ [] ↦ ys | z ∷ zs ↦ z ∷ zs ] ≡ ys)
  IsMessage-or [] ys = inr (refl, refl)
  IsMessage-or (x ∷ xs) ys = inl (λ e. absurd (cc e), refl)

  original_message-IsMessage : (df : DataFixed) → IsMessage df (original_message json srv df)
  unfolding original_message
  original_message-IsMessage df = IsMessage-or df.original_message df.message

  log_message-LogOf : (r : HandlerResult E) → LogOf r.status r.error (some (log_message json srv r))
  unfolding log_message
  log_message-LogOf r = elim (Bool-cases (r.status == 0)) [
    | inl t ↦
        let z = (==_iff r.status 0).0 t in
        elim (Option-cases r.error) [
          | inl n ↦ rw (t, n, log_message) (inl (z, refl, refl))
          | inr (e, p) ↦ rw (t, p, log_message) (inr (inl (z, (e, refl, refl))))
        ]
    | inr f ↦ elim (Bool-cases (r.status == 1)) [
      | inl t ↦ rw (f, t, log_message) (inr (inr (inl ((==_iff r.status 1).0 t, refl))))
      | inr g ↦
          rw (f, g, log_message) (inr (inr (inr ((λ e. ground arith), (λ e. ground arith), refl))))
    ]
  ]

  action_result_of-Answers :
      (action : Action) (df : DataFixed) (r : HandlerResult E)
      → Answers action df r (action_result_of json srv action df r)
  unfolding action_result_of
  action_result_of-Answers action df r = record {
    own_id = refl;
    own_tag = refl;
    own_type = refl;
    own_command = refl;
    its_status = refl;
    its_data = refl;
    its_log = log_message-LogOf r;
    its_version = refl;
    no_additional = refl;
  }

  -- The same of the handler and its results.
  pub handle_action-cases :
      (v : V) (s : S) (r : Request)
      → ((action : Action) × (df : DataFixed) × (f : HandlerFunc V S E) × Accepts r action df f
          × (handle_action json srv v s r ≡ (
            (f v s (original_message json srv df)).0,
            action_result
                (action_result_of json srv action df (f v s (original_message json srv df)).1),
          )))
        ⊎ ((code : ℕ) × (text : String) × Refuses r code text
            × (handle_action json srv v s r ≡ (s, http_error code text)))
  unfolding handle_action
  handle_action-cases v s r = elim (accept-cases r) [
    | inl (action, df, f, a, p) ↦ inl (action, df, f, a, rw (p, handle_action))
    | inr (code, text, q, p) ↦ inr (code, text, q, rw (p, handle_action))
  ]

  -- An action request that passes every guard runs the handler that is found for its operation once,
  -- on its original message or, where that is empty, on its message; the answer has that handler's
  -- status and data, the log that belongs to them, the version of the server, the id and submission
  -- tag of the action and the type and command of the message. Any other leaves the state alone and
  -- is answered with the error of the first guard that fails.
  pub handle_action-outcome :
      (v : V) (s : S) (r : Request)
      → ((action : Action) × (df : DataFixed) × (f : HandlerFunc V S E) × (msg : Bytes)
          × (res : ActionResult E) × Accepts r action df f
          × IsMessage df msg
          × Answers action df (f v s msg).1 res
          × (handle_action json srv v s r ≡ ((f v s msg).0, action_result res)))
        ⊎ ((code : ℕ) × (text : String) × Refuses r code text
            × (handle_action json srv v s r ≡ (s, http_error code text)))
  handle_action-outcome v s r = elim (handle_action-cases v s r) [
    | inl (action, df, f, a, p) ↦
        let msg = original_message json srv df in
        inl (
          action,
          df,
          f,
          msg,
          action_result_of json srv action df (f v s msg).1,
          a,
          original_message-IsMessage df,
          action_result_of-Answers action df (f v s msg).1,
          p,
        )
    | inr (code, text, q, p) ↦ inr (code, text, q, p)
  ]
