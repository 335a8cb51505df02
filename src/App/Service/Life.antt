-- ===== src/App/Service/Life.antt =====
-- tee/go/main.go: the history of the service, its key and its signatures.
use cipher_sign.Prelude.{
  ℕ, ◌&&◌, List, [], ◌∷◌, none, some, Bytes, codes, eq_bytes, eq_bytes→eq, eq_bytes_iff, ◌==◌,
  if◌then◌else◌, Bool-cases, Option-cases, ◌≡◌, ◌↔◌, ◌⊎◌, inl, inr, refl, sym, ◌∙◌, arith,
}
use cipher_sign.Base.Framework.{lookup}
use cipher_sign.Base.Server
use mathlib.Core.Path.{subst}
use cipher_sign.Prelude.Text.{String}
use cipher_sign.Base.Server.Accept.{handle_action-cases}
use cipher_sign.Base.Server.{
  JsonCodec, Action, DataFixed, ActionResult, HandlerFunc, HandlerResult, Request, Response,
  http_error, action_result, state_response, HttpError, accept, handle_action, handle_state, serve,
  action_result_of, original_message, new,
}
use cipher_sign.App.Crypto.{Secp256k1}
use cipher_sign.App.Handlers.{
  HttpPost, NodeCodec, HandlerError, State, handle_key_update, handle_key_sign, set_sign_port,
}
use cipher_sign.App.Handlers.Sign.{handle_key_sign-fails_iff}
use cipher_sign.App.Handlers.Update.{handle_key_update-outcome}
use cipher_sign.App.Service.{main, respond, Trace, boot, request}
use cipher_sign.App.Service.Dispatch.{
  key_hex, update_hex, sign_hex, update-ne-sign, lookup-register,
}

-- A response that reports a successful request of one command.
abbrev pub Reports : Bytes → Response HandlerError → Type 0
Reports command (http_error code text) = ⊥
Reports command (action_result a) =
    (a.op_type ≡ key_hex) × (a.op_command ≡ command) × (a.status ≡ 1)
Reports command (state_response a) = ⊥

abbrev pub Any {ℓ} : {A : Type ℓ} → (A → Type 0) → List A → Type 0
Any P [] = ⊥
Any P (x ∷ xs) = P x ⊎ Any P xs

reports? : (command : Bytes) (a : Response HandlerError) → Reports command a ⊎ (¬ Reports command a)
reports? command (http_error code text) = inr (λ x. x)
reports? command (state_response a) = inr (λ x. x)
reports? command (action_result a) =
    elim (Bool-cases
      (eq_bytes a.op_type key_hex && (eq_bytes a.op_command command && a.status == 1))) [
        | inl e ↦ inl (
          ground (arith, eq_bytes_iff a.op_type key_hex),
          ground (arith, eq_bytes_iff a.op_command command),
          ground arith,
        )
        | inr e ↦ inr (λ (p, q, r).
            ground (arith, eq_bytes_iff a.op_type key_hex, eq_bytes_iff a.op_command command))
      ]

-- A choice between two commands of one type, inverted.
two_way :
    {H : Type 0} (K U S t m : Bytes) (f g h : H)
    → (if eq_bytes K t
        then if eq_bytes U m then some f else if eq_bytes S m then some g else none
        else none)
      ≡ some h
    → (t ≡ K) × ((m ≡ U) × (h ≡ f) ⊎ (m ≡ S) × (h ≡ g))
two_way K U S t m f g h p = elim (Bool-cases (eq_bytes K t)) [
  | inr n ↦ absurd (ground arith)
  | inl e ↦ elim (Bool-cases (eq_bytes U m)) [
    | inl u ↦ (sym (eq_bytes→eq K t e), inl (sym (eq_bytes→eq U m u), ground arith))
    | inr u ↦ elim (Bool-cases (eq_bytes S m)) [
      | inl v ↦ (sym (eq_bytes→eq K t e), inr (sym (eq_bytes→eq S m v), ground arith))
      | inr v ↦ absurd (ground arith)
    ]
  ]
]

module _ (c : Secp256k1) (codec : NodeCodec) (json : JsonCodec) (getenv : Bytes → Bytes) where
  abbrev pub HasKey : State c codec → Type 0
  HasKey s = (k : c.PrivateKey) × (s.private_key ≡ some k)

  -- What one request does to the store.
  record Effect (s s' : State c codec) (a : Response HandlerError) : Type 0 where
    stored : Reports update_hex a → HasKey s'
    kept : ¬ Reports update_hex a → s' ≡ s
    signed : Reports sign_hex a → HasKey s

  abbrev srv : Server.Server HttpPost (State c codec) HandlerError
  srv = (main c codec getenv).1

  found-cases :
      (df : DataFixed) (f : HandlerFunc HttpPost (State c codec) HandlerError)
      → lookup srv.framework df.op_type df.op_command ≡ some f
      → (df.op_type ≡ key_hex)
        × ((df.op_command ≡ update_hex) × (f ≡ handle_key_update c codec)
            ⊎ (df.op_command ≡ sign_hex) × (f ≡ handle_key_sign c codec))
  unfolding main new
  found-cases df f h =
      two_way key_hex update_hex sign_hex df.op_type df.op_command (handle_key_update c codec)
        (handle_key_sign c codec) f (sym (lookup-register c codec df.op_type df.op_command) ∙ h)

  Effect-update :
      (post : HttpPost) (s : State c codec) (action : Action) (df : DataFixed) (msg : Bytes)
      → df.op_type ≡ key_hex
      → df.op_command ≡ update_hex
      → Effect s (handle_key_update c codec post s msg).0 (
          action_result
            (action_result_of json srv action df (handle_key_update c codec post s msg).1))
  unfolding action_result_of
  Effect-update post s action df msg t m = elim (handle_key_update-outcome c codec post s msg) [
    | inl (k, a, e) ↦ rw e (record {
      stored = λ r. (k, refl);
      kept = λ n. absurd (n (t, m, refl));
      signed = λ (p, q, r). absurd (update-ne-sign (sym m ∙ q));
    })
    | inr (x, a, e) ↦ rw e (record {
      stored = λ (p, q, r). absurd (omega arith);
      kept = λ n. refl;
      signed = λ (p, q, r). absurd (update-ne-sign (sym m ∙ q));
    })
  ]

  Effect-sign :
      (post : HttpPost) (s : State c codec) (action : Action) (df : DataFixed) (msg : Bytes)
      → df.op_command ≡ sign_hex
      → Effect s (handle_key_sign c codec post s msg).0 (
          action_result
            (action_result_of json srv action df (handle_key_sign c codec post s msg).1))
  unfolding action_result_of
  Effect-sign post s action df msg m =
      let (same, fails) = handle_key_sign-fails_iff c codec post s msg in
      record {
        stored = λ (p, q, r). absurd (update-ne-sign (sym q ∙ m));
        kept = λ n. same;
        signed = λ (p, q, r). elim (Option-cases s.private_key) [
          | inl none_there ↦ let z = fails.1 (inl none_there) in absurd (omega arith)
          | inr (k, e) ↦ (k, e)
        ];
      }

  Effect-refused :
      (s : State c codec) (code : ℕ) (text : String) → Effect s s (http_error code text)
  Effect-refused s code text = record {
    stored = λ r. absurd r;
    kept = λ n. refl;
    signed = λ r. absurd r;
  }

  Effect-action :
      (post : HttpPost) (s : State c codec) (r : Request)
      → Effect s (handle_action json srv post s r).0 (handle_action json srv post s r).1
  Effect-action post s r = elim (handle_action-cases json srv post s r) [
    | inr (code, text, q, e) ↦ rw e (Effect-refused s code text)
    | inl (action, df, f, a, e) ↦
        let msg = original_message json srv df in
        let (t, which) = found-cases df f a.found in
        elim which [
          | inl (m, g) ↦ rw (e, g) (Effect-update post s action df msg t m)
          | inr (m, g) ↦ rw (e, g) (Effect-sign post s action df msg m)
        ]
  ]

  Effect-respond :
      (post : HttpPost) (s : State c codec) (r : Request)
      → Effect s (respond c codec json getenv post s r).0 (respond c codec json getenv post s r).1
  unfolding respond serve handle_state
  Effect-respond post s r = elim (Bool-cases (eq_bytes r.path (codes "/action"))) [
    | inl e ↦ rw e (Effect-action post s r)
    | inr e ↦ elim (Bool-cases (eq_bytes r.path (codes "/state"))) [
      | inr n ↦ rw (e, n) (Effect-refused s 404 "404 page not found")
      | inl n ↦ elim (Bool-cases (eq_bytes r.method (codes "GET"))) [
        | inl g ↦
            rw (e, n, g)
              (record { stored = λ x. absurd x; kept = λ x. refl; signed = λ x. absurd x })
        | inr g ↦ rw (e, n, g) (Effect-refused s 405 "method not allowed")
      ]
    ]
  ]

  Effect-request :
      {s' : State c codec} {a : Response HandlerError} (post : HttpPost) (s : State c codec)
      (r : Request)
      → respond c codec json getenv post s r ≡ (s', a)
      → Effect s s' a
  Effect-request post s r e = subst (λ x. Effect s x.0 x.1) e (Effect-respond post s r)

  keep-or-store :
      {s s' : State c codec} {a : Response HandlerError}
      → Effect s s' a
      → HasKey s'
      → Reports update_hex a ⊎ HasKey s
  keep-or-store {a} f k = elim (reports? update_hex a) [
    | inl u ↦ inl u
    | inr n ↦ inr (subst HasKey (f.kept n) k)
  ]

  keep-key :
      {s s' : State c codec} {a : Response HandlerError} → Effect s s' a → HasKey s → HasKey s'
  keep-key {a} f k = elim (reports? update_hex a) [
    | inl u ↦ f.stored u
    | inr n ↦ subst HasKey (sym (f.kept n)) k
  ]

  key→report :
      {s : State c codec} {h : List (Response HandlerError)}
      → Trace c codec json getenv s h
      → HasKey s
      → Any (Reports update_hex) h
  key→report boot k = unfold main set_sign_port in absurd (cc k.1)
  key→report (request {s} t post r e) k = elim (keep-or-store (Effect-request post s r e) k) [
    | inl u ↦ inl u
    | inr k' ↦ inr (key→report t k')
  ]

  report→key :
      {s : State c codec} {h : List (Response HandlerError)}
      → Trace c codec json getenv s h
      → Any (Reports update_hex) h
      → HasKey s
  report→key boot x = absurd x
  report→key (request {s} t post r e) (inl u) = (Effect-request post s r e).stored u
  report→key (request {s} t post r e) (inr x) =
      keep-key (Effect-request post s r e) (report→key t x)

  -- In every state that the service reaches from its start, it holds a key exactly when some request
  -- before was answered as a successful key update.
  pub has_key_iff :
      {s : State c codec} {h : List (Response HandlerError)}
      → Trace c codec json getenv s h
      → HasKey s ↔ Any (Reports update_hex) h
  has_key_iff t = (key→report t, report→key t)

  -- From every state that the service reaches, a successful signature is reported only if a successful
  -- key update has been reported before.
  pub sign_after_update :
      {s s' : State c codec} {h : List (Response HandlerError)} {a : Response HandlerError}
      → Trace c codec json getenv s h
      → (post : HttpPost) (r : Request) → respond c codec json getenv post s r ≡ (s', a)
      → Reports sign_hex a
      → Any (Reports update_hex) h
  sign_after_update {s} t post r e signed = key→report t ((Effect-request post s r e).signed signed)
