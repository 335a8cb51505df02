-- ===== src/App/Service.antt =====
-- tee/go/main.go: the server of internal/base with the handlers of internal/app, and its life from
-- the start: requests one after the other, since a handler runs under the mutex.
pub mod Dispatch
pub mod Life
use cipher_sign.Prelude.{List, [], ◌∷◌, none, Bytes, codes, ◌≡◌}
use cipher_sign.Base.Server
use cipher_sign.Base.Server.{JsonCodec, Request, Response, new, serve}
use cipher_sign.App.Crypto.{Secp256k1}
use cipher_sign.App.Handlers.{
  HttpPost, NodeCodec, HandlerError, State, version, register, report_state, set_sign_port,
}

-- An environment variable, or the default where it is empty.
unfoldable pub env_or : (Bytes → Bytes) → Bytes → Bytes → Bytes
env_or getenv key fallback = elim (getenv key) [ [] ↦ fallback | x ∷ xs ↦ x ∷ xs ]

module _ (c : Secp256k1) (codec : NodeCodec) where
  -- `main`, up to `ListenAndServe`: the state of the package and the server.
  unfoldable pub main :
      (Bytes → Bytes) → State c codec × Server.Server HttpPost (State c codec) HandlerError
  main getenv =
      let ext_port = env_or getenv (codes "EXTENSION_PORT") (codes "8080") in
      let sign_port = env_or getenv (codes "SIGN_PORT") (codes "9090") in
      let start : State c codec = record { private_key = none; sign_port = [] } in
      (
        set_sign_port c codec sign_port start,
        new ext_port sign_port version (register c codec) (report_state c codec),
      )

module _ (c : Secp256k1) (codec : NodeCodec) (json : JsonCodec) (getenv : Bytes → Bytes) where
  -- One request to the running service.
  unfoldable pub respond :
      HttpPost → State c codec → Request → State c codec × Response HandlerError
  respond post s r = serve json (main c codec getenv).1 post s r

  -- The states that the service reaches, with the responses so far, the newest first.
  pub data Trace : State c codec → List (Response HandlerError) → Type 0 where
    boot : Trace (main c codec getenv).0 []
    request :
        {s s' : State c codec} {h : List (Response HandlerError)} {a : Response HandlerError}
        → Trace s h
        → (post : HttpPost) (r : Request) → respond post s r ≡ (s', a)
        → Trace s' (a ∷ h)
