-- ===== src/App/Container.antt =====
-- tee/go/cmd/docker/main.go: the ports of the container, and the server that it starts beside the TEE node,
-- which is a library of its own.
pub mod Same
use cipher_sign.Prelude.{[], Option, none, some, Bytes, codes}
use cipher_sign.Base.Server as Server
use cipher_sign.Base.Server.{new}
use cipher_sign.App.Crypto.{Secp256k1}
use cipher_sign.App.Handlers.{
  HttpPost, NodeCodec, HandlerError, State, version, register, report_state, set_sign_port,
}

-- The variable as `strconv.Atoi` reads it, or the fallback; `atoi` gives the print of the number by
-- `strconv.Itoa`, which is what becomes of a port here.
unfoldable pub int_env : (Bytes → Option Bytes) → (Bytes → Bytes) → Bytes → Bytes → Bytes
int_env atoi getenv key fallback = elim (atoi (getenv key)) [ none ↦ fallback | some v ↦ v ]

module _ (c : Secp256k1) (codec : NodeCodec) where
  -- The ports of the TEE node, and the state and the server of the extension.
  unfoldable pub container_main :
      (Bytes → Option Bytes)
      → (Bytes → Bytes)
      → (Bytes × Bytes × Bytes)
        × (State c codec × Server.Server HttpPost (State c codec) HandlerError)
  unfolding int_env
  container_main atoi getenv =
      let config_port = int_env atoi getenv (codes "CONFIG_PORT") (codes "5502") in
      let sign_port = int_env atoi getenv (codes "SIGN_PORT") (codes "8882") in
      let extension_port = int_env atoi getenv (codes "EXTENSION_PORT") (codes "8883") in
      let start : State c codec = record { private_key = none; sign_port = [] } in
      (
        (config_port, sign_port, extension_port),
        (
          set_sign_port c codec sign_port start,
          new extension_port sign_port version (register c codec) (report_state c codec),
        ),
      )
