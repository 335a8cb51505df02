-- ===== src/App/Container/Same.antt =====
-- tee/go/cmd/docker/main.go and tee/go/main.go: the two entry points.
use cipher_sign.Prelude.{[], ◌∷◌, Option, some, Bytes, codes, ◌≡◌, ◌≢◌, refl}
use cipher_sign.App.Crypto.{Secp256k1}
use cipher_sign.App.Handlers.{NodeCodec}
use cipher_sign.App.Service.{env_or, main}
use cipher_sign.App.Container.{int_env, container_main}

-- The variable holds the print of a number.
abbrev pub HoldsNumber : (Bytes → Option Bytes) → (Bytes → Bytes) → Bytes → Type 0
HoldsNumber atoi getenv key = (getenv key ≢ []) × (atoi (getenv key) ≡ some (getenv key))

same_port :
    (atoi : Bytes → Option Bytes) (getenv : Bytes → Bytes) (key f g : Bytes)
    → HoldsNumber atoi getenv key
    → int_env atoi getenv key f ≡ env_or getenv key g
unfolding int_env env_or
same_port atoi getenv key f g (set, number) = rw (number, int_env) (filled (getenv key) set)
  where
    filled : (v : Bytes) → v ≢ [] → v ≡ elim v [ [] ↦ g | x ∷ xs ↦ x ∷ xs ]
    filled [] h = absurd (h refl)
    filled (x ∷ xs) h = refl

number_port :
    (atoi : Bytes → Option Bytes) (getenv : Bytes → Bytes) (key f : Bytes)
    → HoldsNumber atoi getenv key
    → int_env atoi getenv key f ≡ getenv key
unfolding int_env
number_port atoi getenv key f (set, number) = rw (number, int_env) refl

module _ (c : Secp256k1) (codec : NodeCodec) where
  -- With EXTENSION_PORT and SIGN_PORT set to numbers as they are printed, the container starts the
  -- extension in the same state and with the same server as the program of its own does, and tells
  -- the TEE node the two ports of that server.
  pub container_main-main :
      (atoi : Bytes → Option Bytes) (getenv : Bytes → Bytes)
      → HoldsNumber atoi getenv (codes "EXTENSION_PORT")
      → HoldsNumber atoi getenv (codes "SIGN_PORT")
      → ((container_main c codec atoi getenv).1 ≡ main c codec getenv)
        × ((container_main c codec atoi getenv).0 ≡ (
          int_env atoi getenv (codes "CONFIG_PORT") (codes "5502"),
          getenv (codes "SIGN_PORT"),
          getenv (codes "EXTENSION_PORT"),
        ))
  unfolding container_main main
  container_main-main atoi getenv ext sign = (
    rw
        (
          same_port atoi getenv (codes "SIGN_PORT") (codes "8882") (codes "9090") sign,
          same_port atoi getenv (codes "EXTENSION_PORT") (codes "8883") (codes "8080") ext,
        )
        refl,
    rw
        (
          number_port atoi getenv (codes "SIGN_PORT") (codes "8882") sign,
          number_port atoi getenv (codes "EXTENSION_PORT") (codes "8883") ext,
        )
        refl,
  )
