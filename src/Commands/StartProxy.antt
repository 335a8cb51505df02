-- ===== src/Commands/StartProxy.antt =====
-- tee/go/tools/cmd/start-proxy/main.go: what the command does
-- around the server of the proxy, which is a library and a parameter.
pub mod Loaded
use cipher_sign.Prelude.{Bool, List, [], ◌∷◌, ◌++◌, Bytes, Result, ok, err}
use cipher_sign.Prelude.Text.{String, concat}
use cipher_sign.Prelude.Runs.{Run, ◌>>=◌, on_error, lift, pure}
use cipher_sign.Fcc.Identity.{Identities}
use cipher_sign.Fcc.TeeCalls.{Node, get_tee_proxy_id}
use cipher_sign.Commands.StartTee.{Env, Dotenv, load_env, find_proxy_config}

module _ {W : Type 0} (node : Node W) (ids : Identities) (hex : Bytes → String) where
  -- The line of the ids; `external_port` is the reading of the configuration file.
  unfoldable pub log_proxy_and_tee_ids :
      (String → Result String String) → String → Run W String String
  log_proxy_and_tee_ids external_port config_file = do
    port ←
        on_error (lift (external_port config_file))
          (λ text. concat ("failed to read proxy config: " ∷ text ∷ []))
    (tee_id, proxy_id) ←
        on_error (get_tee_proxy_id node ids (concat ("http://localhost:" ∷ port ∷ [])))
          (λ text. concat ("failed to extract teeID and proxyID: " ∷ text ∷ []))
    pure (concat ("Proxy started - TeeID: " ∷ hex tee_id ∷ ", ProxyID: " ∷ hex proxy_id ∷ []))

  -- A failure to tell the ids is a warning.
  abbrev pub id_lines : W × Result String String → W × List String
  id_lines (w, ok line) = (w, line ∷ [])
  id_lines (w, err text) = (w, concat ("Failed to log proxy and tee IDs: " ∷ text ∷ []) ∷ [])

  abbrev pub behind : List String → W × List String → W × List String
  behind lines (w, more) = (w, lines ++ more)

  -- `main` up to the wait for a signal; `init` starts the proxy with the file of its configuration.
  unfoldable pub start_proxy :
      Dotenv
      → (List String → String)
      → (String → Bool)
      → (Env → String → W → W)
      → (String → Result String String)
      → Env
      → W
      → W × List String
  unfolding log_proxy_and_tee_ids
  start_proxy dotenv join has_file init external_port env w =
      let (loaded, warnings) = load_env dotenv (join (".env" ∷ [])) env in
      let config = find_proxy_config loaded join has_file in
      behind (warnings ++ ("Started extension proxy" ∷ []))
        (id_lines (log_proxy_and_tee_ids external_port config (init loaded config w)))
