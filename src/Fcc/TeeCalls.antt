-- ===== src/Fcc/TeeCalls.antt =====
-- tee/go/tools/pkg/fccutils/tee_calls.go and common.go: what a tool asks of a proxy and what it sets on a
-- TEE. HTTP and the JSON of the bodies are the record Node.
use cipher_sign.Prelude.{ℕ, [], ◌∷◌, Bytes, ◌==◌, if◌then◌else◌, Result, ok, err}
use cipher_sign.Prelude.Text.{String, concat, itoa}
use cipher_sign.Prelude.Runs.{Run, ◌>>=◌, lift}
use cipher_sign.Fcc.Poll.{Reply, no_reply, reply}
use cipher_sign.Fcc.Identity.{Identities, tee_proxy_id}
use cipher_sign.Fcc.Transactions.{TeeInfo}

-- The requests that configure a TEE.
pub data Setting : Type 0 where
  set_url : String → Setting
  set_owner : Bytes → Setting
  set_id : Bytes → Setting

-- HTTP over a world that moves on with each request, and encoding/json of the bodies.
pub record Node (W : Type 0) : Type 0 where
  pub http_get : String → W → W × Reply
  pub http_post : String → Bytes → W → W × Reply
  pub decode_tee_info : Bytes → Result String TeeInfo
  pub marshal_setting : Setting → Result String Bytes

module _ {W : Type 0} (x : Node W) where
  -- A body is decoded whatever the status.
  abbrev pub info_of : Reply → Result String TeeInfo
  info_of (no_reply text) = err text
  info_of (reply status body) = x.decode_tee_info body

  abbrev pub with_info : W × Reply → W × Result String TeeInfo
  with_info (w, r) = (w, info_of r)

  unfoldable pub tee_info : String → Run W String TeeInfo
  tee_info node_url w = with_info (x.http_get (concat (node_url ∷ "/info" ∷ [])) w)

  unfoldable pub get_tee_proxy_id : Identities → String → Run W String (Bytes × Bytes)
  unfolding tee_info
  get_tee_proxy_id ids url = do info ← tee_info url; lift (tee_proxy_id ids info)

  abbrev pub accepted : W × Reply → W × Result String (Unit {0})
  accepted (w, no_reply text) = (w, err text)
  accepted (w, reply status body) =
      if status == 200
      then (w, ok tt)
      else (w, err (concat ("unexpected status code: " ∷ itoa status ∷ [])))

  -- The body that the three setters share.
  unfoldable pub configure : String → ℕ → Setting → Run W String (Unit {0})
  configure path configuration_port setting = do
    body ← lift (x.marshal_setting setting)
    λ w.
        accepted
          (x.http_post (concat ("http://localhost:" ∷ itoa configuration_port ∷ path ∷ [])) body w)

  unfoldable pub set_proxy_url : ℕ → ℕ → Run W String (Unit {0})
  unfolding configure
  set_proxy_url configuration_port proxy_port =
      configure "/proxy" configuration_port
        (set_url (concat ("http://localhost:" ∷ itoa proxy_port ∷ [])))

  unfoldable pub set_initial_owner : ℕ → Bytes → Run W String (Unit {0})
  unfolding configure
  set_initial_owner configuration_port owner_address =
      configure "/initial-owner" configuration_port (set_owner owner_address)

  unfoldable pub set_extension_id_of : ℕ → Bytes → Run W String (Unit {0})
  unfolding configure
  set_extension_id_of configuration_port id =
      configure "/extension-id" configuration_port (set_id id)
