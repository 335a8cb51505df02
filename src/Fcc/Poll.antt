-- ===== src/Fcc/Poll.antt =====
-- tee/go/tools/pkg/fccutils/tee_calls.go: ActionResult, which asks a proxy for a result again and again.
pub mod Rounds
use cipher_sign.Prelude.{
  ℕ, zero, suc, ◌-◌, ◌/◌, Bool, true, false, not, [], ◌∷◌, Bytes, ◌==◌, if◌then◌else◌, Result, ok,
  err,
}
use cipher_sign.Prelude.Text.{String, concat, itoa}

-- What one GET request gives: an error, or a status and a body.
pub data Reply : Type 0 where
  no_reply : String → Reply
  reply : ℕ → Bytes → Reply

-- Of `types.ActionResponse`, what the tools read.
pub record ActionResponse : Type 0 where
  pub result_status : ℕ
  pub result_log : String
  pub result_data : Bytes

-- The proxy over a world that moves on with each request and each pause of so many seconds;
-- encoding/json of the reply.
pub record Proxy (W : Type 0) : Type 0 where
  pub http_get : String → W → W × Reply
  pub sleep : ℕ → W → W
  pub decode_response : Bytes → Result String ActionResponse

-- `repeats`.
abbrev pub repeats : ℕ
repeats = 15

-- The pause after a request, `2 * time.Second`.
abbrev pub pause : ℕ
pause = 2

unfoldable pub is_ok : Reply → Bool
is_ok (no_reply text) = false
is_ok (reply status body) = status == 200

module _ {W : Type 0} (p : Proxy W) where
  -- One request, and `left` more of them as long as the reply is not 200, each after a pause.
  unfoldable pub poll : ℕ → String → W → W × Reply
  poll zero url w =
      let (w', r) = p.http_get url w in
      elim (is_ok r) [ true ↦ (w', r) | false ↦ (p.sleep pause w', r) ]
  poll (suc left) url w =
      let (w', r) = p.http_get url w in
      elim (is_ok r) [ true ↦ (w', r) | false ↦ poll left url (p.sleep pause w') ]

  unfoldable pub response_of : Reply → Result String ActionResponse
  response_of (no_reply text) = err text
  response_of (reply status body) =
      if not (status == 200)
      then err (concat ("action result status not ok, got: " ∷ itoa status ∷ []))
      else p.decode_response body

  unfoldable pub action_result : String → String → W → W × Result String ActionResponse
  unfolding response_of
  action_result node_url action_id w =
      let (w', r) = poll (repeats - 1) (concat (node_url ∷ "/action/result/" ∷ action_id ∷ [])) w in
      (w', response_of r)
