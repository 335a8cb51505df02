-- ===== src/Fcc/Poll/Rounds.antt =====
-- tee/go/tools/pkg/fccutils/tee_calls.go: the rounds of ActionResult.
use cipher_sign.Prelude.{ℕ, zero, suc, ◌≤◌, ◌<◌, true, false, [], ◌∷◌, Bytes, err, ◌≡◌, refl, arith}
use cipher_sign.Prelude.Text.{String, concat, itoa}
use cipher_sign.Fcc.Poll.{Reply, no_reply, reply, Proxy, is_ok, poll, response_of, action_result}

module _ {W : Type 0} (p : Proxy W) where
  -- The world of the round `k`, after as many requests, each with a pause of two seconds behind it.
  abbrev pub round_world : String → ℕ → W → W
  round_world url zero w = w
  round_world url (suc k) w = round_world url k (p.sleep 2 (p.http_get url w).0)

  -- The reply of that round.
  abbrev pub round_reply : String → ℕ → W → Reply
  round_reply url k w = (p.http_get url (round_world url k w)).1

  poll-first :
      (k left : ℕ) (url : String) (w : W)
      → k ≤ left
      → ((j : ℕ) → j < k → is_ok (round_reply url j w) ≡ false)
      → is_ok (round_reply url k w) ≡ true
      → poll p left url w ≡ p.http_get url (round_world url k w)
  unfolding poll
  poll-first zero zero url w h no_ok good = rw (good, poll) refl
  poll-first zero (suc left) url w h no_ok good = rw (good, poll) refl
  poll-first (suc k) zero url w h no_ok good = absurd (omega arith)
  poll-first (suc k) (suc left) url w h no_ok good =
      rw (no_ok 0 (omega arith), poll)
        (poll-first k left url (p.sleep 2 (p.http_get url w).0) (omega arith)
          (λ j q. no_ok (suc j) (omega arith)) good)

  poll-none :
      (left : ℕ) (url : String) (w : W)
      → ((j : ℕ) → j ≤ left → is_ok (round_reply url j w) ≡ false)
      → poll p left url w ≡ (round_world url (suc left) w, round_reply url left w)
  unfolding poll
  poll-none zero url w no_ok = rw (no_ok 0 (omega arith), poll) refl
  poll-none (suc left) url w no_ok =
      rw (no_ok 0 (omega arith), poll)
        (poll-none left url (p.sleep 2 (p.http_get url w).0) (λ j q. no_ok (suc j) (omega arith)))

  response_of-fails : (r : Reply) → is_ok r ≡ false → (text : String) × (response_of p r ≡ err text)
  unfolding response_of is_ok
  response_of-fails (no_reply text) h = (text, refl)
  response_of-fails (reply status body) h =
      (concat ("action result status not ok, got: " ∷ itoa status ∷ []), rw h refl)

  abbrev pub result_url : String → String → String
  result_url node_url action_id = concat (node_url ∷ "/action/result/" ∷ action_id ∷ [])

  -- If one of the first fifteen requests, with a pause of two seconds between one and the next, is
  -- answered with 200, then no later one and no further pause is made, and the result is what the body
  -- of the first such answer decodes to.
  pub action_result-first :
      (node_url action_id : String) (w : W) (k : ℕ) (body : Bytes)
      → k < 15
      → ((j : ℕ) → j < k → is_ok (round_reply (result_url node_url action_id) j w) ≡ false)
      → round_reply (result_url node_url action_id) k w ≡ reply 200 body
      → action_result p node_url action_id w ≡ (
        (p.http_get
            (result_url node_url action_id)
            (round_world (result_url node_url action_id) k w)).0,
        p.decode_response body,
      )
  unfolding action_result response_of is_ok
  action_result-first node_url action_id w k body h no_ok good =
      let url = result_url node_url action_id in
      rw (poll-first k 14 url w (omega arith) no_ok (rw good refl), good) refl

  -- If none of the first fifteen requests, each with a pause of two seconds behind it, is answered with
  -- 200, the call ends after them with an error.
  pub action_result-none :
      (node_url action_id : String) (w : W)
      → ((j : ℕ) → j < 15 → is_ok (round_reply (result_url node_url action_id) j w) ≡ false)
      → (text : String) × (action_result p node_url action_id w
          ≡ (round_world (result_url node_url action_id) 15 w, err text))
  unfolding action_result
  action_result-none node_url action_id w no_ok =
      let url = result_url node_url action_id in
      let (text, q) = response_of-fails (round_reply url 14 w) (no_ok 14 (omega arith)) in
      (text, rw (poll-none 14 url w (λ j q. no_ok j (omega arith)), q) refl)
