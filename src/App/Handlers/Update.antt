-- ===== src/App/Handlers/Update.antt =====
-- tee/go/internal/app/handlers.go: handleKeyUpdate and decryptViaNode.
use cipher_sign.Prelude.{
  ℕ, [], ◌∷◌, ◌++◌, none, some, Bytes, codes, ok, err, Result-cases, Option-cases, ◌≡◌, ◌≢◌, ◌↔◌,
  ◌⊎◌, inl, inr, refl, ap, arith,
}
use cipher_sign.Base.Hex.{HexError, hex_to_bytes}
use cipher_sign.App.Crypto.{Secp256k1, KeyError, parse_secp256k1_private_key}
use cipher_sign.App.Handlers.{
  HttpPost, PostResult, request_failed, responded, NodeCodec, DecryptError, HandlerError, State,
  decrypt_reply, decrypt_via_node, decrypted_key, handle_key_update, empty_message, invalid_hex,
  decryption_failed, invalid_private_key,
}

module _ (c : Secp256k1) (codec : NodeCodec) where
  decrypt_reply-ok :
      (status : ℕ) (text plain : Bytes)
      → decrypt_reply c codec (responded status text) ≡ ok plain
      → (status ≡ 200)
        × (codec.decode_decrypt_response text ≡ some (record { decrypted_message = plain }))
  unfolding decrypt_reply
  decrypt_reply-ok status text plain h = elim (Option-cases (codec.decode_decrypt_response text)) [
    | inl n ↦ absurd (ground arith)
    | inr (r, e) ↦ (ground arith, ground arith)
  ]

  decrypt_reply_iff :
      (p : PostResult) (plain : Bytes)
      → (decrypt_reply c codec p ≡ ok plain) ↔ (
          (text : Bytes) × (p ≡ responded 200 text)
          × (codec.decode_decrypt_response text ≡ some (record { decrypted_message = plain })))
  decrypt_reply_iff request_failed plain =
      unfold decrypt_reply in (λ h. absurd (cc), λ (text, p, q). absurd (cc))
  decrypt_reply_iff (responded status text) plain = (
    λ h.
        let (e, d) = decrypt_reply-ok status text plain h in
        (text, ap (λ n. responded n text) e, d),
    λ (text', p, q). unfold decrypt_reply in ground arith,
  )

  -- A plaintext is what the node at the sign port's /decrypt answers with status 200 and a reply
  -- that decodes, and every plaintext comes so.
  pub decrypt_via_node_iff :
      (post : HttpPost) (port ct plain : Bytes)
      → (decrypt_via_node c codec post port ct ≡ ok plain) ↔ (
          (text : Bytes) × (post
              (codes "http://localhost:" ++ (port ++ codes "/decrypt"))
              (codec.marshal_decrypt_request (record { encrypted_message = ct }))
            ≡ responded 200 text)
          × (codec.decode_decrypt_response text ≡ some (record { decrypted_message = plain })))
  unfolding decrypt_via_node
  decrypt_via_node_iff post port ct plain =
      decrypt_reply_iff
        (post (codes "http://localhost:" ++ (port ++ codes "/decrypt"))
          (codec.marshal_decrypt_request (record { encrypted_message = ct })))
        plain

  -- Why a request stores no key.
  abbrev pub Refused : HttpPost → Bytes → Bytes → HandlerError → Type 0
  Refused post port msg e =
      (msg ≡ []) × (e ≡ empty_message)
      ⊎ ((h : HexError) × (hex_to_bytes msg ≡ err h) × (e ≡ invalid_hex h))
      ⊎ ((ct : Bytes) × (d : DecryptError) × (hex_to_bytes msg ≡ ok ct)
          × (decrypt_via_node c codec post port ct ≡ err d)
          × (e ≡ decryption_failed d))
      ⊎ ((ct : Bytes) × (plain : Bytes) × (k : KeyError) × (hex_to_bytes msg ≡ ok ct)
          × (decrypt_via_node c codec post port ct ≡ ok plain)
          × (parse_secp256k1_private_key c plain ≡ err k)
          × (e ≡ invalid_private_key k))

  -- A request that stores the key `k`.
  abbrev pub Accepted : HttpPost → Bytes → Bytes → c.PrivateKey → Type 0
  Accepted post port msg k =
      (ct : Bytes) × (plain : Bytes) × (msg ≢ [])
      × (hex_to_bytes msg ≡ ok ct)
      × (decrypt_via_node c codec post port ct ≡ ok plain)
      × (parse_secp256k1_private_key c plain ≡ ok k)

  decrypted_key-cases :
      (post : HttpPost) (port msg : Bytes)
      → ((k : c.PrivateKey) × (decrypted_key c codec post port msg ≡ ok k)
          × Accepted post port msg k)
        ⊎ ((e : HandlerError) × (decrypted_key c codec post port msg ≡ err e)
            × Refused post port msg e)
  unfolding decrypted_key
  decrypted_key-cases post port [] = inr (empty_message, refl, inl (refl, refl))
  decrypted_key-cases post port (x ∷ msg) = elim (Result-cases (hex_to_bytes (x ∷ msg))) [
    | inr (h, p) ↦ inr (invalid_hex h, rw p, inr (inl (h, p, refl)))
    | inl (ct, p) ↦ elim (Result-cases (decrypt_via_node c codec post port ct)) [
      | inr (d, q) ↦ inr (decryption_failed d, rw (p, q), inr (inr (inl (ct, d, p, q, refl))))
      | inl (plain, q) ↦ elim (Result-cases (parse_secp256k1_private_key c plain)) [
        | inr (k, r) ↦
            inr (invalid_private_key k, rw (p, q, r), inr (inr (inr (ct, plain, k, p, q, r, refl))))
        | inl (k, r) ↦ inl (k, rw (p, q, r), (ct, plain, (λ e. cc), p, q, r))
      ]
    ]
  ]

  -- A key request either stores the key that the node decrypted and the parser accepted, changing
  -- nothing else, and answers 1; or it changes nothing and answers 0 with the error of the first
  -- step that failed.
  pub handle_key_update-outcome :
      (post : HttpPost) (s : State c codec) (msg : Bytes)
      → ((k : c.PrivateKey) × Accepted post s.sign_port msg k
          × (handle_key_update c codec post s msg ≡ (
            record s { private_key = some k },
            record { result_data = none; status = 1; error = none },
          )))
        ⊎ ((e : HandlerError) × Refused post s.sign_port msg e
            × (handle_key_update c codec post s msg
                ≡ (s, record { result_data = none; status = 0; error = some e })))
  unfolding handle_key_update
  handle_key_update-outcome post s msg = elim (decrypted_key-cases post s.sign_port msg) [
    | inl (k, p, a) ↦ inl (k, a, ground arith)
    | inr (e, p, a) ↦ inr (e, a, ground arith)
  ]
