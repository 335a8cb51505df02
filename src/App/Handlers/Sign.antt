-- ===== src/App/Handlers/Sign.antt =====
-- tee/go/internal/app/handlers.go: handleKeySign.
use cipher_sign.Prelude.{
  ◌+◌, ◌^◌, ◌<◌, [], ◌∷◌, Option, none, some, Bytes, length, IsBytes, Result, ok, err, Result-cases,
  ◌≡◌, ◌≢◌, ◌↔◌, ◌⊎◌, inl, inr, refl, ap, ◌∙◌, arith,
}
use cipher_sign.Base.Hex.{HexError, hex_to_bytes, bytes_to_hex}
use cipher_sign.Base.Hex.Laws.{hex_to_bytes-bytes_to_hex, hex_to_bytes-IsBytes}
use cipher_sign.Base.Server.{HandlerResult}
use cipher_sign.App.Abi.{abi_encode_two, abi_decode_two}
use cipher_sign.App.Abi.RoundTrip.{abi_decode_two-abi_encode_two}
use cipher_sign.App.Abi.Octets.{abi_encode_two-IsBytes}
use cipher_sign.App.Crypto.{Secp256k1, sign_ecdsa}
use cipher_sign.App.Crypto.Laws.{length-sign_ecdsa, sign_ecdsa-IsBytes}
use cipher_sign.App.Handlers.{
  HttpPost, NodeCodec, HandlerError, State, handle_key_sign, signed_message,
}

module _ (c : Secp256k1) (codec : NodeCodec) where
  -- The reply to what `signed_message` gives.
  reply : Result HandlerError Bytes → HandlerResult HandlerError
  reply (ok data_hex) = record { result_data = some data_hex; status = 1; error = none }
  reply (err e) = record { result_data = none; status = 0; error = some e }

  handle_key_sign-reply :
      (post : HttpPost) (s : State c codec) (msg : Bytes)
      → handle_key_sign c codec post s msg ≡ (s, reply (signed_message c codec s.private_key msg))
  unfolding handle_key_sign reply
  handle_key_sign-reply post s msg = ground arith

  signed_message-ok :
      (k : c.PrivateKey) (msg m : Bytes)
      → msg ≢ []
      → hex_to_bytes msg ≡ ok m
      → signed_message c codec (some k) msg
        ≡ ok (bytes_to_hex (abi_encode_two m (sign_ecdsa c k m)))
  unfolding signed_message
  signed_message-ok k [] m nonempty hex = absurd (nonempty refl)
  signed_message-ok k (x ∷ msg) m nonempty hex = rw hex

  pub handle_key_sign-signed :
      (post : HttpPost) (s : State c codec) (k : c.PrivateKey) (msg m : Bytes)
      → s.private_key ≡ some k
      → msg ≢ []
      → hex_to_bytes msg ≡ ok m
      → handle_key_sign c codec post s msg ≡ (
        s,
        record {
          result_data = some (bytes_to_hex (abi_encode_two m (sign_ecdsa c k m)));
          status = 1;
          error = none;
        },
      )
  unfolding reply
  handle_key_sign-signed post s k msg m key nonempty hex =
      handle_key_sign-reply post s msg
      ∙ ap (λ r. (s, reply r))
          (ap (λ o. signed_message c codec o msg) key ∙ signed_message-ok k msg m nonempty hex)

  -- With a key in the store, a signature request whose text is not empty and is hex for `m`, of fewer
  -- than 2 ^ 63 - 255 bytes, succeeds and leaves the store alone. Its data is hex that decodes to the pair of `m` and the 65-byte signature of `m`
  -- under that key.
  pub handle_key_sign-decodes :
      (post : HttpPost) (s : State c codec) (k : c.PrivateKey) (msg m : Bytes)
      → s.private_key ≡ some k
      → msg ≢ []
      → hex_to_bytes msg ≡ ok m
      → length m + 255 < 2 ^ 63
      → (data_hex : Bytes) × (d : Bytes) × (handle_key_sign c codec post s msg
          ≡ (s, record { result_data = some data_hex; status = 1; error = none }))
        × (hex_to_bytes data_hex ≡ ok d)
        × (abi_decode_two d ≡ ok (m, sign_ecdsa c k m))
        × (length (sign_ecdsa c k m) ≡ 65)
  unfolding reply
  handle_key_sign-decodes post s k msg m key nonempty hex fits =
      let sig = sign_ecdsa c k m in
      let d = abi_encode_two m sig in
      let bytes : IsBytes d =
        abi_encode_two-IsBytes m sig (hex_to_bytes-IsBytes msg m hex) (sign_ecdsa-IsBytes c k m) in
      let signed : signed_message c codec s.private_key msg ≡ ok (bytes_to_hex d) =
        ap (λ o. signed_message c codec o msg) key ∙ signed_message-ok k msg m nonempty hex in
      (
        bytes_to_hex d,
        d,
        handle_key_sign-reply post s msg ∙ ap (λ r. (s, reply r)) signed,
        hex_to_bytes-bytes_to_hex d bytes,
        abi_decode_two-abi_encode_two m sig (omega (arith, length-sign_ecdsa c k m)),
        length-sign_ecdsa c k m,
      )

  signed_message-err_iff :
      (o : Option c.PrivateKey) (msg : Bytes)
      → ((reply (signed_message c codec o msg)).status ≡ 0)
        ↔ ((o ≡ none) ⊎ (msg ≡ []) ⊎ (e : HexError) × (hex_to_bytes msg ≡ err e))
  unfolding signed_message reply
  signed_message-err_iff none msg = (λ _. inl refl, λ _. refl)
  signed_message-err_iff (some k) [] = (λ _. inr (inl refl), λ _. refl)
  signed_message-err_iff (some k) (x ∷ msg) = elim (Result-cases (hex_to_bytes (x ∷ msg))) [
    | inl (m, h) ↦ (λ p. ground arith, λ p. ground arith)
    | inr (e, h) ↦ (λ p. inr (inr (e, h)), λ p. rw h)
  ]

  -- Whatever the request, the store stays as it is, and the request fails with status 0 exactly
  -- when there is no key, the text is empty, or it is no hex.
  pub handle_key_sign-fails_iff :
      (post : HttpPost) (s : State c codec) (msg : Bytes)
      → ((handle_key_sign c codec post s msg).0 ≡ s)
        × (((handle_key_sign c codec post s msg).1.status ≡ 0)
            ↔ ((s.private_key ≡ none) ⊎ (msg ≡ []) ⊎ (e : HexError) × (hex_to_bytes msg ≡ err e)))
  handle_key_sign-fails_iff post s msg =
      rw (handle_key_sign-reply post s msg) (refl, signed_message-err_iff s.private_key msg)
