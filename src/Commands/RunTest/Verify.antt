-- ===== src/Commands/RunTest/Verify.antt =====
-- tee/go/tools/cmd/run-test/main.go over tee/go/internal/app/handlers.go: the check of a signature that
-- the extension made.
use cipher_sign.Prelude.{
  ℕ, ◌+◌, ◌-◌, ◌^◌, ◌≤◌, ◌<◌, true, false, [], ◌∷◌, ◌++◌, append_assoc, none, some, Bytes, length,
  take, drop, IsBytes, eq_bytes_refl, leb, ◌==◌, Result, ok, err, map_err, ◌≡◌, ◌≢◌, refl, ◌∙◌,
  arith, length-append, length-drop, length-take, take-append,
}
use mathlib.Core.Path.{subst}
use cipher_sign.Base.Bytes32.{byte_at}
use cipher_sign.Base.Hex.{hex_to_bytes, bytes_to_hex}
use cipher_sign.Base.Hex.Laws.{hex_to_bytes-bytes_to_hex, hex_to_bytes-IsBytes}
use cipher_sign.App.Abi.{abi_encode_two}
use cipher_sign.App.Abi.RoundTrip.{abi_decode_two-abi_encode_two, length-abi_encode_two}
use cipher_sign.App.Abi.Octets.{abi_encode_two-IsBytes}
use cipher_sign.App.Crypto.{Secp256k1, parse_secp256k1_private_key, sign_ecdsa}
use cipher_sign.App.Crypto.Laws.{length-sign_ecdsa, sign_ecdsa-IsBytes, parsed_nonzero}
use cipher_sign.App.Handlers.{HttpPost, NodeCodec, State, handle_key_sign}
use cipher_sign.App.Handlers.Sign.{handle_key_sign-signed}
use cipher_sign.Commands.RunTest.{DecodeFault, abi_decode_two, normalize_v, Recovery, check_reply}
use cipher_sign.Commands.RunTest.Decode.{as_abi_fault, abi_decode_two-agrees}

ok_of : {A : Type 0} (x : Result DecodeFault A) (a : A) → map_err as_abi_fault x ≡ ok a → x ≡ ok a
ok_of (ok b) a h = cc
ok_of (err e) a h = absurd (cc)

-- The tool decodes what the extension encodes.
pub decode-encode :
    (a b : Bytes)
    → length a + length b + 190 < 2 ^ 63
    → abi_decode_two (abi_encode_two a b) ≡ ok (a, b)
decode-encode a b h =
    let d = abi_encode_two a b in
    ok_of (abi_decode_two d) (a, b)
      (abi_decode_two-agrees d (omega (arith, length-abi_encode_two a b))
          (omega (arith, length-abi_encode_two a b))
        ∙ abi_decode_two-abi_encode_two a b h)

byte_at-last : (xs : Bytes) (v : ℕ) → byte_at (xs ++ v ∷ []) (length xs) ≡ v
unfolding byte_at
byte_at-last [] v = refl
byte_at-last (x ∷ xs) v = byte_at-last xs v

-- A flag of 27 or more behind 64 bytes is taken down by 27.
normalize_v-flag :
    (xs : Bytes) (v : ℕ)
    → length xs ≡ 64
    → 27 ≤ v
    → normalize_v (xs ++ v ∷ []) ≡ xs ++ (v - 27) ∷ []
unfolding normalize_v
normalize_v-flag xs v n h =
    let e : byte_at (xs ++ v ∷ []) 64 ≡ v =
      subst (λ i. byte_at (xs ++ v ∷ []) i ≡ v) n (byte_at-last xs v) in
    let t : take 64 (xs ++ v ∷ []) ≡ xs =
      subst (λ i. take i (xs ++ v ∷ []) ≡ xs) n (take-append xs (v ∷ [])) in
    let l : (length (xs ++ v ∷ []) == 65) ≡ true = ground (arith, length-append xs (v ∷ [])) in
    let g : leb 27 v ≡ true = ground arith in rw (l, e, t, g) refl

module _ (c : Secp256k1) (r : Recovery) (public : c.PrivateKey → r.Public) where
  -- What decred's SignCompact documents and go-ethereum's SigToPub accepts: for a key that is not zero
  -- and a hash of 32 bytes, the flag is 27 and more, and r, s and the flag less 27 give the key back.
  abbrev pub Recovers : Type 0
  Recovers =
      (k : c.PrivateKey) (hash : Bytes)
      → c.is_zero k ≡ false
      → length hash ≡ 32
      → (27 ≤ byte_at (c.sign_compact k hash) 0)
        × (r.sig_to_pub hash (
              take 32 (drop 1 (c.sign_compact k hash))
              ++ (take 32 (drop 33 (c.sign_compact k hash))
                  ++ (byte_at (c.sign_compact k hash) 0 - 27) ∷ []))
            ≡ ok (public k))

  first_byte : (sig : Bytes) → length sig ≡ 65 → take 1 sig ≡ byte_at sig 0 ∷ []
  unfolding byte_at
  first_byte [] h = absurd (omega (arith, h))
  first_byte (v ∷ sig) h = refl

  normalize_v-sign_ecdsa :
      Recovers
      → (k : c.PrivateKey) (m : Bytes) → c.is_zero k ≡ false
      → normalize_v (sign_ecdsa c k m)
        ≡ take 32 (drop 1 (c.sign_compact k (c.keccak256 m)))
          ++ (take 32 (drop 33 (c.sign_compact k (c.keccak256 m)))
              ++ (byte_at (c.sign_compact k (c.keccak256 m)) 0 - 27) ∷ [])
  unfolding sign_ecdsa
  normalize_v-sign_ecdsa recovers k m nonzero =
      let sig = c.sign_compact k (c.keccak256 m) in
      let n : length sig ≡ 65 = c.length-sign_compact k (c.keccak256 m) in
      let rs = take 32 (drop 1 sig) in
      let ss = take 32 (drop 33 sig) in
      let len : length (rs ++ ss) ≡ 64 = omega (
        arith,
        n,
        length-append rs ss,
        length-take 32 (drop 1 sig),
        length-take 32 (drop 33 sig),
        length-drop 1 sig,
        length-drop 33 sig,
      ) in
      let (flag, _) = recovers k (c.keccak256 m) nonzero (c.length-keccak256 m) in
      rw
        (
          first_byte sig n,
          ← append_assoc rs ss (byte_at sig 0 ∷ []),
          ← append_assoc rs ss ((byte_at sig 0 - 27) ∷ []),
        )
        (normalize_v-flag (rs ++ ss) (byte_at sig 0) len flag)

  check_reply-encoded :
      Recovers
      → ((b : Bytes) → r.keccak256 b ≡ c.keccak256 b)
      → (k : c.PrivateKey) (m : Bytes) → c.is_zero k ≡ false
      → length m + 255 < 2 ^ 63
      → check_reply r m (r.pubkey_to_address (public k)) (abi_encode_two m (sign_ecdsa c k m))
        ≡ ok tt
  unfolding check_reply
  check_reply-encoded recovers same k m nonzero fits =
      let decoded : abi_decode_two (abi_encode_two m (sign_ecdsa c k m))
          ≡ ok (m, sign_ecdsa c k m) =
        decode-encode m (sign_ecdsa c k m) (omega (arith, length-sign_ecdsa c k m)) in
      rw
        (
          decoded,
          same m,
          normalize_v-sign_ecdsa recovers k m nonzero,
          (recovers k (c.keccak256 m) nonzero (c.length-keccak256 m)).1,
          eq_bytes_refl (r.pubkey_to_address (public k)),
        )
        refl

  -- Where the recovery of a public key undoes the signature of the library, for a key that is not zero
  -- and a hash of 32 bytes, and both sides hash alike: with a key in the store that the parser has
  -- accepted, the reply to a signature request that is not empty and hex for `m`, of fewer than
  -- 2 ^ 63 - 255 bytes, passes step 6 of the end-to-end test for the message `m` and the address of
  -- that key.
  pub handle_key_sign-checked :
      Recovers
      → ((b : Bytes) → r.keccak256 b ≡ c.keccak256 b)
      → (codec : NodeCodec) (post : HttpPost) (s : State c codec) (k : c.PrivateKey)
        (b msg m : Bytes)
      → parse_secp256k1_private_key c b ≡ ok k
      → s.private_key ≡ some k
      → msg ≢ []
      → hex_to_bytes msg ≡ ok m
      → length m + 255 < 2 ^ 63
      → (data_hex : Bytes) × (d : Bytes) × (handle_key_sign c codec post s msg
          ≡ (s, record { result_data = some data_hex; status = 1; error = none }))
        × (hex_to_bytes data_hex ≡ ok d)
        × (check_reply r m (r.pubkey_to_address (public k)) d ≡ ok tt)
  handle_key_sign-checked recovers same codec post s k b msg m parsed key nonempty hex fits =
      let d = abi_encode_two m (sign_ecdsa c k m) in
      let bytes : IsBytes d =
        abi_encode_two-IsBytes m (sign_ecdsa c k m) (hex_to_bytes-IsBytes msg m hex)
          (sign_ecdsa-IsBytes c k m) in
      (
        bytes_to_hex d,
        d,
        handle_key_sign-signed c codec post s k msg m key nonempty hex,
        hex_to_bytes-bytes_to_hex d bytes,
        check_reply-encoded recovers same k m (parsed_nonzero c b k parsed) fits,
      )
