-- ===== src/App/Crypto/Laws.antt =====
-- tee/go/internal/app/crypto.go: the accepted private keys, and the form of a signature.
use cipher_sign.Prelude.{
  ◌-◌, ◌%◌, ◌≤◌, ◌<◌, false, ◌++◌, Bytes, length, take, drop, IsBytes, drop-IsBytes, append-IsBytes,
  take-IsBytes, leb, ok, Bool-cases, ◌≡◌, ◌≢◌, ◌↔◌, inl, inr, arith, length-append, length-drop,
  length-take,
}
use cipher_sign.App.Int64.{set_bytes, set_bytes-zeros}
use cipher_sign.App.Abi.{pad_left}
use cipher_sign.App.Abi.Layout.{length-pad_left}
use cipher_sign.App.Crypto.{Secp256k1, parse_secp256k1_private_key, sign_ecdsa}

set_bytes-pad_left : (b : Bytes) → length b ≤ 32 → set_bytes (pad_left b 32) ≡ set_bytes b
unfolding pad_left
set_bytes-pad_left b h = elim (Bool-cases (leb 32 (length b))) [
  | inl full ↦ let e : length b - 32 ≡ 0 = omega arith in rw (full, e)
  | inr short ↦ rw short (set_bytes-zeros (32 - length b) b)
]

module _ (c : Secp256k1) where
  open c use {order, priv_key_from_bytes, is_zero, is_zero_iff}

  -- A text is accepted as a key exactly when it has 1 to 32 bytes and its big endian number is
  -- not a multiple of the group order, above the order too; the key is that of the text padded to
  -- 32 bytes.
  pub parse_secp256k1_private_key_iff :
      (b : Bytes) (k : c.PrivateKey)
      → (parse_secp256k1_private_key c b ≡ ok k) ↔ (
          (0 < length b)
          × (length b ≤ 32)
          × (set_bytes b % order ≢ 0)
          × (priv_key_from_bytes (pad_left b 32) ≡ k))
  unfolding parse_secp256k1_private_key
  parse_secp256k1_private_key_iff b k =
      let z = is_zero_iff (pad_left b 32) (length-pad_left b 32) in
      (
        λ p. (
          ground arith,
          ground arith,
          λ e. ground (arith, z, set_bytes-pad_left b),
          ground arith,
        ),
        λ (pos, short, nonzero, e). ground (arith, z, set_bytes-pad_left b),
      )

  -- A key that the parser accepts is not zero.
  pub parsed_nonzero :
      (b : Bytes) (k : c.PrivateKey) → parse_secp256k1_private_key c b ≡ ok k → is_zero k ≡ false
  unfolding parse_secp256k1_private_key
  parsed_nonzero b k h = ground arith

  pub length-sign_ecdsa : (k : c.PrivateKey) (m : Bytes) → length (sign_ecdsa c k m) ≡ 65
  unfolding sign_ecdsa
  length-sign_ecdsa k m =
      let sig = c.sign_compact k (c.keccak256 m) in
      let n : length sig ≡ 65 = c.length-sign_compact k (c.keccak256 m) in
      omega (
        arith,
        length-append (take 32 (drop 1 sig)) (take 32 (drop 33 sig) ++ take 1 sig),
        length-append (take 32 (drop 33 sig)) (take 1 sig),
        length-take 32 (drop 1 sig),
        length-take 32 (drop 33 sig),
        length-take 1 sig,
        length-drop 1 sig,
        length-drop 33 sig,
      )

  pub sign_ecdsa-IsBytes : (k : c.PrivateKey) (m : Bytes) → IsBytes (sign_ecdsa c k m)
  unfolding sign_ecdsa
  sign_ecdsa-IsBytes k m =
      let sig = c.sign_compact k (c.keccak256 m) in
      let h = c.sign_compact-IsBytes k (c.keccak256 m) in
      append-IsBytes (take 32 (drop 1 sig)) _ (take-IsBytes 32 _ (drop-IsBytes 1 sig h)) (
        append-IsBytes (take 32 (drop 33 sig)) (take 1 sig)
          (take-IsBytes 32 _ (drop-IsBytes 33 sig h)) (take-IsBytes 1 sig h))
