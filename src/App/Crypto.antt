-- ===== src/App/Crypto.antt =====
-- tee/go/internal/app/crypto.go over what it calls: secp256k1 and Keccak-256 are parameters.
pub mod Laws
use cipher_sign.Prelude.{
  ℕ, ◌+◌, ◌-◌, ◌%◌, Bool, true, ◌++◌, Bytes, length, take, drop, IsBytes, ltb, ◌==◌, if◌then◌else◌,
  Result, ok, err, ◌≡◌, ◌↔◌,
}
use cipher_sign.App.Int64.{set_bytes}
use cipher_sign.App.Abi.{pad_left}

-- `decred/dcrd/dcrec/secp256k1/v4`, its `ecdsa.SignCompact`, and `base.Keccak256` (golang.org/x/crypto).
-- `PrivKeyFromBytes` reads a big endian number modulo the order of the group; a compact signature
-- is 65 bytes, the recovery flag first, and a hash 32.
pub record Secp256k1 : Type 1 where
  pub PrivateKey : Type 0
  pub order : ℕ
  pub priv_key_from_bytes : Bytes → PrivateKey
  pub is_zero : PrivateKey → Bool
  pub sign_compact : PrivateKey → Bytes → Bytes
  pub keccak256 : Bytes → Bytes
  pub length-keccak256 : (b : Bytes) → length (keccak256 b) ≡ 32
  pub is_zero_iff :
      (b : Bytes)
      → length b ≡ 32
      → (is_zero (priv_key_from_bytes b) ≡ true) ↔ (set_bytes b % order ≡ 0)
  pub length-sign_compact : (k : PrivateKey) (hash : Bytes) → length (sign_compact k hash) ≡ 65
  pub sign_compact-IsBytes : (k : PrivateKey) (hash : Bytes) → IsBytes (sign_compact k hash)

pub data KeyError : Type 0 where
  key_empty key_zero : KeyError
  key_too_long : ℕ → KeyError

module _ (c : Secp256k1) where
  open c use {PrivateKey, priv_key_from_bytes, is_zero, sign_compact, keccak256}

  unfoldable pub parse_secp256k1_private_key : Bytes → Result KeyError PrivateKey
  parse_secp256k1_private_key b =
      let key = priv_key_from_bytes (pad_left b 32) in
      if length b == 0
      then err key_empty
      else if ltb 32 (length b)
      then err (key_too_long (length b))
      else if is_zero key
      then err key_zero
      else ok key

  -- [flag, r(32), s(32)] becomes [r(32), s(32), flag].
  unfoldable pub sign_ecdsa : PrivateKey → Bytes → Bytes
  sign_ecdsa key message =
      let sig = sign_compact key (keccak256 message) in
      take 32 (drop 1 sig) ++ (take 32 (drop 33 sig) ++ take 1 sig)
