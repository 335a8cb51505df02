-- ===== src/Base/Bytes32.antt =====
-- tee/go/internal/base/types.go: short texts as bytes32 hex, and back.
pub mod Laws
use cipher_sign.Prelude.{
  ℕ, zero, suc, ◌+◌, ◌-◌, [], ◌∷◌, ◌++◌, Bytes, length, take, replicate, ◌==◌, if◌then◌else◌, ok,
  err,
}
use cipher_sign.Base.Hex.{encode_to_string, decode_string, trim_0x}

-- `b := make([]byte, 32)`, then `copy(b, []byte(s))`, which takes at most 32 bytes.
unfoldable pub copy_to_32 : Bytes → Bytes
copy_to_32 s = take 32 s ++ replicate (32 - length s) 0

unfoldable pub string_to_bytes32_hex : Bytes → Bytes
string_to_bytes32_hex s = b'0' ∷ b'x' ∷ encode_to_string (copy_to_32 s)

unfoldable pub version_to_hex : Bytes → Bytes
version_to_hex version = string_to_bytes32_hex version

-- `for end > 0 && b[end-1] == 0 { end-- }`, then `b[:end]`.
unfoldable pub byte_at : Bytes → ℕ → ℕ
byte_at [] i = 0
byte_at (b ∷ bs) zero = b
byte_at (b ∷ bs) (suc i) = byte_at bs i

unfoldable pub trimmed_end : Bytes → ℕ → ℕ
unfolding byte_at
trimmed_end b zero = 0
trimmed_end b (suc n) = let rest = trimmed_end b n in if byte_at b n == 0 then rest else suc n

unfoldable pub trim_zeros : Bytes → Bytes
unfolding trimmed_end
trim_zeros b = take (trimmed_end b (length b)) b

-- The empty text on a decoding error.
unfoldable pub op_type_to_string : Bytes → Bytes
unfolding trim_zeros
op_type_to_string h = elim (decode_string (trim_0x h)) [ ok b ↦ trim_zeros b | err e ↦ [] ]
