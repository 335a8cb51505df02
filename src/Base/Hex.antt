-- ===== src/Base/Hex.antt =====
-- tee/go/internal/base/encoding.go, over byte strings, with what it uses of encoding/hex.
-- A nil slice and an empty one are both the empty list.
pub mod Laws
use cipher_sign.Prelude.{
  ℕ, ◌+◌, ◌-◌, ◌*◌, ◌/◌, ◌%◌, Bool, true, false, ◌&&◌, [], ◌∷◌, ◌++◌, Bytes, length, drop,
  replicate, ltb, leb, ◌==◌, if◌then◌else◌, Result, ok, err, ◌>>=◌,
}

-- `hex.InvalidByteError` and `hex.ErrLength`.
pub data HexError : Type 0 where
  invalid_byte : ℕ → HexError
  odd_length : HexError

unfoldable pub hex_char : ℕ → ℕ
hex_char n = if ltb n 10 then b'0' + n else b'a' + (n - 10)

unfoldable pub hex_value : ℕ → Result HexError ℕ
hex_value c =
    if leb b'0' c && leb c b'9'
    then ok (c - b'0')
    else if leb b'a' c && leb c b'f'
    then ok (c - b'a' + 10)
    else if leb b'A' c && leb c b'F'
    then ok (c - b'A' + 10)
    else err (invalid_byte c)

unfoldable pub encode_to_string : Bytes → Bytes
encode_to_string [] = []
encode_to_string (b ∷ bs) = hex_char (b / 16) ∷ hex_char (b % 16) ∷ encode_to_string bs

unfoldable pub decode_string : Bytes → Result HexError Bytes
decode_string [] = ok []
decode_string (p ∷ []) = do _ ← hex_value p; err odd_length
decode_string (p ∷ q ∷ rest) = do
  a ← hex_value p
  b ← hex_value q
  bs ← decode_string rest
  ok ((a * 16 + b) ∷ bs)

-- `strings.TrimPrefix(h, "0x")`.
unfoldable pub trim_0x : Bytes → Bytes
trim_0x (z ∷ x ∷ rest) = if z == b'0' && x == b'x' then rest else z ∷ x ∷ rest
trim_0x (z ∷ []) = z ∷ []
trim_0x [] = []

is_empty : Bytes → Bool
is_empty [] = true
is_empty (_ ∷ _) = false

unfoldable pub hex_to_bytes : Bytes → Result HexError Bytes
unfolding is_empty trim_0x
hex_to_bytes h = let t = trim_0x h in if is_empty t then ok [] else decode_string t

unfoldable pub bytes_to_hex : Bytes → Bytes
bytes_to_hex b = b'0' ∷ b'x' ∷ encode_to_string b

-- `make([]byte, size)`, then `copy(result[size-len(b):], b)`.
unfoldable pub pad_left : Bytes → ℕ → Bytes
pad_left b size =
    if leb size (length b) then drop (length b - size) b else replicate (size - length b) 0 ++ b
