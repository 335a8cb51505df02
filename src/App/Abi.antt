-- ===== src/App/Abi.antt =====
-- tee/go/internal/app/abi.go: the ABI coding of two byte strings. `padLeft` is that of crypto.go.
pub mod Layout
pub mod Octets
pub mod RoundTrip
pub mod Overflow
use cipher_sign.Prelude.{
  ℕ, ◌+◌, ◌-◌, ◌%◌, ◌||◌, [], ◌++◌, Bytes, length, take, drop, replicate, ltb, leb, ◌==◌,
  if◌then◌else◌, Result, ok, err, ◌>>=◌, ◌>>◌,
}
use cipher_sign.App.Int64.{is_negative, add_int64, gt_int64, set_bytes, to_int64, big_bytes}

-- `make([]byte, size)`, then `copy(result[size-len(b):], b)`.
unfoldable pub pad_left : Bytes → ℕ → Bytes
pad_left b size =
    if leb size (length b) then drop (length b - size) b else replicate (size - length b) 0 ++ b

unfoldable pub pad_to_multiple_of_32 : Bytes → Bytes
pad_to_multiple_of_32 d =
    if length d == 0
    then []
    else if length d % 32 == 0
    then d
    else d ++ replicate (32 - length d % 32) 0

-- One 32-byte word: `padLeft(big.NewInt(n).Bytes(), 32)`.
unfoldable pub word : ℕ → Bytes
word n = pad_left (big_bytes n) 32

unfoldable pub abi_encode_two : Bytes → Bytes → Bytes
abi_encode_two a b =
    let a_padded = pad_to_multiple_of_32 a in
    let b_padded = pad_to_multiple_of_32 b in
    word 64
    ++ (word (64 + 32 + length a_padded)
        ++ (word (length a) ++ (a_padded ++ (word (length b) ++ b_padded))))

-- The three errors, and a slice out of range, at which Go panics.
pub data AbiFault : Type 0 where
  too_short out_of_range_data slice_panic : AbiFault
  offset_out_of_range : ℕ → AbiFault

-- `data[lo:hi]` with int64 bounds. Every `hi` that the code uses has passed a test against
-- `len(data)`, so the length stands for the capacity.
unfoldable pub slice : Bytes → ℕ → ℕ → Result AbiFault Bytes
slice d lo hi =
    if is_negative lo || is_negative hi || ltb hi lo || ltb (length d) hi
    then err slice_panic
    else ok (take (hi - lo) (drop lo d))

unfoldable pub abi_read_bytes : Bytes → ℕ → Result AbiFault Bytes
abi_read_bytes d offset =
    if gt_int64 (add_int64 offset 32) (length d) then err (offset_out_of_range offset) else do
      w ← slice d offset (add_int64 offset 32)
      let len = to_int64 (set_bytes w)
      let start = add_int64 offset 32
      if gt_int64 (add_int64 start len) (length d)
          then err out_of_range_data
          else slice d start (add_int64 start len)

unfoldable pub abi_decode_two : Bytes → Result AbiFault (Bytes × Bytes)
abi_decode_two d = if ltb (length d) 128 then err too_short else do
  wa ← slice d 0 32
  wb ← slice d 32 64
  a ← abi_read_bytes d (to_int64 (set_bytes wa))
  b ← abi_read_bytes d (to_int64 (set_bytes wb))
  ok (a, b)
