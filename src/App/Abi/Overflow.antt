-- ===== src/App/Abi/Overflow.antt =====
-- tee/go/internal/app/abi.go: abiReadBytes on untrusted data, and the overflow of its int64 sums.
use cipher_sign.Prelude.{
  ℕ, ◌+◌, ◌-◌, ◌%◌, ◌^◌, ◌≤◌, ◌<◌, false, Bytes, length, take, drop, ltb, leb, leb→le,
  if◌then◌else◌, Result, ok, err, Bool-cases, ◌≡◌, inl, inr, arith,
}
use cipher_sign.App.Int64.{
  is_negative, add_int64, gt_int64, set_bytes, to_int64, add_int64-small, to_int64-lt,
}
use cipher_sign.App.Abi.{
  slice, AbiFault, abi_read_bytes, slice_panic, offset_out_of_range, out_of_range_data,
}

-- One item read with unbounded numbers; the two tests for 2 ^ 63 say where int64 overflows.
abbrev pub read_item : Bytes → ℕ → Result AbiFault Bytes
read_item d offset =
    let len = to_int64 (set_bytes (take 32 (drop offset d))) in
    if leb (2 ^ 63) (offset + 32)
    then err slice_panic
    else if ltb (length d) (offset + 32)
    then err (offset_out_of_range offset)
    else if leb (2 ^ 63) (offset + 32 + len)
    then err slice_panic
    else if ltb (length d) (offset + 32 + len)
    then err out_of_range_data
    else ok (take len (drop (offset + 32) d))

-- A test of the end against the length, then the slice up to it, where the start lies in the text.
slice_checked :
    (d : Bytes) (start n : ℕ) (bad : AbiFault)
    → start ≤ length d
    → length d < 2 ^ 63
    → n < 2 ^ 64
    → (if gt_int64 (add_int64 start n) (length d)
        then err bad
        else slice d start (add_int64 start n))
      ≡ (if leb (2 ^ 63) (start + n)
          then err slice_panic
          else if ltb (length d) (start + n)
          then err bad
          else ok (take n (drop start d)))
unfolding slice is_negative add_int64 gt_int64
slice_checked d start n bad lo hi h = elim (Bool-cases (leb (2 ^ 63) (start + n))) [
  | inl over ↦ ground arith
  | inr fits ↦
      let e : (start + n) % 2 ^ 64 ≡ start + n = ground arith in
      let e' : start + n - start ≡ n = omega arith in ground arith
]

-- The length word of an item whose end overflows.
slice_overflow :
    (d : Bytes) (offset : ℕ)
    → 31 ≤ length d
    → length d < 2 ^ 63
    → offset < 2 ^ 64
    → 2 ^ 63 ≤ offset + 32
    → (gt_int64 (add_int64 offset 32) (length d) ≡ false)
      × (slice d offset (add_int64 offset 32) ≡ err slice_panic)
unfolding slice is_negative add_int64 gt_int64
slice_overflow d offset lo hi h over = (ground arith, ground arith)

slice_header :
    (d : Bytes) (offset : ℕ)
    → length d < 2 ^ 63
    → offset + 32 ≤ length d
    → slice d offset (offset + 32) ≡ ok (take 32 (drop offset d))
unfolding slice is_negative
slice_header d offset hi fits = let e : offset + 32 - offset ≡ 32 = omega arith in ground arith

gt_int64-small : (a b : ℕ) → a < 2 ^ 63 → b < 2 ^ 63 → gt_int64 a b ≡ ltb b a
unfolding gt_int64
gt_int64-small a b h k = ground arith

-- For every text of at least 31 bytes, fewer than 2 ^ 63, and every int64 offset as its 64-bit pattern,
-- the reader gives the item that unbounded numbers give, or the same error, or panics, exactly where a
-- sum of patterns reaches 2 ^ 63.
pub abi_read_bytes-eq-read_item :
    (d : Bytes) (offset : ℕ)
    → 31 ≤ length d
    → length d < 2 ^ 63
    → offset < 2 ^ 64
    → abi_read_bytes d offset ≡ read_item d offset
unfolding abi_read_bytes
abi_read_bytes-eq-read_item d offset lo hi h = elim (Bool-cases (leb (2 ^ 63) (offset + 32))) [
  | inl over ↦ let (g, p) = slice_overflow d offset lo hi h (leb→le _ _ over) in rw (over, g, p)
  | inr fits ↦
      let e : add_int64 offset 32 ≡ offset + 32 = add_int64-small offset 32 (ground arith) in
      rw (fits, e, gt_int64-small (offset + 32) (length d) (ground arith) hi)
        (elim (Bool-cases (ltb (length d) (offset + 32))) [
          | inl out ↦ rw out
          | inr inside ↦
              let w = take 32 (drop offset d) in
              let ends : offset + 32 ≤ length d = ground arith in
              rw (inside, slice_header d offset hi ends)
                (slice_checked d (offset + 32) (to_int64 (set_bytes w)) out_of_range_data ends hi
                  (to_int64-lt (set_bytes w)))
        ])
]
