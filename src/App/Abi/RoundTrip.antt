-- ===== src/App/Abi/RoundTrip.antt =====
-- tee/go/internal/app/abi.go: the decoder on what the encoder writes.
use cipher_sign.Prelude.{
  ℕ, ◌+◌, ◌-◌, ◌*◌, ◌/◌, ◌%◌, ◌^◌, ◌<◌, false, [], ◌++◌, append_assoc, Bytes, length, replicate,
  ltb, ok, ◌≡◌, refl, arith, length-append, length-replicate,
}
use cipher_sign.App.Int64.{set_bytes, to_int64, to_int64-small}
use cipher_sign.App.Abi.{
  pad_to_multiple_of_32, word, slice, abi_encode_two, abi_read_bytes, abi_decode_two,
}
use cipher_sign.App.Abi.Layout.{
  length-word, set_bytes-word, pad_to_multiple_of_32-eq, length-pad_to_multiple_of_32, slice_word,
  abi_read_bytes-append,
}

zeros_behind : Bytes → Bytes
zeros_behind d = replicate ((32 - length d % 32) % 32) 0

abbrev offset_b : Bytes → ℕ
offset_b a = 64 + 32 + length (pad_to_multiple_of_32 a)

-- The text behind the first and behind the second offset, laid out for the reader of one item.
laid_out_a :
    (a b : Bytes)
    → abi_encode_two a b
      ≡ (word 64 ++ word (offset_b a))
        ++ (word (length a)
            ++ (a ++ (zeros_behind a ++ (word (length b) ++ pad_to_multiple_of_32 b))))
unfolding abi_encode_two zeros_behind
laid_out_a a b = rw (pad_to_multiple_of_32-eq a) (simp append_assoc)

laid_out_b :
    (a b : Bytes)
    → abi_encode_two a b
      ≡ (word 64 ++ (word (offset_b a) ++ (word (length a) ++ pad_to_multiple_of_32 a)))
        ++ (word (length b) ++ (b ++ zeros_behind b))
unfolding abi_encode_two zeros_behind
laid_out_b a b = simp append_assoc (rw (pad_to_multiple_of_32-eq b) refl)

pub length-abi_encode_two :
    (a b : Bytes)
    → length (abi_encode_two a b) ≡ 128 + (length a + 31) / 32 * 32 + (length b + 31) / 32 * 32
unfolding abi_encode_two
length-abi_encode_two a b =
    let pa = pad_to_multiple_of_32 a in
    let pb = pad_to_multiple_of_32 b in
    omega (
      arith,
      length-append (word 64)
          (word (offset_b a) ++ (word (length a) ++ (pa ++ (word (length b) ++ pb)))),
      length-append (word (offset_b a)) (word (length a) ++ (pa ++ (word (length b) ++ pb))),
      length-append (word (length a)) (pa ++ (word (length b) ++ pb)),
      length-append pa (word (length b) ++ pb),
      length-append (word (length b)) pb,
      length-word 64,
      length-word (offset_b a),
      length-word (length a),
      length-word (length b),
      length-pad_to_multiple_of_32 a,
      length-pad_to_multiple_of_32 b,
    )

length-zeros_behind : (d : Bytes) → length (zeros_behind d) ≡ (32 - length d % 32) % 32
unfolding zeros_behind
length-zeros_behind d = length-replicate _ 0

read_a :
    (a b : Bytes)
    → length a + length b + 190 < 2 ^ 63
    → abi_read_bytes (abi_encode_two a b) 64 ≡ ok a
unfolding zeros_behind
read_a a b h =
    let rest = zeros_behind a ++ (word (length b) ++ pad_to_multiple_of_32 b) in
    let pre = word 64 ++ word (offset_b a) in
    let n : length pre ≡ 64 = omega (
      arith,
      length-append (word 64) (word (offset_b a)),
      length-word 64,
      length-word (offset_b a),
    ) in
    let total : length pre + 32 + length a + length rest < 2 ^ 63 = omega (
      arith,
      length-append (zeros_behind a) (word (length b) ++ pad_to_multiple_of_32 b),
      length-append (word (length b)) (pad_to_multiple_of_32 b),
      length-word (length b),
      length-pad_to_multiple_of_32 b,
      length-zeros_behind a,
    ) in
    rw (laid_out_a a b) (rw n at (abi_read_bytes-append pre a rest total))

read_b :
    (a b : Bytes)
    → length a + length b + 190 < 2 ^ 63
    → abi_read_bytes (abi_encode_two a b) (offset_b a) ≡ ok b
unfolding zeros_behind
read_b a b h =
    let pa = pad_to_multiple_of_32 a in
    let pre = word 64 ++ (word (offset_b a) ++ (word (length a) ++ pa)) in
    let n : length pre ≡ offset_b a = omega (
      arith,
      length-append (word 64) (word (offset_b a) ++ (word (length a) ++ pa)),
      length-append (word (offset_b a)) (word (length a) ++ pa),
      length-append (word (length a)) pa,
      length-word 64,
      length-word (offset_b a),
      length-word (length a),
    ) in
    let total : length pre + 32 + length b + length (zeros_behind b) < 2 ^ 63 =
      omega (arith, length-zeros_behind b, length-pad_to_multiple_of_32 a) in
    rw (laid_out_b a b) (rw n at (abi_read_bytes-append pre b (zeros_behind b) total))

first_word : (a b : Bytes) → slice (abi_encode_two a b) 0 32 ≡ ok (word 64)
unfolding abi_encode_two
first_word a b = slice_word [] (word 64) _ (length-word 64) (omega arith)

second_word : (a b : Bytes) → slice (abi_encode_two a b) 32 64 ≡ ok (word (offset_b a))
unfolding abi_encode_two
second_word a b =
    let pa = pad_to_multiple_of_32 a in
    let rest = word (length a) ++ (pa ++ (word (length b) ++ pad_to_multiple_of_32 b)) in
    rw (length-word 64) at (
      slice_word (word 64) (word (offset_b a)) rest (length-word (offset_b a))
        (omega (arith, length-word 64)))

-- Two byte strings are read back from their ABI coding, if the coding fits an int64 length.
pub abi_decode_two-abi_encode_two :
    (a b : Bytes)
    → length a + length b + 190 < 2 ^ 63
    → abi_decode_two (abi_encode_two a b) ≡ ok (a, b)
unfolding abi_decode_two
abi_decode_two-abi_encode_two a b h =
    let d = abi_encode_two a b in
    let pa = pad_to_multiple_of_32 a in
    let rest = word (length a) ++ (pa ++ (word (length b) ++ pad_to_multiple_of_32 b)) in
    let long : ltb (length d) 128 ≡ false = ground (arith, length-abi_encode_two a b) in
    let w1 : slice d 0 32 ≡ ok (word 64) = first_word a b in
    let w2 : slice d 32 64 ≡ ok (word (offset_b a)) = second_word a b in
    let v1 : to_int64 (set_bytes (word 64)) ≡ 64 =
      rw (set_bytes-word 64 (omega arith)) (to_int64-small 64 (omega arith)) in
    let small : offset_b a < 2 ^ 64 = omega (arith, length-pad_to_multiple_of_32 a) in
    let v2 : to_int64 (set_bytes (word (offset_b a))) ≡ offset_b a =
      rw (set_bytes-word (offset_b a) small) (to_int64-small (offset_b a) small) in
    rw (long, w1, w2, v1, v2, read_a a b h, read_b a b h)
