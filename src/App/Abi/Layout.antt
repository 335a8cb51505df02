-- ===== src/App/Abi/Layout.antt =====
-- The words and the padding of the coding, and slices of a laid out text.
use cipher_sign.Prelude.{
  ℕ, ◌+◌, ◌-◌, ◌*◌, ◌/◌, ◌%◌, ◌^◌, ◌<◌, false, [], ◌∷◌, ◌++◌, append-nil, append_assoc, Bytes,
  length, replicate, ◌==◌, ok, Bool-cases, ◌≡◌, inl, inr, refl, arith, length-append,
  length-replicate, length-drop, take-append, drop-append,
}
use cipher_sign.App.Int64.{
  is_negative, add_int64, gt_int64, set_bytes, to_int64, big_bytes, length-big_bytes,
  set_bytes-big_bytes, add_int64-small, to_int64-small, gt_int64-false,
}
use cipher_sign.App.Abi.{pad_left, pad_to_multiple_of_32, word, slice, abi_read_bytes}

pub length-pad_left : (b : Bytes) (size : ℕ) → length (pad_left b size) ≡ size
unfolding pad_left
length-pad_left b size = ground (
  arith,
  length-drop (length b - size) b,
  length-append (replicate (size - length b) 0) b,
  length-replicate {A = ℕ} (size - length b) 0,
)

pub length-word : (n : ℕ) → length (word n) ≡ 32
unfolding word
length-word n = length-pad_left (big_bytes n) 32

pad_left-short :
    (b : Bytes) (size : ℕ) → length b < size → pad_left b size ≡ replicate (size - length b) 0 ++ b
unfolding pad_left
pad_left-short b size h = ground arith

pub set_bytes-word : (n : ℕ) → n < 2 ^ 64 → set_bytes (word n) ≡ n
unfolding word
set_bytes-word n h =
    rw (pad_left-short (big_bytes n) 32 (omega (arith, length-big_bytes n)))
      (set_bytes-big_bytes (32 - length (big_bytes n)) n h)

-- The padding appends zeros only, and the length becomes the next multiple of 32.
pub pad_to_multiple_of_32-eq :
    (d : Bytes) → pad_to_multiple_of_32 d ≡ d ++ replicate ((32 - length d % 32) % 32) 0
unfolding pad_to_multiple_of_32
pad_to_multiple_of_32-eq [] = refl
pad_to_multiple_of_32-eq (x ∷ d) = elim (Bool-cases (length (x ∷ d) % 32 == 0)) [
  | inl e ↦
      let z : (32 - length (x ∷ d) % 32) % 32 ≡ 0 = ground arith in
      rw z (ground (arith, append-nil (x ∷ d)))
  | inr e ↦
      let z : (32 - length (x ∷ d) % 32) % 32 ≡ 32 - length (x ∷ d) % 32 = ground arith in
      rw z (ground arith)
]

pub length-pad_to_multiple_of_32 :
    (d : Bytes) → length (pad_to_multiple_of_32 d) ≡ (length d + 31) / 32 * 32
length-pad_to_multiple_of_32 d =
    rw (pad_to_multiple_of_32-eq d, length-append, length-replicate) (omega arith)

pub slice-append :
    (xs ys zs : Bytes)
    → length xs + length ys < 2 ^ 63
    → slice (xs ++ (ys ++ zs)) (length xs) (length xs + length ys) ≡ ok ys
unfolding slice is_negative
slice-append xs ys zs h =
    let e : length xs + length ys - length xs ≡ length ys = omega arith in
    ground (
      arith,
      e,
      drop-append xs (ys ++ zs),
      take-append ys zs,
      length-append xs (ys ++ zs),
      length-append ys zs,
    )

pub slice_word :
    (pre w post : Bytes)
    → length w ≡ 32
    → length pre + 32 < 2 ^ 63
    → slice (pre ++ (w ++ post)) (length pre) (length pre + 32) ≡ ok w
slice_word pre w post e h = rw (← e) (slice-append pre w post (omega arith))

slice_data :
    (pre w b post : Bytes)
    → length w ≡ 32
    → length pre + 32 + length b < 2 ^ 63
    → slice (pre ++ (w ++ (b ++ post))) (length pre + 32) (length pre + 32 + length b) ≡ ok b
slice_data pre w b post e h =
    let n : length (pre ++ w) ≡ length pre + 32 = omega (arith, length-append pre w) in
    rw (← append_assoc pre w (b ++ post), ← n) (slice-append (pre ++ w) b post (omega arith))

length-laid_out :
    (pre b post : Bytes)
    → length (pre ++ (word (length b) ++ (b ++ post))) ≡ length pre + 32 + length b + length post
length-laid_out pre b post = omega (
  arith,
  length-append pre (word (length b) ++ (b ++ post)),
  length-append (word (length b)) (b ++ post),
  length-append b post,
  length-word (length b),
)

-- A length word and the bytes behind it are read back, wherever they stand.
pub abi_read_bytes-append :
    (pre b post : Bytes)
    → length pre + 32 + length b + length post < 2 ^ 63
    → abi_read_bytes (pre ++ (word (length b) ++ (b ++ post))) (length pre) ≡ ok b
unfolding abi_read_bytes
abi_read_bytes-append pre b post h =
    let d = pre ++ (word (length b) ++ (b ++ post)) in
    let n : length d ≡ length pre + 32 + length b + length post = length-laid_out pre b post in
    let e1 : add_int64 (length pre) 32 ≡ length pre + 32 =
      add_int64-small (length pre) 32 (omega arith) in
    let e2 : add_int64 (length pre + 32) (length b) ≡ length pre + 32 + length b =
      add_int64-small (length pre + 32) (length b) (omega arith) in
    let s1 : slice d (length pre) (length pre + 32) ≡ ok (word (length b)) =
      slice_word pre (word (length b)) (b ++ post) (length-word (length b)) (omega arith) in
    let s2 : slice d (length pre + 32) (length pre + 32 + length b) ≡ ok b =
      slice_data pre (word (length b)) b post (length-word (length b)) (omega arith) in
    let v : to_int64 (set_bytes (word (length b))) ≡ length b =
      rw (set_bytes-word (length b) (omega arith)) (to_int64-small (length b) (omega arith)) in
    let g1 : gt_int64 (length pre + 32) (length d) ≡ false =
      gt_int64-false (length pre + 32) (length d) (omega arith) (omega arith) in
    let g2 : gt_int64 (length pre + 32 + length b) (length d) ≡ false =
      gt_int64-false (length pre + 32 + length b) (length d) (omega arith) (omega arith) in
    rw (e1, g1, s1, v, e2, g2) s2
