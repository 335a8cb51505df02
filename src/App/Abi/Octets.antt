-- ===== src/App/Abi/Octets.antt =====
-- tee/go/internal/app/abi.go: the bytes of the coding.
use cipher_sign.Prelude.{
  ℕ, ◌+◌, ◌-◌, ◌%◌, Bytes, length, replicate, IsBytes, replicate-IsBytes, drop-IsBytes,
  append-IsBytes, leb, Bool-cases, inl, inr,
}
use cipher_sign.App.Int64.{big_bytes, big_bytes-IsBytes}
use cipher_sign.App.Abi.{pad_left, pad_to_multiple_of_32, word, abi_encode_two}
use cipher_sign.App.Abi.Layout.{pad_to_multiple_of_32-eq}

pad_left-IsBytes : (b : Bytes) (n : ℕ) → IsBytes b → IsBytes (pad_left b n)
unfolding pad_left
pad_left-IsBytes b n h = elim (Bool-cases (leb n (length b))) [
  | inl e ↦ rw e (drop-IsBytes (length b - n) b h)
  | inr e ↦
      rw e (append-IsBytes (replicate (n - length b) 0) b (replicate-IsBytes (n - length b)) h)
]

word-IsBytes : (n : ℕ) → IsBytes (word n)
unfolding word
word-IsBytes n = pad_left-IsBytes (big_bytes n) 32 (big_bytes-IsBytes n)

padded-IsBytes : (d : Bytes) → IsBytes d → IsBytes (pad_to_multiple_of_32 d)
padded-IsBytes d h =
    rw (pad_to_multiple_of_32-eq d)
      (append-IsBytes d _ h (replicate-IsBytes ((32 - length d % 32) % 32)))

pub abi_encode_two-IsBytes : (a b : Bytes) → IsBytes a → IsBytes b → IsBytes (abi_encode_two a b)
unfolding abi_encode_two
abi_encode_two-IsBytes a b ha hb =
    let pa = pad_to_multiple_of_32 a in
    let pb = pad_to_multiple_of_32 b in
    append-IsBytes (word 64) _ (word-IsBytes 64) (
      append-IsBytes (word (64 + 32 + length pa)) _ (word-IsBytes (64 + 32 + length pa)) (
        append-IsBytes (word (length a)) _ (word-IsBytes (length a)) (
          append-IsBytes pa _ (padded-IsBytes a ha)
            (append-IsBytes (word (length b)) pb (word-IsBytes (length b)) (padded-IsBytes b hb)))))
