-- ===== src/Base/Bytes32/Laws.antt =====
-- tee/go/internal/base/types.go: stringToBytes32Hex and OpTypeToString together.
use cipher_sign.Prelude.{
  ℕ, zero, suc, ◌+◌, ◌-◌, ◌≤◌, ◌<◌, [], ◌∷◌, ◌++◌, Bytes, length, take, replicate, All-append,
  IsBytes, replicate-IsBytes, take-IsBytes, ◌≡◌, ◌≢◌, refl, sym, ap, ◌∙◌, arith, length-append,
  length-replicate, take-append,
}
use cipher_sign.Base.Hex.{trim_0x}
use cipher_sign.Base.Hex.Laws.{decode_string-encode_to_string}
use cipher_sign.Base.Bytes32.{
  copy_to_32, string_to_bytes32_hex, byte_at, trimmed_end, trim_zeros, op_type_to_string,
}

-- The text is empty or its last byte is not zero.
abbrev pub EndsNonzero : Bytes → Type 0
EndsNonzero [] = Unit
EndsNonzero (b ∷ []) = b ≢ 0
EndsNonzero (b ∷ c ∷ s) = EndsNonzero (c ∷ s)

byte_at-zeros : (xs : Bytes) (k j : ℕ) → byte_at (xs ++ replicate k 0) (length xs + j) ≡ 0
unfolding byte_at
byte_at-zeros [] zero j = refl
byte_at-zeros [] (suc k) zero = refl
byte_at-zeros [] (suc k) (suc j) =
    let e : 0 + suc j ≡ suc (0 + j) = omega arith in rw e (byte_at-zeros [] k j)
byte_at-zeros (x ∷ xs) k j =
    let e : suc (length xs) + j ≡ suc (length xs + j) = omega arith in rw e (byte_at-zeros xs k j)

trimmed_end-zeros :
    (xs : Bytes) (k j : ℕ)
    → trimmed_end (xs ++ replicate k 0) (length xs + j)
      ≡ trimmed_end (xs ++ replicate k 0) (length xs)
unfolding trimmed_end
trimmed_end-zeros xs k zero = let e : length xs + 0 ≡ length xs = omega arith in rw e
trimmed_end-zeros xs k (suc j) =
    let e : length xs + suc j ≡ suc (length xs + j) = omega arith in
    rw (e, byte_at-zeros xs k j) (trimmed_end-zeros xs k j)

byte_at-last :
    (x : ℕ) (xs ys : Bytes) → EndsNonzero (x ∷ xs) → byte_at ((x ∷ xs) ++ ys) (length xs) ≢ 0
unfolding byte_at
byte_at-last x [] ys h = h
byte_at-last x (y ∷ xs) ys h = byte_at-last y xs ys h

trimmed_end-last : (xs ys : Bytes) → EndsNonzero xs → trimmed_end (xs ++ ys) (length xs) ≡ length xs
unfolding trimmed_end
trimmed_end-last [] ys h = refl
trimmed_end-last (x ∷ xs) ys h = ground (arith, byte_at-last x xs ys h)

pub trim_zeros-append :
    (xs : Bytes) (k : ℕ) → EndsNonzero xs → trim_zeros (xs ++ replicate k 0) ≡ xs
unfolding trim_zeros
trim_zeros-append xs k h =
    rw
      (
        length-append,
        length-replicate {A = ℕ} k 0,
        trimmed_end-zeros xs k k,
        trimmed_end-last xs _ h,
      )
      (take-append xs (replicate k 0))

take_all : (n : ℕ) (s : Bytes) → length s ≤ n → take n s ≡ s
take_all zero [] h = refl
take_all zero (b ∷ s) h = absurd (omega arith)
take_all (suc n) [] h = refl
take_all (suc n) (b ∷ s) h = ap (◌∷◌ b) (take_all n s (omega arith))

-- A text of at most 32 bytes that does not end in a zero byte is read back from its bytes32 hex.
pub op_type_to_string-string_to_bytes32_hex :
    (s : Bytes)
    → IsBytes s
    → length s ≤ 32
    → EndsNonzero s
    → op_type_to_string (string_to_bytes32_hex s) ≡ s
unfolding op_type_to_string string_to_bytes32_hex copy_to_32 trim_0x
op_type_to_string-string_to_bytes32_hex s hs short h =
    let bytes : IsBytes (take 32 s ++ replicate (32 - length s) 0) =
      All-append (λ b. b < 256) (take 32 s) (replicate (32 - length s) 0) (take-IsBytes 32 s hs)
        (replicate-IsBytes (32 - length s)) in
    rw
      (
        decode_string-encode_to_string (take 32 s ++ replicate (32 - length s) 0) bytes,
        op_type_to_string,
      )
      (rw (take_all 32 s short) (trim_zeros-append s (32 - length s) h))

-- Two texts of at most 32 bytes that do not end in a zero byte and have the same bytes32 hex are equal.
pub string_to_bytes32_hex-injective :
    (s t : Bytes)
    → IsBytes s × (length s ≤ 32) × EndsNonzero s
    → IsBytes t × (length t ≤ 32) × EndsNonzero t
    → string_to_bytes32_hex s ≡ string_to_bytes32_hex t
    → s ≡ t
string_to_bytes32_hex-injective s t (bs, ls, es) (bt, lt, et) e =
    sym (op_type_to_string-string_to_bytes32_hex s bs ls es)
    ∙ (ap op_type_to_string e ∙ op_type_to_string-string_to_bytes32_hex t bt lt et)
