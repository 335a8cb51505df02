-- ===== src/App/Int64.antt =====
-- What tee/go/internal/app/abi.go uses of int64 and math/big: an int64 is its 64-bit pattern,
-- a number below 2 ^ 64 that is negative from 2 ^ 63 on, and addition wraps around.
use cipher_sign.Prelude.{
  ℕ, zero, suc, ◌+◌, ◌*◌, ◌/◌, ◌%◌, ◌^◌, ◌≤◌, ◌<◌, Bool, false, [], ◌∷◌, ◌++◌, Bytes, length,
  replicate, IsBytes, ltb, leb, ◌==◌, if◌then◌else◌, Bool-cases, ◌≡◌, inl, inr, refl, ◌∙◌, arith,
}
use native.Mathlib.Nat.{pow-suc}

abbrev pub int64_mod : ℕ
int64_mod = 2 ^ 64

unfoldable pub is_negative : ℕ → Bool
is_negative x = leb (2 ^ 63) x

unfoldable pub add_int64 : ℕ → ℕ → ℕ
add_int64 a b = (a + b) % int64_mod

-- `a > b` on int64: the sign bit is flipped, so that patterns compare as the integers do.
unfoldable pub gt_int64 : ℕ → ℕ → Bool
gt_int64 a b = ltb ((b + 2 ^ 63) % int64_mod) ((a + 2 ^ 63) % int64_mod)

-- `new(big.Int).SetBytes(b)`: big endian.
big_of_bytes : ℕ → Bytes → ℕ
big_of_bytes acc [] = acc
big_of_bytes acc (b ∷ bs) = big_of_bytes (acc * 256 + b) bs

unfoldable pub set_bytes : Bytes → ℕ
unfolding big_of_bytes
set_bytes = big_of_bytes 0

-- `.Int64()`: the low 64 bits.
unfoldable pub to_int64 : ℕ → ℕ
to_int64 n = n % int64_mod

-- `big.NewInt(n).Bytes()` of an int64 that is not negative: the big endian digits with no leading
-- zero. Eight rounds are enough for 64 bits.
be_digits : ℕ → ℕ → Bytes → Bytes
be_digits zero n out = out
be_digits (suc f) n out =
    let rest = be_digits f (n / 256) ((n % 256) ∷ out) in if n == 0 then out else rest

unfoldable pub big_bytes : ℕ → Bytes
unfolding be_digits
big_bytes n = be_digits 8 n []

length-be_digits : (f n : ℕ) (out : Bytes) → length (be_digits f n out) ≤ f + length out
unfolding be_digits
length-be_digits zero n out = omega arith
length-be_digits (suc f) n out = ground (arith, length-be_digits f (n / 256) ((n % 256) ∷ out))

pub length-big_bytes : (n : ℕ) → length (big_bytes n) ≤ 8
unfolding big_bytes
length-big_bytes n = omega (arith, length-be_digits 8 n [])

div-lt_pow : (f n : ℕ) → n < 256 ^ suc f → n / 256 < 256 ^ f
div-lt_pow f n h = let h' : n < 256 ^ f * 256 = rw pow-suc at h in omega arith

div_add_mod_256 : (n : ℕ) → n / 256 * 256 + n % 256 ≡ n
div_add_mod_256 n = omega arith

big_of_bytes-be_digits :
    (f n : ℕ) (out : Bytes) → n < 256 ^ f → big_of_bytes 0 (be_digits f n out) ≡ big_of_bytes n out
unfolding big_of_bytes be_digits
big_of_bytes-be_digits zero n out h = let e : n ≡ 0 = omega arith in rw e
big_of_bytes-be_digits (suc f) n out h = ground (
  arith,
  big_of_bytes-be_digits f (n / 256) ((n % 256) ∷ out) (div-lt_pow f n h),
  div_add_mod_256 n,
)

big_of_bytes-zeros : (k : ℕ) (bs : Bytes) → big_of_bytes 0 (replicate k 0 ++ bs) ≡ big_of_bytes 0 bs
unfolding big_of_bytes
big_of_bytes-zeros zero bs = refl
big_of_bytes-zeros (suc k) bs = big_of_bytes-zeros k bs

pub set_bytes-zeros : (k : ℕ) (bs : Bytes) → set_bytes (replicate k 0 ++ bs) ≡ set_bytes bs
unfolding set_bytes
set_bytes-zeros k bs = big_of_bytes-zeros k bs

pub set_bytes-big_bytes : (k n : ℕ) → n < 2 ^ 64 → set_bytes (replicate k 0 ++ big_bytes n) ≡ n
unfolding set_bytes big_bytes
set_bytes-big_bytes k n h =
    big_of_bytes-zeros k (be_digits 8 n []) ∙ big_of_bytes-be_digits 8 n [] h

pub add_int64-small : (a b : ℕ) → a + b < 2 ^ 64 → add_int64 a b ≡ a + b
unfolding add_int64
add_int64-small a b h = omega arith

pub to_int64-small : (n : ℕ) → n < 2 ^ 64 → to_int64 n ≡ n
unfolding to_int64
to_int64-small n h = omega arith

pub gt_int64-false : (a b : ℕ) → a ≤ b → b < 2 ^ 63 → gt_int64 a b ≡ false
unfolding gt_int64
gt_int64-false a b h k = ground arith

pub to_int64-lt : (n : ℕ) → to_int64 n < 2 ^ 64
unfolding to_int64
to_int64-lt n = omega arith

be_digits-IsBytes : (f n : ℕ) (out : Bytes) → IsBytes out → IsBytes (be_digits f n out)
unfolding be_digits
be_digits-IsBytes zero n out h = h
be_digits-IsBytes (suc f) n out h = elim (Bool-cases (n == 0)) [
  | inl e ↦ rw e h
  | inr e ↦ rw e (be_digits-IsBytes f (n / 256) ((n % 256) ∷ out) (omega arith, h))
]

pub big_bytes-IsBytes : (n : ℕ) → IsBytes (big_bytes n)
unfolding big_bytes
big_bytes-IsBytes n = be_digits-IsBytes 8 n [] tt
