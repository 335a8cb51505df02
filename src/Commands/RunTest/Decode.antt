-- ===== src/Commands/RunTest/Decode.antt =====
-- tee/go/tools/cmd/run-test/main.go and tee/go/internal/app/abi.go: the two decoders of (bytes, bytes).
use cipher_sign.Prelude.{
  ℕ, ◌^◌, ◌≤◌, ◌<◌, Bool, true, false, Bytes, length, ltb, if◌then◌else◌, Result, ok, err, ◌>>=◌,
  map_err, ◌≡◌, refl, arith,
}
use cipher_sign.App.Int64.{is_negative, add_int64, gt_int64, set_bytes, to_int64}
use cipher_sign.App.Abi.{
  AbiFault, too_short, out_of_range_data, slice_panic, offset_out_of_range, slice, abi_read_bytes,
}
use cipher_sign.App.Abi as Abi
use mathlib.Core.Path.{subst}
use cipher_sign.Commands.RunTest.{
  DecodeFault, data_too_short, offset_beyond, length_beyond, slice_fault, slice_uint64, read_bytes,
  abi_decode_two,
}

-- The fault that the extension reports for one of the tool.
abbrev pub as_abi_fault : DecodeFault → AbiFault
as_abi_fault (data_too_short n) = too_short
as_abi_fault (offset_beyond n) = offset_out_of_range n
as_abi_fault (length_beyond n o) = out_of_range_data
as_abi_fault slice_fault = slice_panic

slice-agrees :
    (d : Bytes) (lo hi : ℕ)
    → length d < 2 ^ 63
    → map_err as_abi_fault (slice_uint64 d lo hi) ≡ slice d lo hi
unfolding slice_uint64 slice is_negative
slice-agrees d lo hi h = ground arith

map_err-bind :
    {A B : Type 0} (x : Result DecodeFault A) (y : Result AbiFault A) (f : A → Result DecodeFault B)
    (g : A → Result AbiFault B)
    → map_err as_abi_fault x ≡ y
    → ((a : A) → map_err as_abi_fault (f a) ≡ g a)
    → map_err as_abi_fault (x >>= f) ≡ (y >>= g)
map_err-bind (ok a) y f g h k = subst (λ z. map_err as_abi_fault (f a) ≡ (z >>= g)) h (k a)
map_err-bind (err e) y f g h k = subst (λ z. err (as_abi_fault e) ≡ (z >>= g)) h refl

map_err-if :
    {A : Type 0} (b : Bool) (e : DecodeFault) (x : Result DecodeFault A) (y : Result AbiFault A)
    → map_err as_abi_fault x ≡ y
    → map_err as_abi_fault (if b then err e else x) ≡ (if b then err (as_abi_fault e) else y)
map_err-if true e x y h = refl
map_err-if false e x y h = h

read_bytes-agrees :
    (d : Bytes) (offset : ℕ)
    → length d < 2 ^ 63
    → map_err as_abi_fault (read_bytes d offset) ≡ abi_read_bytes d offset
unfolding read_bytes abi_read_bytes
read_bytes-agrees d offset h =
    let start = add_int64 offset 32 in
    map_err-if (gt_int64 start (length d)) (offset_beyond offset) _ _ (
      map_err-bind (slice_uint64 d offset start) (slice d offset start) _ _
        (slice-agrees d offset start h)
        λ w.
          map_err-if (gt_int64 (add_int64 start (to_int64 (set_bytes w))) (length d))
            (length_beyond _ _) _ _
            (slice-agrees d start (add_int64 start (to_int64 (set_bytes w))) h))

-- On data of 128 to 2 ^ 63 - 1 bytes, the decoder of the tool and the one of the extension give the
-- same pair or fail alike, with the same kind of error, and panic on the same data.
pub abi_decode_two-agrees :
    (d : Bytes)
    → 128 ≤ length d
    → length d < 2 ^ 63
    → map_err as_abi_fault (abi_decode_two d) ≡ Abi.abi_decode_two d
unfolding abi_decode_two Abi.abi_decode_two
abi_decode_two-agrees d long h =
    let f : ltb (length d) 64 ≡ false = ground arith in
    let g : ltb (length d) 128 ≡ false = ground arith in
    rw (f, g)
      (map_err-bind (slice_uint64 d 0 32) (slice d 0 32) _ _ (slice-agrees d 0 32 h) λ wa.
        map_err-bind (slice_uint64 d 32 64) (slice d 32 64) _ _ (slice-agrees d 32 64 h) λ wb.
          map_err-bind (read_bytes d (to_int64 (set_bytes wa)))
            (abi_read_bytes d (to_int64 (set_bytes wa))) _ _
            (read_bytes-agrees d (to_int64 (set_bytes wa)) h)
            λ a.
              map_err-bind (read_bytes d (to_int64 (set_bytes wb)))
                (abi_read_bytes d (to_int64 (set_bytes wb))) _ _
                (read_bytes-agrees d (to_int64 (set_bytes wb)) h) λ b. refl)
