-- ===== src/Commands/RunTest.antt =====
-- tee/go/tools/cmd/run-test/main.go: how the end-to-end test reads the reply to its signature request.
-- A uint64 is a number below 2 ^ 64, and a conversion to int keeps its 64 bits.
pub mod Decode
pub mod Verify
use cipher_sign.Prelude.{
  ℕ, ◌+◌, ◌-◌, not, ◌||◌, [], ◌∷◌, ◌++◌, Bytes, length, take, drop, eq_bytes, ltb, leb, ◌==◌,
  if◌then◌else◌, Result, ok, err, ◌>>=◌, ◌>>◌, map_err,
}
use cipher_sign.Prelude.Text.{String}
use cipher_sign.App.Int64.{add_int64, gt_int64, set_bytes, to_int64}
use cipher_sign.Base.Bytes32.{byte_at}

-- The three errors, and a slice out of range, at which Go panics.
pub data DecodeFault : Type 0 where
  data_too_short : ℕ → DecodeFault
  offset_beyond : ℕ → DecodeFault
  length_beyond : ℕ → ℕ → DecodeFault
  slice_fault : DecodeFault

-- `data[lo:hi]` with uint64 bounds, where the length stands for the capacity.
unfoldable pub slice_uint64 : Bytes → ℕ → ℕ → Result DecodeFault Bytes
slice_uint64 d lo hi =
    if ltb hi lo || ltb (length d) hi then err slice_fault else ok (take (hi - lo) (drop lo d))

-- The closure `readBytes`; a sum of two uint64 wraps as one of two int64 does.
unfoldable pub read_bytes : Bytes → ℕ → Result DecodeFault Bytes
read_bytes d offset =
    if gt_int64 (add_int64 offset 32) (length d) then err (offset_beyond offset) else do
      w ← slice_uint64 d offset (add_int64 offset 32)
      let len = to_int64 (set_bytes w)
      let start = add_int64 offset 32
      if gt_int64 (add_int64 start len) (length d)
          then err (length_beyond len offset)
          else slice_uint64 d start (add_int64 start len)

unfoldable pub abi_decode_two : Bytes → Result DecodeFault (Bytes × Bytes)
unfolding read_bytes
abi_decode_two d = if ltb (length d) 64 then err (data_too_short (length d)) else do
  wa ← slice_uint64 d 0 32
  wb ← slice_uint64 d 32 64
  a ← read_bytes d (to_int64 (set_bytes wa))
  b ← read_bytes d (to_int64 (set_bytes wb))
  ok (a, b)

-- 65 bytes with the last one in [0, 3].
unfoldable pub normalize_v : Bytes → Bytes
normalize_v sig =
    if not (length sig == 65)
    then sig
    else if leb 27 (byte_at sig 64)
    then take 64 sig ++ (byte_at sig 64 - 27) ∷ []
    else sig

-- go-ethereum's crypto: `ToECDSA` with the public key of a private one, `Keccak256`, `SigToPub` and
-- `PubkeyToAddress`.
pub record Recovery : Type 1 where
  pub PrivateKey : Type 0
  pub Public : Type 0
  pub to_ecdsa : Bytes → Result String PrivateKey
  pub public_key : PrivateKey → Public
  pub keccak256 : Bytes → Bytes
  pub sig_to_pub : Bytes → Bytes → Result String Public
  pub pubkey_to_address : Public → Bytes

pub data Verdict : Type 0 where
  decode_failed : DecodeFault → Verdict
  recover_failed : String → Verdict
  other_signer : Bytes → Verdict

module _ (r : Recovery) where
  -- Step 6 of `main`, from the data of the reply on: the message, the expected address, the data.
  unfoldable pub check_reply : Bytes → Bytes → Bytes → Result Verdict (Unit {0})
  check_reply message expected d = do
    (_, sig) ← map_err decode_failed (abi_decode_two d)
    recovered ← map_err recover_failed (r.sig_to_pub (r.keccak256 message) (normalize_v sig))
    if not (eq_bytes (r.pubkey_to_address recovered) expected)
        then err (other_signer (r.pubkey_to_address recovered))
        else ok tt
