-- ===== src/Fcc/Attestation.antt =====
-- tee/go/tools/pkg/fccutils/tee_calls.go and common.go: the code hash and the platform of a TEE. The claims
-- of an attestation token are the record Attestation.
pub mod Attests
use cipher_sign.Prelude.{
  ◌+◌, true, not, [], ◌∷◌, ◌++◌, Bytes, codes, replicate, eq_bytes, if◌then◌else◌, Result, ok, err,
  ◌>>=◌, ◌>>◌,
}
use cipher_sign.Prelude.Text.{String, str_eq, concat}
use cipher_sign.Fcc.Transactions.{TeeInfo}

-- The unverified claims of a token, and `Hash.String`.
pub record Attestation : Type 1 where
  pub Claims : Type 0
  pub parse_claims : Bytes → Result String Claims
  pub claimed_code_hash : Claims → Result String Bytes
  pub claimed_platform : Claims → Result String Bytes
  pub hash_text : Bytes → String

-- `TestPlatform` and `TeeCodeHash` of encoding.go.
abbrev pub test_platform : Bytes
test_platform = codes "TEST_PLATFORM" ++ replicate 19 0

abbrev pub tee_code_hash : Bytes
tee_code_hash =
    0x19 ∷ 0x48 ∷ 0x44 ∷ 0xcf ∷ 0x41 ∷ 0x7d ∷ 0xde ∷ 0x86 ∷ 0x70 ∷ 0x73 ∷ 0xe5 ∷ 0xab ∷ 0x71 ∷ 0x99
    ∷ 0xfa ∷ 0x4d ∷ 0x21 ∷ 0xfd ∷ 0x82 ∷ 0xb5 ∷ 0xdb ∷ 0xe2 ∷ 0xbd ∷ 0xea ∷ 0x8b ∷ 0x3d ∷ 0x7f
    ∷ 0xc1 ∷ 0x8d ∷ 0x10 ∷ 0xfd ∷ 0xc2 ∷ []

module _ (a : Attestation) where
  unfoldable pub code_hash_and_platform : Bytes → Result String (Bytes × Bytes)
  code_hash_and_platform attestation = do
    claims ← a.parse_claims attestation
    code_hash ← a.claimed_code_hash claims
    platform ← a.claimed_platform claims
    ok (code_hash, platform)

  -- The constants for a simulated TEE.
  unfoldable pub expected_code : (String → String) → TeeInfo → Result String (Bytes × Bytes)
  unfolding code_hash_and_platform
  expected_code getenv info =
      if str_eq (getenv "SIMULATED_TEE") "true"
      then ok (tee_code_hash, test_platform)
      else code_hash_and_platform info.attestation

  abbrev pub mismatch : String → Bytes → Bytes → Result String (Bytes × Bytes)
  mismatch before found stated =
      err (concat (before ∷ a.hash_text found ∷ ", " ∷ a.hash_text stated ∷ []))

  unfoldable pub compare_code : TeeInfo → Bytes × Bytes → Result String (Bytes × Bytes)
  compare_code info (code_hash, platform) =
      if not (eq_bytes code_hash info.code_hash)
      then mismatch "code hashes do not match: " code_hash info.code_hash
      else if not (eq_bytes platform info.platform)
      then mismatch "platforms do not matc: " platform info.platform
      else ok (code_hash, platform)

  unfoldable pub get_code_hash_and_platform :
      (String → String) → TeeInfo → Result String (Bytes × Bytes)
  unfolding expected_code compare_code
  get_code_hash_and_platform getenv info = do
    pair ← expected_code getenv info
    compare_code info pair
