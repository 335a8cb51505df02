-- ===== src/Fcc/Governance/Settings.antt =====
-- tee/go/tools/cmd/set-governance/main.go: the settings handed to SetTeeGovernance.
use cipher_sign.Prelude.{
  ℕ, zero, suc, ◌≤◌, ◌<◌, List, [], ◌∷◌, Bytes, length, Result, ok, err, ◌≡◌, refl, arith,
}
use cipher_sign.Prelude.Text.{String, trim_space}
use cipher_sign.Chain.{Chain, Net}
use cipher_sign.Fcc.Governance.{
  Governed, govern, set_tee_governance, named_signers, split_commas, or_fallback, parse_signers,
  positive_or_one, parse_threshold,
}
use cipher_sign.Fcc.Governance.Once.{set_tee_governance-accepted}

or_fallback-nonempty : (fallback : Bytes) (xs : List Bytes) → 0 < length (or_fallback fallback xs)
or_fallback-nonempty fallback [] = omega arith
or_fallback-nonempty fallback (x ∷ xs) = omega arith

positive : (r : Result String ℕ) → 0 < positive_or_one r
positive (err text) = omega arith
positive (ok zero) = omega arith
positive (ok (suc v)) = omega arith

-- The signers and the threshold that the command reads from any two texts are never refused for a
-- missing signer or a threshold of 0: with a threshold that is at most the number of signers, the
-- hash is computed and compared. Where both texts are blank and the empty text is no number, the
-- fallback is the only signer and the threshold is 1.
pub settings_accepted :
    (c : Chain) (g : Governed c.World) (prv : c.PrivateKey) (hex_to_address : String → Bytes)
    (parse_uint : String → Result String ℕ) (raw raw_threshold : String) (fallback : Bytes)
    (extension_id : ℕ) (n : Net c)
    → (parse_threshold parse_uint raw_threshold ≤ length (parse_signers hex_to_address raw fallback)
        → set_tee_governance c g prv extension_id
            (parse_signers hex_to_address raw fallback)
            (parse_threshold parse_uint raw_threshold)
            n
          ≡ govern c g prv extension_id
              (parse_signers hex_to_address raw fallback)
              (parse_threshold parse_uint raw_threshold)
              n)
      × ((text : String)
          → parse_uint "" ≡ err text
          → (parse_signers hex_to_address "" fallback ≡ fallback ∷ [])
            × (parse_threshold parse_uint "" ≡ 1))
unfolding parse_signers parse_threshold named_signers split_commas trim_space
settings_accepted c g prv hex_to_address parse_uint raw raw_threshold fallback extension_id n = (
  set_tee_governance-accepted c g prv extension_id _ _ n
      (or_fallback-nonempty fallback (named_signers hex_to_address (split_commas raw)))
      (positive (parse_uint (trim_space raw_threshold))),
  λ text h. (refl, rw h refl),
)
