-- ===== src/Commands/AuditDeploy/Printed/Inverse.antt =====
-- tee/go/tools/cmd/audit-deploy/main.go: stringToBytes32 and bytes32ToString, of which the second only
-- reads back what the first packs without the white space around it.
use cipher_sign.Prelude.{
  ℕ, zero, suc, ◌-◌, ◌≤◌, [], ◌∷◌, ◌++◌, Bytes, length, take, replicate, ltb, ok, ◌≡◌, refl, sym,
  ap, ◌∙◌, arith, Bool-cases, inl, inr,
}
use cipher_sign.Prelude.Text.{String, trim_space}
use cipher_sign.Base.Bytes32.Laws.{EndsNonzero, trim_zeros-append}
use cipher_sign.Commands.AuditDeploy.{value_to_bytes32}
use cipher_sign.Commands.AuditDeploy.Printed.{Audited, bytes32_to_string}

take-replicate : (n k : ℕ) → n ≤ k → take n (replicate {A = ℕ} k 0) ≡ replicate n 0
take-replicate zero k h = refl
take-replicate (suc n) zero h = absurd (omega arith)
take-replicate (suc n) (suc k) h = ap (◌∷◌ 0) (take-replicate n k (omega arith))

take-filled :
    (n k : ℕ) (s : Bytes)
    → length s ≤ n
    → n ≤ k
    → take n (s ++ replicate k 0) ≡ s ++ replicate (n - length s) 0
take-filled n k [] fits h = let e : n - 0 ≡ n = omega arith in rw e (take-replicate n k h)
take-filled zero k (b ∷ s) fits h = absurd (omega arith)
take-filled (suc n) k (b ∷ s) fits h =
    let e : suc n - suc (length s) ≡ n - length s = omega arith in
    rw e (ap (◌∷◌ b) (take-filled n k s (omega arith) (omega arith)))

packed-fill :
    (quote : Bytes → String) (s b : Bytes)
    → value_to_bytes32 quote s ≡ ok b
    → b ≡ s ++ replicate (32 - length s) 0
unfolding value_to_bytes32
packed-fill quote s b e = elim (Bool-cases (ltb 32 (length s))) [
  | inl t ↦ absurd (grind (arith, e, t))
  | inr f ↦
      let fits : length s ≤ 32 = ground (arith, f) in
      let packed : take 32 (s ++ replicate 32 0) ≡ b = grind (arith, e, f) in
      sym packed ∙ take-filled 32 32 s fits (omega arith)
]

-- A text that fits and does not end in a zero byte is read back from its bytes32, with the white space
-- around it trimmed.
bytes32_to_string-value_to_bytes32 :
    (x : Audited) (quote : Bytes → String) (s b : Bytes)
    → EndsNonzero s
    → value_to_bytes32 quote s ≡ ok b
    → bytes32_to_string x b ≡ trim_space (x.text_of s)
unfolding bytes32_to_string
bytes32_to_string-value_to_bytes32 x quote s b h e =
    rw (packed-fill quote s b e, trim_zeros-append s (32 - length s) h) refl
