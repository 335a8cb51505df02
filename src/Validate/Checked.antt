-- ===== src/Validate/Checked.antt =====
-- tee/go/tools/pkg/validate/validate.go: what the three checks accept.
use cipher_sign.Prelude.{
  ℕ, ◌≤◌, ◌<◌, false, some, Bytes, length, ltb, ◌==◌, ok, Result-cases, Bool-cases, ◌≡◌, inl, inr,
  arith,
}
use cipher_sign.Prelude.Text.{String}
use cipher_sign.Validate.World.{Eth, Client, address_not_zero, address_has_code, key_has_funds}

module _ (e : Eth) where
  pub address_not_zero_ok :
      (addr : e.Address) (label : String)
      → address_not_zero e addr label ≡ ok tt
      → e.address_eq addr e.zero_address ≡ false
  unfolding address_not_zero
  address_not_zero_ok addr label h = elim (Bool-cases (e.address_eq addr e.zero_address)) [
    | inl t ↦ absurd (cc (rw (t, address_not_zero) at h))
    | inr f ↦ f
  ]

  -- There is code at the address.
  abbrev pub HasCodeAt : Client e → e.Address → Type 0
  HasCodeAt client addr = (code : Bytes) × (client.code_at addr ≡ ok code) × (0 < length code)

  pub address_has_code_ok :
      (client : Client e) (addr : e.Address) (label : String)
      → address_has_code e (some client) addr label ≡ ok tt
      → HasCodeAt client addr
  unfolding address_has_code
  address_has_code_ok client addr label h = elim (Result-cases (client.code_at addr)) [
    | inr (text, p) ↦ absurd (cc (rw (p, address_has_code) at h))
    | inl (code, p) ↦ elim (Bool-cases (length code == 0)) [
      | inl t ↦ absurd (cc (rw (p, t, address_has_code) at h))
      | inr f ↦ (code, p, ground arith)
    ]
  ]

  abbrev pub HasFunds : Client e → e.PrivateKey → ℕ → Type 0
  HasFunds client key least =
      (balance : ℕ) × (client.balance_at (e.pubkey_to_address key) ≡ ok balance) × (least ≤ balance)

  pub key_has_funds_ok :
      (client : Client e) (key : e.PrivateKey) (least : ℕ)
      → key_has_funds e (some client) key least ≡ ok tt
      → HasFunds client key least
  unfolding key_has_funds
  key_has_funds_ok client key least h =
      elim (Result-cases (client.balance_at (e.pubkey_to_address key))) [
        | inr (text, p) ↦ absurd (cc (rw (p, key_has_funds) at h))
        | inl (balance, p) ↦ elim (Bool-cases (ltb balance least)) [
          | inl t ↦ absurd (cc (rw (p, t, key_has_funds) at h))
          | inr f ↦ (balance, p, ground arith)
        ]
      ]
