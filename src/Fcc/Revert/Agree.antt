-- ===== src/Fcc/Revert/Agree.antt =====
-- tee/go/tools/pkg/fccutils/revert.go and tee/go/tools/pkg/support/support.go: the two decoders of the
-- reason in an RPC error.
use cipher_sign.Prelude.{
  ℕ, ◌≤◌, ◌<◌, eq_bytes, eq_bytes_iff, [], ◌∷◌, none, Bytes, codes, length, ltb, ltb→lt, ok,
  Result-cases, Bool-cases, Option-cases, ◌≡◌, ◌⊎◌, inl, inr, refl, arith,
}
use cipher_sign.Prelude.Text.{String, code, concat}
use cipher_sign.Base.Hex.{decode_string}
use cipher_sign.Chain.{Chain, RpcError, ErrorData, no_data, other_data, text_data, bytes_data}
use cipher_sign.Support.Failure.{
  trim_prefix_0x, unpack_hex, decode_revert_from_error, revert_of_data, or_empty,
}
use cipher_sign.Fcc.Revert.{decoded_reason, decode_revert_hex, reason_of_data, decode_revert_reason}

short_text : (a : ℕ) → a ∷ [] ≡ b'0' ∷ b'x' ∷ [] → ⊥
short_text a h = absurd (cc)

two_codes : (a b : ℕ) (r : Bytes) → a ∷ b ∷ [] ≡ b'0' ∷ b'x' ∷ [] → a ∷ b ∷ r ≡ b'0' ∷ b'x' ∷ r
two_codes a b r h = cc

-- A text that begins with 0x loses these two characters, and any other stays as it is.
trim_prefix_0x-cases :
    (s : String) → (s ≡ trim_prefix_0x s) ⊎ (codes s ≡ b'0' ∷ b'x' ∷ codes (trim_prefix_0x s))
unfolding trim_prefix_0x eq_bytes
trim_prefix_0x-cases String.[] = inl refl
trim_prefix_0x-cases (String.◌∷◌ a String.[]) =
    elim (Bool-cases (eq_bytes (code a ∷ []) (codes "0x"))) [
      | inl t ↦ absurd (short_text (code a) ((eq_bytes_iff (code a ∷ []) (codes "0x")).0 t))
      | inr f ↦ rw f (inl refl)
    ]
trim_prefix_0x-cases (String.◌∷◌ a (String.◌∷◌ b s)) =
    elim (Bool-cases (eq_bytes (code a ∷ code b ∷ []) (codes "0x"))) [
      | inl t ↦ rw t (
          inr (
            two_codes (code a) (code b) (codes s)
              ((eq_bytes_iff (code a ∷ code b ∷ []) (codes "0x")).0 t)))
      | inr f ↦ rw f (inl refl)
    ]

module _ (c : Chain) (short : (b : Bytes) → length b < 4 → c.unpack_revert b ≡ none) where
  -- The data of the error is a text, with or without 0x before its digits; they are the hex of bytes
  -- that do not unpack.
  abbrev pub HexOf : ErrorData → String → Type 0
  HexOf d digits =
      (text : String) × (d ≡ text_data text)
      × ((text ≡ digits) ⊎ (codes text ≡ b'0' ∷ b'x' ∷ codes digits))
      × ((decoded : Bytes) × (decode_string (codes digits) ≡ ok decoded)
          × (4 ≤ length decoded)
          × (c.unpack_revert decoded ≡ none))

  -- The two agree, or the first has no reason and the second shows the data in hex behind 0x.
  abbrev pub Agreed : ErrorData → String → String → Type 0
  Agreed d by_support by_revert =
      (by_revert ≡ by_support)
      ⊎ ((by_support ≡ "")
          × ((digits : String) × HexOf d digits × (by_revert ≡ concat ("0x" ∷ digits ∷ []))))

  Agreed-bytes :
      (text : String) (decoded : Bytes)
      → decode_string (codes (trim_prefix_0x text)) ≡ ok decoded
      → Agreed
          (text_data text)
          (or_empty c (c.unpack_revert decoded))
          (decoded_reason c (trim_prefix_0x text) (ok decoded))
  Agreed-bytes text decoded d = elim (Bool-cases (ltb (length decoded) 4)) [
    | inl t ↦ rw (t, short decoded (ltb→lt (length decoded) 4 t)) (inl refl)
    | inr f ↦ elim (Option-cases (c.unpack_revert decoded)) [
      | inl p ↦
          rw (f, p)
            (inr (
              refl,
              (
                trim_prefix_0x text,
                (text, refl, trim_prefix_0x-cases text, (decoded, d, ground arith, p)),
                refl,
              ),
            ))
      | inr (reason, p) ↦ rw (f, p) (inl refl)
    ]
  ]

  Agreed-data : (d : ErrorData) → Agreed d (revert_of_data c d) (reason_of_data c d)
  unfolding revert_of_data unpack_hex decode_revert_hex
  Agreed-data no_data = inl refl
  Agreed-data other_data = inl refl
  Agreed-data (bytes_data d) = inl refl
  Agreed-data (text_data text) = elim (Result-cases (decode_string (codes (trim_prefix_0x text)))) [
    | inl (decoded, p) ↦ rw (p, unpack_hex, revert_of_data) (Agreed-bytes text decoded p)
    | inr (e, p) ↦ rw (p, revert_of_data, unpack_hex) (inl refl)
  ]

  -- Where go-ethereum unpacks no reason from data below four bytes, the two decoders of an RPC error
  -- give the same text, except where the data of the error is a text that is hex, with or without 0x,
  -- for four bytes or more of which go-ethereum unpacks no reason: there the one of package support may
  -- give the empty text and the other one that hex behind 0x.
  pub decode_revert_reason-Agreed :
      (e : RpcError) → Agreed e.error_data (decode_revert_from_error c e) (decode_revert_reason c e)
  unfolding decode_revert_from_error decode_revert_reason
  decode_revert_reason-Agreed e = Agreed-data e.error_data
