-- ===== src/Base/Hex/Laws.antt =====
-- tee/go/internal/base/encoding.go: the hex print and its decoder together.
use cipher_sign.Prelude.{
  ℕ, ◌+◌, ◌-◌, ◌*◌, ◌/◌, ◌%◌, ◌≤◌, ◌<◌, ◌&&◌, [], ◌∷◌, map, Bytes, length, All, IsBytes, leb,
  if◌then◌else◌, ok, Result-cases, ◌≡◌, ◌⊎◌, inl, inr, refl, sym, ◌∙◌, arith,
}
use cipher_sign.Base.Hex.{
  hex_char, hex_value, encode_to_string, decode_string, trim_0x, hex_to_bytes, bytes_to_hex,
  is_empty,
}

pub hex_value-hex_char : (n : ℕ) → n < 16 → hex_value (hex_char n) ≡ ok n
unfolding hex_value hex_char
hex_value-hex_char n h = ground arith

pub decode_string-encode_to_string :
    (b : Bytes) → IsBytes b → decode_string (encode_to_string b) ≡ ok b
unfolding decode_string encode_to_string
decode_string-encode_to_string [] h = refl
decode_string-encode_to_string (x ∷ b) (hx, h) = ground (
  arith,
  hex_value-hex_char (x / 16),
  hex_value-hex_char (x % 16),
  decode_string-encode_to_string b h,
)

-- Every byte string is read back from its 0x-prefixed hex print.
pub hex_to_bytes-bytes_to_hex : (b : Bytes) → IsBytes b → hex_to_bytes (bytes_to_hex b) ≡ ok b
unfolding hex_to_bytes bytes_to_hex encode_to_string
hex_to_bytes-bytes_to_hex [] h = refl
hex_to_bytes-bytes_to_hex (x ∷ b) h = decode_string-encode_to_string (x ∷ b) h

hex_value-lt : (c : ℕ) {v : ℕ} → hex_value c ≡ ok v → v < 16
unfolding hex_value
hex_value-lt c h = ground arith

decode_pair :
    (p q : ℕ) (rest b : Bytes)
    → decode_string (p ∷ q ∷ rest) ≡ ok b
    → (x : ℕ) × (y : ℕ) × (bs : Bytes) × (hex_value p ≡ ok x)
      × (hex_value q ≡ ok y)
      × (decode_string rest ≡ ok bs)
      × (b ≡ (x * 16 + y) ∷ bs)
unfolding decode_string
decode_pair p q rest b h = elim (Result-cases (hex_value p)) [
  | inr (e, hp) ↦ absurd (ground arith)
  | inl (x, hp) ↦ elim (Result-cases (hex_value q)) [
    | inr (e, hq) ↦ absurd (ground arith)
    | inl (y, hq) ↦ elim (Result-cases (decode_string rest)) [
      | inr (e, hr) ↦ absurd (ground arith)
      | inl (bs, hr) ↦ (x, y, bs, hp, hq, hr, ground arith)
    ]
  ]
]

-- Lower case of a hex digit.
abbrev pub to_lower : ℕ → ℕ
to_lower c = if leb b'A' c && leb c b'F' then c + 32 else c

hex_char-hex_value : (c : ℕ) {v : ℕ} → hex_value c ≡ ok v → hex_char v ≡ to_lower c
unfolding hex_value hex_char
hex_char-hex_value c h = ground arith

encode_pair :
    (x y : ℕ) (bs : Bytes)
    → x < 16
    → y < 16
    → encode_to_string ((x * 16 + y) ∷ bs) ≡ hex_char x ∷ hex_char y ∷ encode_to_string bs
unfolding encode_to_string
encode_pair x y bs hx hy =
    let e1 : (x * 16 + y) / 16 ≡ x = omega arith in
    let e2 : (x * 16 + y) % 16 ≡ y = omega arith in rw (e1, e2)

empty_or_decode : (t : Bytes) → (if is_empty t then ok [] else decode_string t) ≡ decode_string t
unfolding is_empty decode_string
empty_or_decode [] = refl
empty_or_decode (c ∷ t) = refl

-- The test for an empty text changes nothing.
pub hex_to_bytes-decode_string : (h : Bytes) → hex_to_bytes h ≡ decode_string (trim_0x h)
unfolding hex_to_bytes decode_string
hex_to_bytes-decode_string h = empty_or_decode (trim_0x h)

-- What decodes is a text of bytes, half as long, and its hex print is the lower case of the input.
pub decode_string_sound :
    (s b : Bytes)
    → decode_string s ≡ ok b
    → IsBytes b × (length s ≡ 2 * length b) × (encode_to_string b ≡ map to_lower s)
decode_string_sound [] b h = unfold decode_string encode_to_string in ground arith
decode_string_sound (p ∷ []) b h = absurd (unfold decode_string in ground arith)
decode_string_sound (p ∷ q ∷ rest) b h =
    let (x, y, bs, hp, hq, hr, e) = decode_pair p q rest b h in
    let (bytes, len, print) = decode_string_sound rest bs hr in
    let lx = hex_value-lt p hp in
    let ly = hex_value-lt q hq in
    rw e (
      (omega arith, bytes),
      omega arith,
      encode_pair x y bs lx ly ∙ cc (hex_char-hex_value p hp, hex_char-hex_value q hq, print),
    )

-- A byte of a hex text.
abbrev pub IsHexDigit : ℕ → Type 0
IsHexDigit c = (b'0' ≤ c) × (c ≤ b'9') ⊎ (b'a' ≤ c) × (c ≤ b'f') ⊎ (b'A' ≤ c) × (c ≤ b'F')

hex_value_total : (c : ℕ) → IsHexDigit c → (v : ℕ) × (hex_value c ≡ ok v)
unfolding hex_value
hex_value_total c (inl h) = (c - b'0', ground arith)
hex_value_total c (inr (inl h)) = (c - b'a' + 10, ground arith)
hex_value_total c (inr (inr h)) = (c - b'A' + 10, ground arith)

decode_string_total :
    (s : Bytes) → All IsHexDigit s → length s % 2 ≡ 0 → (b : Bytes) × (decode_string s ≡ ok b)
unfolding decode_string
decode_string_total [] a e = ([], refl)
decode_string_total (p ∷ []) a e = absurd (omega arith)
decode_string_total (p ∷ q ∷ rest) (hp, (hq, a)) e =
    let (x, ex) = hex_value_total p hp in
    let (y, ey) = hex_value_total q hq in
    let (bs, er) = decode_string_total rest a (omega arith) in ((x * 16 + y) ∷ bs, rw (ex, ey, er))

-- A text that is hex digits in even number behind an optional 0x is accepted; the result is bytes
-- whose hex print is the lower case of those digits.
pub hex_to_bytes_total :
    (h : Bytes)
    → All IsHexDigit (trim_0x h)
    → length (trim_0x h) % 2 ≡ 0
    → (b : Bytes) × (hex_to_bytes h ≡ ok b)
      × IsBytes b
      × (encode_to_string b ≡ map to_lower (trim_0x h))
hex_to_bytes_total h a e =
    let (b, p) = decode_string_total (trim_0x h) a e in
    let (bytes, _, print) = decode_string_sound (trim_0x h) b p in
    (b, hex_to_bytes-decode_string h ∙ p, bytes, print)

pub hex_to_bytes-IsBytes : (h b : Bytes) → hex_to_bytes h ≡ ok b → IsBytes b
hex_to_bytes-IsBytes h b p =
    (decode_string_sound (trim_0x h) b (sym (hex_to_bytes-decode_string h) ∙ p)).0
