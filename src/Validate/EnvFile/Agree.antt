-- ===== src/Validate/EnvFile/Agree.antt =====
-- tee/go/tools/pkg/validate/checks.go: the two readers of extension.env, and its format check.
use cipher_sign.Prelude.{
  ℕ, zero, suc, Bool, true, false, ◌&&◌, List, [], ◌∷◌, Option, none, some, Bytes, codes, length,
  All, ◌==◌, ==_iff, if◌then◌else◌, ok, Bool-cases, Option-cases, ◌≡◌, ◌↔◌, ◌⊎◌, inl, inr, refl,
  sym, ap, ap₂, ◌∙◌, arith,
}
use mathlib.Core.Path.{subst}
use cipher_sign.Prelude.Text.{String, str_eq, eq_iff}
use cipher_sign.Validate.Report.{pass, CheckResult}
use cipher_sign.Validate.EnvFile.{
  Vars, entry, lookup, bind_lines, vars_of, scan_lines, parse_lines, switch_key, assign,
  parse_extension_env, check_extension_env_format, check_var, check_value, address_regex,
  extension_id_regex, prefixed_hex, hex_digits, is_hex_digit,
}
use cipher_sign.Validate.EnvFile.Entry.{Assigns, entry-Assigns_iff}
use cipher_sign.Base.Hex.Laws.{IsHexDigit}

abbrev pub or_blank : Option String → String
or_blank none = ""
or_blank (some v) = v

both_true : (a b : Bool) → (a && b) ≡ true → (a ≡ true) × (b ≡ true)
both_true true b h = (refl, h)
both_true false b h = absurd (cc)

or_blank-if :
    (b : Bool) (v : String) (o : Option String)
    → (if b then v else or_blank o) ≡ or_blank (if b then some v else o)
or_blank-if true v o = refl
or_blank-if false v o = refl

-- The two variables, read from the map of the other reader.
abbrev pub both_vars : Vars → String × String
both_vars vars =
    (or_blank (lookup "EXTENSION_ID" vars), or_blank (lookup "INSTRUCTION_SENDER" vars))

switch_key-assign :
    (o : Option (String × String)) (vars : Vars)
    → switch_key o (both_vars vars) ≡ both_vars (assign o vars)
unfolding switch_key assign lookup
switch_key-assign none vars = refl
switch_key-assign (some (k, v)) vars =
    ap₂ {C = String × String} (λ a b. (a, b)) (or_blank-if (str_eq k "EXTENSION_ID") v _)
      (or_blank-if (str_eq k "INSTRUCTION_SENDER") v _)

parse_lines-bind_lines :
    (ls : List String) (vars : Vars)
    → parse_lines ls (both_vars vars) ≡ both_vars (bind_lines ls vars)
unfolding parse_lines bind_lines
parse_lines-bind_lines [] vars = refl
parse_lines-bind_lines (l ∷ ls) vars =
    ap (parse_lines ls) (switch_key-assign (entry l) vars)
    ∙ parse_lines-bind_lines ls (assign (entry l) vars)

-- For every file, the parser gives the two values that the map of the format check holds under the
-- two names, the last assignment of a name winning, and the empty text where a name is missing.
pub parse_extension_env-vars_of :
    (text : String) → parse_extension_env (some text) ≡ ok (both_vars (vars_of text))
unfolding parse_extension_env vars_of lookup
parse_extension_env-vars_of text = ap ok (parse_lines-bind_lines (scan_lines text) [])

is_hex_digit_iff : (c : ℕ) → (is_hex_digit c ≡ true) ↔ IsHexDigit c
unfolding is_hex_digit
is_hex_digit_iff c = (λ h. ground arith, λ h. ground arith)

hex_digits_iff : (n : ℕ) (s : Bytes) → (hex_digits n s ≡ true) ↔ ((length s ≡ n) × All IsHexDigit s)
unfolding hex_digits
hex_digits_iff zero [] = (λ _. (refl, tt), λ _. refl)
hex_digits_iff zero (c ∷ s) = (λ h. absurd (cc), λ h. absurd (omega arith))
hex_digits_iff (suc n) [] = (λ h. absurd (cc), λ h. absurd (omega arith))
hex_digits_iff (suc n) (c ∷ s) =
    let d = is_hex_digit_iff c in
    let ih = hex_digits_iff n s in
    (
      λ h.
          let (hc, hs) = both_true (is_hex_digit c) (hex_digits n s) h in
          (ap suc (ih.0 hs).0, (d.0 hc, (ih.0 hs).1)),
      λ (len, (hc, hs)). rw (d.1 hc) (ih.1 (omega arith, hs)),
    )

prefix_eq : (z x : ℕ) (ds : Bytes) → z ≡ b'0' → x ≡ b'x' → z ∷ x ∷ ds ≡ b'0' ∷ b'x' ∷ ds
prefix_eq z x ds p q = rw (p, q)

prefixed_hex_iff :
    (n : ℕ) (s : Bytes)
    → (prefixed_hex n s ≡ true)
      ↔ ((ds : Bytes) × (s ≡ b'0' ∷ b'x' ∷ ds) × (length ds ≡ n) × All IsHexDigit ds)
unfolding prefixed_hex
prefixed_hex_iff n [] = (λ h. absurd (cc), λ (ds, e, r, q). absurd (cc))
prefixed_hex_iff n (z ∷ []) = (λ h. absurd (cc), λ (ds, e, r, q). absurd (cc))
prefixed_hex_iff n (z ∷ x ∷ ds) = (
  λ h.
      let (hz, r) = both_true (z == b'0') (x == b'x' && hex_digits n ds) h in
      let (hx, hs) = both_true (x == b'x') (hex_digits n ds) r in
      let (len, digits) = (hex_digits_iff n ds).0 hs in
      (ds, prefix_eq z x ds ((==_iff z b'0').0 hz) ((==_iff x b'x').0 hx), len, digits),
  λ (ds', e, len, digits). ground (arith, hex_digits_iff n ds),
)

-- A text passes the regular expression of an address exactly when it is 0x and 40 hex digits, and
-- that of an extension id exactly when it is 0x and 64.
pub regex_iff :
    (s : String)
    → ((address_regex s ≡ true)
        ↔ ((ds : Bytes) × (codes s ≡ b'0' ∷ b'x' ∷ ds) × (length ds ≡ 40) × All IsHexDigit ds))
      × ((extension_id_regex s ≡ true)
          ↔ ((ds : Bytes) × (codes s ≡ b'0' ∷ b'x' ∷ ds) × (length ds ≡ 64) × All IsHexDigit ds))
unfolding address_regex extension_id_regex
regex_iff s = (prefixed_hex_iff 40 (codes s), prefixed_hex_iff 64 (codes s))

-- The line assigns the variable.
abbrev pub Sets : String → String → Type 0
Sets key line = (v : String) × Assigns key v line

-- The last of the lines that assign the variable gives it this value.
pub data LastSet (key v : String) : List String → Type 0 where
  here :
      (l : String) (ls : List String)
      → Assigns key v l
      → All (λ x. ¬ Sets key x) ls
      → LastSet key v (l ∷ ls)
  later : (l : String) (ls : List String) → LastSet key v ls → LastSet key v (l ∷ ls)

some_inj : {v w : String} → some v ≡ some w → v ≡ w
some_inj h = cc

none-ne-some {ℓ} : {A : Type ℓ} {v : A} → none ≡ some v → ⊥
none-ne-some h = absurd (cc)

other :
    (k v w key l : String)
    → entry l ≡ some (k, v)
    → entry l ≡ some (key, w)
    → str_eq k key ≡ false
    → ⊥
other k v w key l p q f = absurd (ground (arith, eq_iff k key))

differs :
    (regex : String → Bool) (v w : String) → some v ≡ some w → regex w ≡ true → regex v ≡ false → ⊥
differs regex v w e r f = absurd (cc)

-- What one line does to the value of a variable.
assign-cases :
    (key l : String) (vars : Vars)
    → ((v : String) × Assigns key v l × (lookup key (assign (entry l) vars) ≡ some v))
      ⊎ (¬ Sets key l) × (lookup key (assign (entry l) vars) ≡ lookup key vars)
unfolding assign lookup
assign-cases key l vars = elim (Option-cases (entry l)) [
  | inl n ↦ rw n (inr ((λ (v, a). none-ne-some (sym n ∙ (entry-Assigns_iff l key v).1 a)), refl))
  | inr ((k, v), p) ↦ elim (Bool-cases (str_eq k key)) [
    | inl t ↦ inl (
      v,
      (entry-Assigns_iff l key v).0 (p ∙ ap (λ z. some (z, v)) ((eq_iff k key).0 t)),
      rw (p, t) refl,
    )
    | inr f ↦
        inr ((λ (w, a). other k v w key l p ((entry-Assigns_iff l key w).1 a) f), rw (p, f) refl)
  ]
]

lookup-bind_lines :
    (key : String) (ls : List String) (vars : Vars)
    → ((v : String) × (lookup key (bind_lines ls vars) ≡ some v) × LastSet key v ls)
      ⊎ (All (λ x. ¬ Sets key x) ls) × (lookup key (bind_lines ls vars) ≡ lookup key vars)
unfolding bind_lines
lookup-bind_lines key [] vars = inr (tt, refl)
lookup-bind_lines key (l ∷ ls) vars = elim (lookup-bind_lines key ls (assign (entry l) vars)) [
  | inl (v, e, s) ↦ inl (v, e, later l ls s)
  | inr (none_sets, e) ↦ elim (assign-cases key l vars) [
    | inl (v, p, q) ↦ inl (v, e ∙ q, here l ls p none_sets)
    | inr (n, q) ↦ inr ((n, none_sets), e ∙ q)
  ]
]

value_inj :
    {k v w : String} → ◌≡◌ {A = Option (String × String)} (some (k, v)) (some (k, w)) → v ≡ w
value_inj h = cc

LastSet-All :
    {key v : String} {ls : List String} → LastSet key v ls → All (λ x. ¬ Sets key x) ls → ⊥
LastSet-All (here l ls p rest) (n, a) = n (_, p)
LastSet-All (later l ls s) (n, a) = LastSet-All s a

LastSet-unique : {key v w : String} {ls : List String} → LastSet key v ls → LastSet key w ls → v ≡ w
LastSet-unique (here l ls p a) (here _ _ q b) =
    value_inj (sym ((entry-Assigns_iff l _ _).1 p) ∙ (entry-Assigns_iff l _ _).1 q)
LastSet-unique (here l ls p a) (later _ _ t) = absurd (LastSet-All t a)
LastSet-unique (later l ls s) (here _ _ q b) = absurd (LastSet-All s b)
LastSet-unique (later l ls s) (later _ _ t) = LastSet-unique s t

-- The map holds the value that the last assignment gives.
vars_of-LastSet :
    (key text v : String) → (lookup key (vars_of text) ≡ some v) ↔ LastSet key v (scan_lines text)
unfolding vars_of lookup
vars_of-LastSet key text v = elim (lookup-bind_lines key (scan_lines text) []) [
  | inl (w, e, s) ↦ (
    λ h. subst (λ z. LastSet key z (scan_lines text)) (some_inj (sym e ∙ h)) s,
    λ t. e ∙ ap some (LastSet-unique s t),
  )
  | inr (a, e) ↦ (λ h. absurd (none-ne-some (sym e ∙ h)), λ t. absurd (LastSet-All t a))
]

-- The text is 0x and so many hex digits.
abbrev pub PrefixedHex : ℕ → String → Type 0
PrefixedHex n s = (ds : Bytes) × (codes s ≡ b'0' ∷ b'x' ∷ ds) × (length ds ≡ n) × All IsHexDigit ds

-- The last line of the file that assigns the variable gives it 0x and so many hex digits.
abbrev pub SetToHex : String → ℕ → String → Type 0
SetToHex key n text = (v : String) × LastSet key v (scan_lines text) × PrefixedHex n v

check_value-pass_iff :
    (quote : String → String) (key : String) (regex : String → Bool) (o : Option String)
    → ((check_value quote key regex o).status ≡ pass)
      ↔ ((v : String) × (o ≡ some v) × (regex v ≡ true))
unfolding check_value
check_value-pass_iff quote key regex none = (λ h. absurd (cc), λ (v, e, r). absurd (none-ne-some e))
check_value-pass_iff quote key regex (some v) = elim (Bool-cases (regex v)) [
  | inl t ↦ rw t (λ _. (v, refl, t), λ _. refl)
  | inr f ↦ rw f (λ h. absurd (cc), λ (w, e, r). absurd (differs regex v w e r f))
]

check_var-pass_iff :
    (quote : String → String) (text key : String) (regex : String → Bool) (n : ℕ)
    → ((s : String) → (regex s ≡ true) ↔ PrefixedHex n s)
    → ((check_var quote (vars_of text) key regex).status ≡ pass) ↔ SetToHex key n text
unfolding check_var
check_var-pass_iff quote text key regex n form =
    let value = check_value-pass_iff quote key regex (lookup key (vars_of text)) in
    (
      λ h. let (v, e, r) = value.0 h in (v, (vars_of-LastSet key text v).0 e, (form v).0 r),
      λ (v, s, p). value.1 (v, (vars_of-LastSet key text v).1 s, (form v).1 p),
    )

-- For a file that opens, the format check gives two results, for the instruction sender and the
-- extension id in this order. The first passes exactly when the last line of the file that assigns
-- INSTRUCTION_SENDER gives it 0x and 40 hex digits, the second exactly when the last line that assigns
-- EXTENSION_ID gives it 0x and 64. A line assigns a variable if it is no comment and has the name before
-- its first equals sign, the space around the line, the name and the value left aside.
pub check_extension_env_format-pass_iff :
    (quote : String → String) (path text : String)
    → (first : CheckResult) × (second : CheckResult) × (check_extension_env_format quote path
          (some text)
        ≡ first ∷ second ∷ [])
      × ((first.status ≡ pass) ↔ SetToHex "INSTRUCTION_SENDER" 40 text)
      × ((second.status ≡ pass) ↔ SetToHex "EXTENSION_ID" 64 text)
unfolding check_extension_env_format
check_extension_env_format-pass_iff quote path text = (
  check_var quote (vars_of text) "INSTRUCTION_SENDER" address_regex,
  check_var quote (vars_of text) "EXTENSION_ID" extension_id_regex,
  refl,
  check_var-pass_iff quote text "INSTRUCTION_SENDER" address_regex 40 (λ s. (regex_iff s).0),
  check_var-pass_iff quote text "EXTENSION_ID" extension_id_regex 64 (λ s. (regex_iff s).1),
)
