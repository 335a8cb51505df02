-- ===== src/Prelude/Text.antt =====
-- Texts as native strings, for what is compared, taken apart by characters and printed.
use Prim.Native.Nat.{ℕ, zero, suc, ◌/◌, ◌%◌}
use Prim.Native.String
use Prim.Native.Char.{code}
use mathlib.Core.Path.{◌≡◌, refl}
use mathlib.Core.Bool.{Bool, true, false, ◌||◌, ◌&&◌}
use mathlib.Core.List.{List, [], ◌∷◌}
use cipher_sign.Prelude.Tests.{leb, ◌==◌, if◌then◌else◌}
pub use Prim.Native.String.{String}
pub use Prim.Native.Char.{Char, code, len_utf8}
pub use text.Mathlib.Text.{◌==◌ as str_eq}
pub use text.Mathlib.TextEquality.{eq_iff}

-- The texts one after the other, as the verbs of a format are filled.
unfoldable pub concat : List String → String
concat [] = ""
concat (s ∷ ss) = String.◌++◌ s (concat ss)

unfoldable pub digit : ℕ → String
digit d =
    if d == 0
    then "0"
    else if d == 1
    then "1"
    else if d == 2
    then "2"
    else if d == 3
    then "3"
    else if d == 4
    then "4"
    else if d == 5
    then "5"
    else if d == 6
    then "6"
    else if d == 7
    then "7"
    else if d == 8
    then "8"
    else "9"

itoa_loop : ℕ → ℕ → String → String
itoa_loop zero n acc = acc
itoa_loop (suc f) n acc =
    let out = String.◌++◌ (digit (n % 10)) acc in
    let rest = itoa_loop f (n / 10) out in if n / 10 == 0 then out else rest

-- Decimal print, `%d` of a number that is not negative. A number has fewer digits than `n + 1`.
unfoldable pub itoa : ℕ → String
unfolding itoa_loop digit
itoa n = itoa_loop (suc n) n ""

unfoldable pub contains : List String → String → Bool
contains [] s = false
contains (x ∷ xs) s = str_eq x s || contains xs s

abbrev pub is_blank : String → Bool
is_blank String.[] = true
is_blank (String.◌∷◌ _ _) = false

-- `s[2:]`, of a text that has two characters at least.
abbrev pub drop_2 : String → String
drop_2 String.[] = ""
drop_2 (String.◌∷◌ a String.[]) = ""
drop_2 (String.◌∷◌ a (String.◌∷◌ b s)) = s

-- `%x` of a number below 16, and of bytes.
unfoldable pub hex_digit : ℕ → String
unfolding digit
hex_digit d =
    if d == 10
    then "a"
    else if d == 11
    then "b"
    else if d == 12
    then "c"
    else if d == 13
    then "d"
    else if d == 14
    then "e"
    else if d == 15
    then "f"
    else digit d

unfoldable pub hex_text : List ℕ → String
unfolding hex_digit
hex_text [] = ""
hex_text (b ∷ bs) = concat (hex_digit (b / 16) ∷ hex_digit (b % 16) ∷ hex_text bs ∷ [])

itoa_sample : itoa 1207 ≡ "1207"
unfolding itoa
itoa_sample = refl

-- `unicode.IsSpace`.
unfoldable pub is_space : ℕ → Bool
is_space c =
    (leb 9 c && leb c 13)
    || (c == 32
        || (c == 0x85
            || (c == 0xa0
                || (c == 0x1680
                    || ((leb 0x2000 c && leb c 0x200a)
                        || (c == 0x2028
                            || (c == 0x2029 || (c == 0x202f || (c == 0x205f || c == 0x3000)))))))))

unfoldable pub trim_left : String → String
unfolding is_space
trim_left String.[] = ""
trim_left (String.◌∷◌ c s) =
    let rest = trim_left s in if is_space (code c) then rest else String.◌∷◌ c s

unfoldable pub trim_right : String → String
unfolding is_space
trim_right String.[] = ""
trim_right (String.◌∷◌ c s) =
    let rest = trim_right s in if is_space (code c) && is_blank rest then "" else String.◌∷◌ c rest

-- `strings.TrimSpace`.
unfoldable pub trim_space : String → String
unfolding trim_left trim_right
trim_space s = trim_right (trim_left s)

trim_sample : trim_space "\t a b \r" ≡ "a b"
unfolding trim_space
trim_sample = refl

-- `strings.Contains`, over the codes of both texts.
unfoldable pub starts_with : List ℕ → List ℕ → Bool
starts_with s [] = true
starts_with [] (y ∷ ys) = false
starts_with (x ∷ xs) (y ∷ ys) = x == y && starts_with xs ys

unfoldable pub has_text : List ℕ → List ℕ → Bool
unfolding starts_with
has_text [] part = starts_with [] part
has_text (x ∷ xs) part = starts_with (x ∷ xs) part || has_text xs part
