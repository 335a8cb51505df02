-- ===== src/Validate/EnvFile/Entry.antt =====
-- tee/go/tools/pkg/validate/checks.go: which lines of extension.env assign a variable.
use cipher_sign.Prelude.{
  false, ◌||◌, Option, some, codes, All, ◌==◌, ==_iff, Bool-cases, Option-cases, ◌≡◌, ◌≢◌, ◌↔◌, inl,
  inr, refl, ap, ap₂, ◌∙◌, arith,
}
use mathlib.Core.Path.{subst}
use cipher_sign.Prelude.Text.{String, Char, code, is_blank, trim_space}
use cipher_sign.Validate.EnvFile.{entry, split_at_equals, starts_with_hash}

-- The two texts with a character between them.
abbrev pub with_between : String → Char → String → String
with_between String.[] c b = String.◌∷◌ c b
with_between (String.◌∷◌ x a) c b = String.◌∷◌ x (with_between a c b)

-- The text is `a`, which has no equals sign, then an equals sign, then `b`.
pub record SplitAt (s a b : String) : Type 0 where
  pub equals : Char
  pub is_equals : code equals ≡ b'='
  pub parts : s ≡ with_between a equals b
  pub first : All (λ x. x ≢ b'=') (codes a)

split-SplitAt : (s a b : String) → split_at_equals s ≡ some (a, b) → SplitAt s a b
unfolding split_at_equals
split-SplitAt String.[] a b h = absurd (cc)
split-SplitAt (String.◌∷◌ c s) a b h = elim (Bool-cases (code c == b'=')) [
  | inl t ↦
      let e : ◌≡◌ {A = Option (String × String)} (some ("", s)) (some (a, b)) = rw t at h in
      let ea : "" ≡ a = cc e in
      let eb : s ≡ b = cc e in
      subst (λ z. SplitAt (String.◌∷◌ c s) z b) ea
        (record {
          equals = c;
          is_equals = (==_iff (code c) b'=').0 t;
          parts = ap (String.◌∷◌ c) eb;
          first = tt;
        })
  | inr f ↦ elim (Option-cases (split_at_equals s)) [
    | inl n ↦ absurd (cc (rw (f, n) at h))
    | inr ((k, v), p) ↦
        let e : ◌≡◌ {A = Option (String × String)} (some (String.◌∷◌ c k, v)) (some (a, b)) =
          rw (f, p) at h in
        let r = split-SplitAt s k v p in
        let ea : String.◌∷◌ c k ≡ a = cc e in
        let eb : v ≡ b = cc e in
        subst (λ z. SplitAt (String.◌∷◌ c s) z b) ea
          (record {
            equals = r.equals;
            is_equals = r.is_equals;
            parts = ap (String.◌∷◌ c) (r.parts ∙ ap (λ z. with_between k r.equals z) eb);
            first = ((λ q. ground arith), r.first);
          })
  ]
]

SplitAt-split :
    (a b : String) (c : Char)
    → code c ≡ b'='
    → All (λ x. x ≢ b'=') (codes a)
    → split_at_equals (with_between a c b) ≡ some (a, b)
unfolding split_at_equals
SplitAt-split String.[] b c e f = rw ((==_iff (code c) b'=').1 e) refl
SplitAt-split (String.◌∷◌ x a) b c e (n, f) = elim (Bool-cases (code x == b'=')) [
  | inl t ↦ absurd (n ((==_iff (code x) b'=').0 t))
  | inr g ↦ rw (g, SplitAt-split a b c e f) refl
]

-- The line, without the space around it, is no comment and has an equals sign. The variable is named
-- before the first one and its value stands behind it, both without the space around them.
pub record Assigns (key v line : String) : Type 0 where
  pub name : String
  pub value : String
  pub split : SplitAt (trim_space line) name value
  pub no_comment : (c : Char) (r : String) → trim_space line ≡ String.◌∷◌ c r → code c ≢ b'#'
  pub is_key : trim_space name ≡ key
  pub is_value : trim_space value ≡ v

hash-code :
    (s : String) (c : Char) (r : String)
    → starts_with_hash s ≡ false
    → s ≡ String.◌∷◌ c r
    → code c ≢ b'#'
unfolding starts_with_hash
hash-code s c r h e q =
    let t : starts_with_hash (String.◌∷◌ c r) ≡ false =
      subst (λ z. starts_with_hash z ≡ false) e h in
    absurd (ground arith)

code-hash :
    (s : String)
    → ((c : Char) (r : String) → s ≡ String.◌∷◌ c r → code c ≢ b'#')
    → starts_with_hash s ≡ false
unfolding starts_with_hash
code-hash String.[] h = refl
code-hash (String.◌∷◌ c s) h = elim (Bool-cases (code c == b'#')) [
  | inl t ↦ absurd (h c s refl ((==_iff (code c) b'#').0 t))
  | inr f ↦ f
]

with_between-is_blank : (a : String) (c : Char) (b : String) → is_blank (with_between a c b) ≡ false
with_between-is_blank String.[] c b = refl
with_between-is_blank (String.◌∷◌ x a) c b = refl

entry-Assigns : (l key v : String) → entry l ≡ some (key, v) → Assigns key v l
unfolding entry
entry-Assigns l key v h =
    let line = trim_space l in
    elim (Bool-cases (is_blank line || starts_with_hash line)) [
      | inl t ↦ absurd (cc (rw t at h))
      | inr f ↦ elim (Option-cases (split_at_equals line)) [
        | inl n ↦ absurd (cc (rw (f, n) at h))
        | inr ((a, b), p) ↦
            let e : ◌≡◌ {A = Option (String × String)} (some (trim_space a, trim_space b))
                (some (key, v)) =
              rw (f, p) at h in
            record {
              name = a;
              value = b;
              split = split-SplitAt line a b p;
              no_comment = λ c r q. hash-code line c r (ground arith) q;
              is_key = cc e;
              is_value = cc e;
            }
      ]
    ]

Assigns-entry : (l key v : String) → Assigns key v l → entry l ≡ some (key, v)
unfolding entry
Assigns-entry l key v r =
    let line = trim_space l in
    let s = r.split in
    let parts : split_at_equals line ≡ some (r.name, r.value) =
      ap split_at_equals s.parts ∙ SplitAt-split r.name r.value s.equals s.is_equals s.first in
    let full : is_blank line ≡ false =
      ap is_blank s.parts ∙ with_between-is_blank r.name s.equals r.value in
    let goes : (is_blank line || starts_with_hash line) ≡ false =
      rw full (code-hash line r.no_comment) in
    let computed : entry l ≡ some (trim_space r.name, trim_space r.value) =
      rw (goes, parts, entry) refl in
    computed ∙ ap₂ {C = Option (String × String)} (λ x y. some (x, y)) r.is_key r.is_value

-- The two loops read a variable and its value from a line exactly when the line assigns it.
pub entry-Assigns_iff : (l key v : String) → (entry l ≡ some (key, v)) ↔ Assigns key v l
entry-Assigns_iff l key v = (entry-Assigns l key v, Assigns-entry l key v)
