-- ===== src/Validate/EnvFile.antt =====
-- tee/go/tools/pkg/validate/checks.go: extension.env, as the code reads it twice over. A file is its
-- text, read by bufio.Scanner: lines lose a final carriage return, and a line of 65536 bytes or
-- more ends the scan with no error seen.
pub mod Entry
pub mod Agree
use cipher_sign.Prelude.{
  ℕ, zero, suc, ◌+◌, ◌-◌, ◌/◌, Bool, true, false, not, ◌&&◌, ◌||◌, List, [], ◌∷◌, Option, none,
  some, Bytes, codes, leb, ◌==◌, if◌then◌else◌, Result, ok,
}
use cipher_sign.Prelude.Text.{String, Char, code, len_utf8, str_eq, concat, is_blank, trim_space}
use cipher_sign.Validate.Report.{CheckResult, pass, fail, skip}

abbrev pub max_token : ℕ
max_token = 65536

split_lines : String → List String
split_lines String.[] = []
split_lines (String.◌∷◌ c s) =
    let rest = split_lines s in
    if code c == 10
    then "" ∷ rest
    else elim rest [ [] ↦ String.◌∷◌ c "" ∷ [] | l ∷ ls ↦ String.◌∷◌ c l ∷ ls ]

byte_length : String → ℕ
byte_length String.[] = 0
byte_length (String.◌∷◌ c s) = len_utf8 c + byte_length s

abbrev is_cr : Char → Bool
is_cr c = code c == 13

drop_cr : String → String
drop_cr String.[] = ""
drop_cr (String.◌∷◌ c s) = if is_cr c && is_blank s then "" else String.◌∷◌ c (drop_cr s)

scanned : List String → List String
unfolding byte_length drop_cr
scanned [] = []
scanned (l ∷ ls) =
    let rest = scanned ls in if leb max_token (byte_length l) then [] else drop_cr l ∷ rest

-- The texts that `scanner.Scan` yields.
unfoldable pub scan_lines : String → List String
unfolding split_lines scanned
scan_lines s = scanned (split_lines s)

starts_with_hash : String → Bool
starts_with_hash String.[] = false
starts_with_hash (String.◌∷◌ c s) = code c == b'#'

-- `strings.SplitN(line, "=", 2)`, where it gives two parts.
split_at_equals : String → Option (String × String)
split_at_equals String.[] = none
split_at_equals (String.◌∷◌ c s) =
    let rest = split_at_equals s in
    if code c == b'='
    then some ("", s)
    else elim rest [ none ↦ none | some (k, v) ↦ some (String.◌∷◌ c k, v) ]

-- What both loops make of one line: nothing of a blank line, a comment or a line with no `=`.
unfoldable pub entry : String → Option (String × String)
unfolding starts_with_hash split_at_equals
entry text =
    let line = trim_space text in
    if is_blank line || starts_with_hash line then none else elim (split_at_equals line) [
      | none ↦ none
      | some (k, v) ↦ some (trim_space k, trim_space v)
    ]

-- The map `vars`, its newest binding first.
abbrev pub Vars : Type 0
Vars = List (String × String)

unfoldable pub lookup : String → Vars → Option String
lookup k [] = none
lookup k ((j, v) ∷ rest) = if str_eq j k then some v else lookup k rest

-- `vars[k] = v` for the entry of one line.
assign : Option (String × String) → Vars → Vars
assign none vars = vars
assign (some (k, v)) vars = (k, v) ∷ vars

bind_lines : List String → Vars → Vars
unfolding assign
bind_lines [] vars = vars
bind_lines (l ∷ ls) vars = bind_lines ls (assign (entry l) vars)

unfoldable pub vars_of : String → Vars
unfolding bind_lines scan_lines
vars_of text = bind_lines (scan_lines text) []

is_hex_digit : ℕ → Bool
is_hex_digit c =
    (leb b'0' c && leb c b'9') || ((leb b'a' c && leb c b'f') || (leb b'A' c && leb c b'F'))

-- The rest of `^0x[0-9a-fA-F]{n}$`.
hex_digits : ℕ → Bytes → Bool
unfolding is_hex_digit
hex_digits zero [] = true
hex_digits zero (c ∷ s) = false
hex_digits (suc n) [] = false
hex_digits (suc n) (c ∷ s) = is_hex_digit c && hex_digits n s

prefixed_hex : ℕ → Bytes → Bool
unfolding hex_digits
prefixed_hex n (z ∷ x ∷ s) = z == b'0' && (x == b'x' && hex_digits n s)
prefixed_hex n _ = false

-- `addressRegex` and `extensionIDRegex`.
unfoldable pub address_regex : String → Bool
unfolding prefixed_hex
address_regex s = prefixed_hex 40 (codes s)

unfoldable pub extension_id_regex : String → Bool
unfolding prefixed_hex
extension_id_regex s = prefixed_hex 64 (codes s)

-- A file that cannot be opened is none.
abbrev pub File : Type 0
File = Option String

fix_env : String
fix_env = "Delete config/extension.env and re-run scripts/pre-build.sh"

-- The two tests of one variable on what the map holds under its key; `quote` is `%q`.
check_value : (String → String) → String → (String → Bool) → Option String → CheckResult
unfolding fix_env
check_value quote key regex none = record {
  step = "deploy";
  id = "D7";
  name = concat (key ∷ " in extension.env" ∷ []);
  status = fail;
  message = concat (key ∷ " not found in extension.env" ∷ []);
  fix = fix_env;
}
check_value quote key regex (some val) =
    if not (regex val)
    then record {
      step = "deploy";
      id = "D7";
      name = concat (key ∷ " in extension.env" ∷ []);
      status = fail;
      message = concat (key ∷ " has invalid format: " ∷ quote val ∷ []);
      fix = fix_env;
    }
    else record {
      step = "deploy";
      id = "D7";
      name = concat (key ∷ " in extension.env" ∷ []);
      status = pass;
      message = val;
      fix = "";
    }

check_var : (String → String) → Vars → String → (String → Bool) → CheckResult
unfolding check_value
check_var quote vars key regex = check_value quote key regex (lookup key vars)

unfoldable pub check_extension_env_format : (String → String) → String → File → List CheckResult
unfolding check_var
check_extension_env_format quote path none =
    record {
      step = "deploy";
      id = "D7";
      name = "extension.env exists";
      status = skip;
      message = concat ("file not found: " ∷ path ∷ []);
      fix = "";
    }
    ∷ []
check_extension_env_format quote path (some text) =
    let vars = vars_of text in
    check_var quote vars "INSTRUCTION_SENDER" address_regex
    ∷ (check_var quote vars "EXTENSION_ID" extension_id_regex ∷ [])

-- The `switch` of `parseExtensionEnv` on one entry, over its two results.
switch_key : Option (String × String) → String × String → String × String
switch_key none found = found
switch_key (some (key, val)) (extension_id, instruction_sender) = (
  if str_eq key "EXTENSION_ID" then val else extension_id,
  if str_eq key "INSTRUCTION_SENDER" then val else instruction_sender,
)

parse_lines : List String → String × String → String × String
unfolding switch_key
parse_lines [] found = found
parse_lines (l ∷ ls) found = parse_lines ls (switch_key (entry l) found)

-- The error result is always nil.
unfoldable pub parse_extension_env : File → Result String (String × String)
unfolding parse_lines scan_lines
parse_extension_env none = ok ("", "")
parse_extension_env (some text) = ok (parse_lines (scan_lines text) ("", ""))
