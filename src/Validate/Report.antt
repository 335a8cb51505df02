-- ===== src/Validate/Report.antt =====
-- tee/go/tools/pkg/validate/report.go. What a printer writes is the list of the texts that its
-- calls of Fprintf write; the JSON text itself is that of encoding/json.
pub mod Groups
pub mod Fails
use cipher_sign.Prelude.{
  ℕ, ◌+◌, ◌-◌, Bool, true, false, List, [], ◌∷◌, ◌++◌, map, ◌==◌, if◌then◌else◌,
}
use cipher_sign.Prelude.Text.{String, str_eq, concat, itoa, contains, is_blank, trim_space}

pub data Status : Type 0 where
  pass warn fail skip : Status

unfoldable pub status_string : Status → String
status_string pass = "PASS"
status_string warn = "WARN"
status_string fail = "FAIL"
status_string skip = "SKIP"

pub record CheckResult : Type 0 where
  pub step : String
  pub id : String
  pub name : String
  pub status : Status
  pub message : String
  pub fix : String

pub record Report : Type 0 where
  pub results : List CheckResult

unfoldable pub add : CheckResult → Report → Report
add result r = record { results = r.results ++ result ∷ [] }

-- `r.Add` of several results, in their order.
unfoldable pub add_all : List CheckResult → Report → Report
unfolding add
add_all [] r = r
add_all (x ∷ xs) r = add_all xs (add x r)

abbrev pub is_fail : Status → Bool
is_fail fail = true
is_fail _ = false

unfoldable pub any_fail : List CheckResult → Bool
any_fail [] = false
any_fail (x ∷ xs) = let rest = any_fail xs in if is_fail x.status then true else rest

unfoldable pub has_failures : Report → Bool
unfolding any_fail
has_failures r = any_fail r.results

pub record Counts : Type 0 where
  pub passed : ℕ
  pub warning : ℕ
  pub failed : ℕ
  pub skipped : ℕ

abbrev count_status : Status → Counts → Counts
count_status pass c = record c { passed = c.passed + 1 }
count_status warn c = record c { warning = c.warning + 1 }
count_status fail c = record c { failed = c.failed + 1 }
count_status skip c = record c { skipped = c.skipped + 1 }

count_loop : List CheckResult → Counts → Counts
count_loop [] c = c
count_loop (x ∷ xs) c = count_loop xs (count_status x.status c)

-- The four counters of `Summary` after its loop.
unfoldable pub counts : Report → Counts
unfolding count_loop
counts r = count_loop r.results (record { passed = 0; warning = 0; failed = 0; skipped = 0 })

unfoldable pub summary : Report → String
unfolding counts
summary r =
    let c = counts r in
    concat (
      itoa c.passed
      ∷ " passed, "
      ∷ itoa c.warning
      ∷ " warning, "
      ∷ itoa c.failed
      ∷ " failed, "
      ∷ itoa c.skipped
      ∷ " skipped"
      ∷ [])

abbrev pub color_reset : String
color_reset = "\u{1b}[0m"

abbrev color_cyan : String
color_cyan = "\u{1b}[36m"

unfoldable pub status_color : Status → String
status_color pass = "\u{1b}[32m"
status_color warn = "\u{1b}[33m"
status_color fail = "\u{1b}[31m"
status_color skip = "\u{1b}[90m"

-- The map `stepLabel`, with the step itself where it has no label.
unfoldable pub step_label : String → String
step_label s =
    if str_eq s "deploy"
    then "Contract Deployment"
    else if str_eq s "register"
    then "Extension Registration"
    else if str_eq s "services"
    then "Service Startup"
    else if str_eq s "tee-version"
    then "TEE Version Registration"
    else if str_eq s "tee-machine"
    then "TEE Machine Registration"
    else if str_eq s "test"
    then "Testing"
    else s

-- The first loop of `Fprint`: the steps in the order in which they first appear. `seen` holds just
-- the steps collected.
collect_steps : List CheckResult → List String → List String
collect_steps [] steps = steps
collect_steps (x ∷ xs) steps =
    collect_steps xs (if contains steps x.step then steps else steps ++ x.step ∷ [])

unfoldable pub steps_of : Report → List String
unfolding collect_steps
steps_of r = collect_steps r.results []

-- The results of one step, in their order.
unfoldable pub of_step : String → List CheckResult → List CheckResult
of_step step [] = []
of_step step (x ∷ xs) = let rest = of_step step xs in if str_eq x.step step then x ∷ rest else rest

abbrev needs_detail : Status → Bool
needs_detail fail = true
needs_detail warn = true
needs_detail _ = false

abbrev detail : String → String → String → List String
detail before text after = if is_blank text then [] else concat (before ∷ text ∷ after ∷ []) ∷ []

unfoldable pub print_result : CheckResult → List String
unfolding status_color status_string
print_result x =
    concat (
      "  "
      ∷ status_color x.status
      ∷ "["
      ∷ status_string x.status
      ∷ "]"
      ∷ color_reset
      ∷ " "
      ∷ x.id
      ∷ "  "
      ∷ x.name
      ∷ "\n"
      ∷ [])
    ∷ (if needs_detail x.status
        then detail "         " x.message "\n" ++ detail "         Fix: " x.fix "\n"
        else [])

print_results : List CheckResult → List String
unfolding print_result
print_results [] = []
print_results (x ∷ xs) = print_result x ++ print_results xs

print_steps : List String → List CheckResult → List String
unfolding of_step print_results step_label
print_steps [] results = []
print_steps (s ∷ ss) results =
    concat (step_label s ∷ ":\n" ∷ [])
    ∷ (print_results (of_step s results) ++ ("\n" ∷ print_steps ss results))

unfoldable pub fprint : Report → List String
unfolding print_steps
fprint r =
    concat
      ("\n" ∷ color_cyan ∷ "=== Deployment Verification Report ===" ∷ color_reset ∷ "\n\n" ∷ [])
    ∷ (print_steps (steps_of r) r.results ++ (concat (summary r ∷ "\n" ∷ []) ∷ []))

pub record JsonResult : Type 0 where
  pub step : String
  pub id : String
  pub name : String
  pub status : String
  pub message : String
  pub fix : String

pub record JsonReport : Type 0 where
  pub results : List JsonResult
  pub summary_text : String

abbrev json_result : CheckResult → JsonResult
json_result x = record {
  step = x.step;
  id = x.id;
  name = x.name;
  status = status_string x.status;
  message = trim_space x.message;
  fix = trim_space x.fix;
}

-- What `FprintJSON` hands to the encoder.
unfoldable pub fprint_json : Report → JsonReport
fprint_json r = record { results = map json_result r.results; summary_text = summary r }
