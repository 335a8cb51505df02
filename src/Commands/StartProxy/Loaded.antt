-- ===== src/Commands/StartProxy/Loaded.antt =====
-- tee/go/tools/cmd/start-proxy/main.go: loadEnv, and the configuration file that is found behind it.
use cipher_sign.Prelude.{Bool, List, Bool-cases, ◌≡◌, ◌≢◌, inl, inr, refl, sym, ◌∙◌}
use cipher_sign.Prelude.Text.{String, str_eq, eq_iff}
use cipher_sign.Prelude.Runs.{Run, Run-cases}
use cipher_sign.Commands.StartTee.{Env, Dotenv, warned, load_env, find_proxy_config}

-- Loading leaves the variables that are set as they are, as godotenv documents.
abbrev pub KeepsSet : Run Env String (Unit {0}) → Type 0
KeepsSet load = (env : Env) (name : String) → env name ≢ "" → (load env).0 name ≡ env name

default_kept :
    (x : Dotenv)
    → KeepsSet x.load_default
    → (env : Env) (name : String) → env name ≢ ""
    → (warned (x.load_default env)).0 name ≡ env name
default_kept x keeps env name set = elim (Run-cases (x.load_default env)) [
  | inl (s, a, e) ↦ rw e (rw e at (keeps env name set))
  | inr (s, t, e) ↦ rw e (rw e at (keeps env name set))
]

-- A variable that is set before keeps its value, whichever of the two files is loaded.
pub load_env-KeepsSet :
    (x : Dotenv) (root : String)
    → KeepsSet (x.load_file root)
    → KeepsSet x.load_default
    → (env : Env) (name : String) → env name ≢ ""
    → (load_env x root env).0 name ≡ env name
unfolding load_env
load_env-KeepsSet x root file default env name set = elim (Run-cases (x.load_file root env)) [
  | inl (s, a, e) ↦ rw e (rw e at (file env name set))
  | inr (s, t, e) ↦
      let kept : s name ≡ env name = rw e at (file env name set) in
      rw e (default_kept x default s name (λ q. set (sym kept ∙ q)) ∙ kept)
]

-- A PROXY_CONFIG that is set before is the configuration file, whatever the .env files hold.
find_proxy_config-load_env :
    (x : Dotenv) (root : String) (join : List String → String) (has_file : String → Bool)
    → KeepsSet (x.load_file root)
    → KeepsSet x.load_default
    → (env : Env) → env "PROXY_CONFIG" ≢ ""
    → find_proxy_config (load_env x root env).0 join has_file ≡ env "PROXY_CONFIG"
unfolding find_proxy_config
find_proxy_config-load_env x root join has_file file default env set =
    let kept = load_env-KeepsSet x root file default env "PROXY_CONFIG" set in
    elim (Bool-cases (str_eq (env "PROXY_CONFIG") "")) [
      | inl t ↦ absurd (set ((eq_iff (env "PROXY_CONFIG") "").0 t))
      | inr f ↦ rw (kept, f) refl
    ]
