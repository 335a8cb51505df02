-- ===== src/Commands/StartTee.antt =====
-- tee/go/tools/cmd/start-tee/main.go: the .env file, the owner of the TEE and its set-up, and the
-- configuration file that tee/go/tools/cmd/start-proxy/main.go finds. The environment is a function
-- from names, which Setenv changes in one place.
pub mod Owner
use cipher_sign.Prelude.{
  ℕ, ◌/◌, Bool, not, List, [], ◌∷◌, Option, none, some, Bytes, if◌then◌else◌, Result, ok, err,
  map_err,
}
use cipher_sign.Prelude.Text.{String, str_eq, concat}
use cipher_sign.Prelude.Runs.{Run, after, ◌>>=◌, ◌>>◌, pure}
use cipher_sign.Support.Connect.{without_0x}
use cipher_sign.Fcc.TeeCalls.{Node, set_proxy_url}

abbrev pub Env : Type 0
Env = String → String

unfoldable pub setenv : String → String → Env → Env
setenv name value env other = if str_eq other name then value else env other

-- godotenv: `Load` of a file, and of the file in the working directory.
pub record Dotenv : Type 0 where
  pub load_file : String → Run Env String (Unit {0})
  pub load_default : Run Env String (Unit {0})

-- The second file is loaded where the first could not be.
abbrev pub else_default : Dotenv → Env × Result String (Unit {0}) → Env × Result String (Unit {0})
else_default x (env, ok _) = (env, ok tt)
else_default x (env, err _) = x.load_default env

-- The warning that is printed.
abbrev pub warned : Env × Result String (Unit {0}) → Env × List String
warned (env, ok _) = (env, [])
warned (env, err text) = (env, concat ("Warning: Error loading .env file: " ∷ text ∷ []) ∷ [])

unfoldable pub load_env : Dotenv → String → Env → Env × List String
load_env x root_env env = warned (else_default x (x.load_file root_env env))

-- Keys and addresses of go-ethereum.
pub record Keys : Type 1 where
  pub PrivateKey : Type 0
  pub hex_to_ecdsa : String → Result String PrivateKey
  -- `PubkeyToAddress` and `String` of it.
  pub address_text : PrivateKey → String
  pub hex_to_address : String → Bytes

-- The key funded by Hardhat.
abbrev pub hardhat_key : String
hardhat_key = "804b01a8c27a65cc694a867be76edae3ccce7a7161cda1f67a8349df696d2207"

-- `ExtConfigurationPort` and `ExtProxyInternalPort`.
abbrev pub ext_configuration_port : ℕ
ext_configuration_port = 5501

abbrev pub ext_proxy_internal_port : ℕ
ext_proxy_internal_port = 6663

module _ (k : Keys) where
  unfoldable pub deployment_key : Env → Result String k.PrivateKey
  deployment_key env =
      let text = env "DEPLOYMENT_PRIVATE_KEY" in
      if str_eq text ""
      then map_err (λ _. "cannot parse default private key") (k.hex_to_ecdsa hardhat_key)
      else k.hex_to_ecdsa (without_0x text)

  abbrev pub owner_set : Env → Result String k.PrivateKey → Env × Result String (Unit {0})
  owner_set env (err text) = (env, err text)
  owner_set env (ok key) = (setenv "INITIAL_OWNER" (k.address_text key) env, ok tt)

  -- The address that is returned is read from the text of before.
  unfoldable pub set_owner_address : Run Env String Bytes
  unfolding deployment_key setenv
  set_owner_address env =
      let owner = env "INITIAL_OWNER" in
      if str_eq owner ""
      then after (owner_set env (deployment_key env)) (λ _. pure (k.hex_to_address owner))
      else (env, ok (k.hex_to_address owner))

  -- The environment in which `main` starts the servers.
  unfoldable pub start_env : String → Run Env String (Unit {0})
  unfolding set_owner_address setenv
  start_env extension_id = do
    _ ← set_owner_address
    λ env. (if str_eq extension_id "" then env else setenv "EXTENSION_ID" extension_id env, ok tt)

-- What follows the start of the two servers, with the early failure of the extension's.
unfoldable pub run_extension : {W : Type 0} → Node W → Option String → Run W String (Unit {0})
run_extension x (some text) w = (w, err (concat ("extension server failed to start: " ∷ text ∷ [])))
run_extension x none w = set_proxy_url x ext_configuration_port ext_proxy_internal_port w

module _ {W : Type 0} (k : Keys) (x : Node W) where
  -- `serve` starts the two servers in an environment, with the early failure of the extension's.
  abbrev pub served :
      (Env → W → W × Option String)
      → W
      → Env × Result String (Unit {0})
      → (Env × W) × Result String (Unit {0})
  served serve w (env, err text) = ((env, w), err text)
  served serve w (env, ok _) =
      let (started, early) = serve env w in
      let (w', r) = run_extension x early started in ((env, w'), r)

  -- `main` up to the wait for a signal; what it logs is left out.
  unfoldable pub start_tee :
      Dotenv
      → String
      → String
      → (Env → W → W × Option String)
      → Env
      → W
      → (Env × W) × Result String (Unit {0})
  unfolding start_env load_env run_extension
  start_tee dotenv root_env extension_id serve env w =
      served serve w (start_env k extension_id (load_env dotenv root_env env).0)

-- `findProxyConfig`; `join` is `filepath.Join` of the project's root and the parts.
unfoldable pub find_proxy_config : Env → (List String → String) → (String → Bool) → String
find_proxy_config env join has_file =
    let given = env "PROXY_CONFIG" in
    let candidate = join ("config" ∷ "proxy" ∷ "extension_proxy.toml" ∷ []) in
    if not (str_eq given "")
    then given
    else if has_file candidate
    then candidate
    else "./config/proxy/extension_proxy.toml"
