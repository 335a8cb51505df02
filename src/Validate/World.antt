-- ===== src/Validate/World.antt =====
-- What the checks ask of the world, and tee/go/tools/pkg/validate/validate.go. The environment, files,
-- sockets and HTTP answer the same throughout one run; go-ethereum and the contract bindings are
-- parameters, their errors texts. A nil pointer is none.
use cipher_sign.Prelude.{
  ℕ, Bool, true, false, [], ◌∷◌, Option, none, some, Bytes, length, ltb, ◌==◌, if◌then◌else◌,
  Result, ok, err, ◌≡◌, ◌↔◌,
}
use cipher_sign.Prelude.Text.{String, str_eq, concat, itoa}
use cipher_sign.Validate.EnvFile.{File}

pub record World : Type 0 where
  pub getenv : String → String
  pub open_file : String → File
  -- `os.IsNotExist` of the error of `os.Stat`.
  pub not_exist : String → Bool
  -- A TCP connection to the address can be made.
  pub dial : String → Bool
  -- The status of a GET request, none if it fails.
  pub http_get : String → Option ℕ
  -- `%q`.
  pub quote : String → String

-- Of go-ethereum, its addresses and keys.
pub record Eth : Type 1 where
  pub Address : Type 0
  pub PrivateKey : Type 0
  pub zero_address : Address
  pub address_eq : Address → Address → Bool
  pub address_eq_iff : (a b : Address) → (address_eq a b ≡ true) ↔ (a ≡ b)
  pub hex : Address → String
  pub hex_to_address : String → Address
  pub pubkey_to_address : PrivateKey → Address
  -- `new(big.Int).SetString(text, 16)`, zero where it is no hex.
  pub big_of_hex : String → ℕ
  -- `wallets.EVMType`.
  pub evm_type : Bytes

-- An `ethclient.Client`: code, balance and chain id over RPC.
pub record Client (e : Eth) : Type 0 where
  pub code_at : e.Address → Result String Bytes
  pub balance_at : e.Address → Result String ℕ
  pub chain_id : Result String ℕ

-- The bindings of ExtensionManager and OwnerAllowlist.
pub record Registry (e : Eth) : Type 0 where
  pub next_public_extension_id : Result String ℕ
  pub get_tee_extension_instructions_sender : ℕ → Result String e.Address
  pub is_key_type_supported : ℕ → Bytes → Result String Bool

pub record Allowlist (e : Eth) : Type 0 where
  pub is_allowed_tee_machine_owner : ℕ → e.Address → Result String Bool

abbrev pub min_deploy_balance : ℕ
min_deploy_balance = 10_000_000_000_000_000

-- The status of `proxyURL + "/info"` is 200.
unfoldable pub reachable : World → String → Bool
reachable w url = elim (w.http_get (concat (url ∷ "/info" ∷ []))) [
  | none ↦ false
  | some status ↦ status == 200
]

module _ (e : Eth) where
  unfoldable pub address_not_zero : e.Address → String → Result String (Unit {0})
  address_not_zero addr label =
      if e.address_eq addr e.zero_address
      then err
          (concat (label ∷ " is the zero address (" ∷ e.hex addr ∷ ") in the addresses file" ∷ []))
      else ok tt

  unfoldable pub address_has_code :
      Option (Client e) → e.Address → String → Result String (Unit {0})
  address_has_code none addr label =
      err (concat ("cannot check " ∷ label ∷ ": no chain client connected" ∷ []))
  address_has_code (some client) addr label = elim (client.code_at addr) [
    | err x ↦ err (concat ("cannot check " ∷ label ∷ ": " ∷ x ∷ []))
    | ok code ↦
        if length code == 0
        then err (
            concat (
              label
              ∷ " at "
              ∷ e.hex addr
              ∷ " has no deployed code. This address will be set as immutable in the contract constructor and cannot be changed. Check your deployed-addresses.json file — are you on the right network?"
              ∷ []))
        else ok tt
  ]

  unfoldable pub key_has_funds : Option (Client e) → e.PrivateKey → ℕ → Result String (Unit {0})
  key_has_funds none key min_wei = err "cannot check deployer balance: no chain client connected"
  key_has_funds (some client) key min_wei =
      let addr = e.pubkey_to_address key in
      elim (client.balance_at addr) [
        | err x ↦ err (concat ("cannot check deployer balance: " ∷ x ∷ []))
        | ok balance ↦
            if ltb balance min_wei
            then err (
                concat (
                  "deployer "
                  ∷ e.hex addr
                  ∷ " has insufficient funds (balance: "
                  ∷ itoa balance
                  ∷ " wei, minimum required: "
                  ∷ itoa min_wei
                  ∷ " wei). Fund this account before deploying"
                  ∷ []))
            else ok tt
      ]

unfoldable pub is_using_dev_key : World → Bool
is_using_dev_key w = str_eq (w.getenv "DEPLOYMENT_PRIVATE_KEY") ""
