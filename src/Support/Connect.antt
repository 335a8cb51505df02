-- ===== src/Support/Connect.antt =====
-- tee/go/tools/pkg/support/support.go: the key, the node and the contract bindings of a tool.
pub mod Diamond
use cipher_sign.Prelude.{
  ℕ, ◌-◌, ◌||◌, Bytes, codes, take, eq_bytes, if◌then◌else◌, Result, ok, ◌>>=◌, ◌>>◌, ◌≡◌,
}
use cipher_sign.Prelude.Text.{String, str_eq, drop_2}
use cipher_sign.Support.Addresses.{Addresses, AddressFiles, load_addresses}

-- The contracts that a tool is bound to.
pub data Facet : Type 0 where
  machine_manager wallet_manager wallet_key_manager wallet_project_manager : Facet
  flare_systems_manager fdc2_hub verification extension_manager owner_allowlist : Facet
  extension_governance : Facet

-- go-ethereum: keys, the client of a node, and the bindings of package contracts, each with the
-- address that it keeps.
pub record Ethereum : Type 1 where
  pub PrivateKey : Type 0
  pub Client : Type 0
  pub Binding : Type 0
  pub getenv : String → String
  pub hex_to_ecdsa : String → Result String PrivateKey
  -- `configs.PrvWithFunds`.
  pub prv_with_funds : PrivateKey
  pub dial : String → Result String Client
  pub chain_id : Client → Result String ℕ
  pub new_binding : Facet → Bytes → Client → Result String Binding
  pub address_of : Binding → Bytes
  pub address_of-new_binding :
      (facet : Facet) (address : Bytes) (client : Client) (b : Binding)
      → new_binding facet address client ≡ ok b
      → address_of b ≡ address

-- `s[2:]` of a text that begins with 0x or 0X.
unfoldable pub without_0x : String → String
without_0x s =
    if eq_bytes (take 2 (codes s)) (codes "0x") || eq_bytes (take 2 (codes s)) (codes "0X")
    then drop_2 s
    else s

module _ (e : Ethereum) where
  pub record Support : Type 0 where
    pub prv : e.PrivateKey
    pub tee_machine_registry : e.Binding
    pub tee_wallet_manager : e.Binding
    pub tee_wallet_key_manager : e.Binding
    pub tee_wallet_project_manager : e.Binding
    pub flare_system_manager : e.Binding
    pub fdc2_hub_binding : e.Binding
    pub tee_verification : e.Binding
    pub tee_extension_registry : e.Binding
    pub tee_owner_allowlist : e.Binding
    pub tee_extension_governance : e.Binding
    pub chain_client : e.Client
    pub chain_id : ℕ
    pub addresses : Addresses

  unfoldable pub default_private_key : Result String e.PrivateKey
  unfolding without_0x
  default_private_key =
      let text = e.getenv "DEPLOYMENT_PRIVATE_KEY" in
      if str_eq text "" then ok e.prv_with_funds else e.hex_to_ecdsa (without_0x text)

  unfoldable pub new_support : e.PrivateKey → e.Client → Addresses → Result String Support
  new_support prv client addresses = do
    let diamond = addresses.flare_tee_manager
    tr ← e.new_binding machine_manager diamond client
    twm ← e.new_binding wallet_manager diamond client
    twkm ← e.new_binding wallet_key_manager diamond client
    twpm ← e.new_binding wallet_project_manager diamond client
    sm ← e.new_binding flare_systems_manager addresses.flare_system_manager client
    ftdc ← e.new_binding fdc2_hub addresses.fdc2_hub client
    tv ← e.new_binding verification diamond client
    ter ← e.new_binding extension_manager diamond client
    toal ← e.new_binding owner_allowlist diamond client
    teg ← e.new_binding extension_governance diamond client
    id ← e.chain_id client
    ok (record {
      prv = prv;
      tee_machine_registry = tr;
      tee_wallet_manager = twm;
      tee_wallet_key_manager = twkm;
      tee_wallet_project_manager = twpm;
      flare_system_manager = sm;
      fdc2_hub_binding = ftdc;
      tee_verification = tv;
      tee_extension_registry = ter;
      tee_owner_allowlist = toal;
      tee_extension_governance = teg;
      chain_client = client;
      chain_id = id;
      addresses = addresses;
    })

  unfoldable pub default_support : AddressFiles → String → String → Result String Support
  unfolding new_support default_private_key
  default_support files path url = do
    addr ← load_addresses files path
    client ← e.dial url
    key ← default_private_key
    new_support key client addr
