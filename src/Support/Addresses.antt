-- ===== src/Support/Addresses.antt =====
-- tee/go/tools/pkg/support/support.go: the addresses file, a list of named contracts or one JSON object.
pub mod Last
use cipher_sign.Prelude.{
  ◌-◌, ◌||◌, List, [], ◌∷◌, Option, none, some, Bytes, replicate, if◌then◌else◌, Result, ok, err,
  ◌>>=◌, ◌>>◌,
}
use cipher_sign.Prelude.Text.{String, str_eq, is_blank}

pub record Addresses : Type 0 where
  pub flare_system_manager : Bytes
  pub fdc2_hub : Bytes
  pub flare_tee_manager : Bytes

abbrev no_addresses : Addresses
no_addresses = record {
  flare_system_manager = replicate 20 0;
  fdc2_hub = replicate 20 0;
  flare_tee_manager = replicate 20 0;
}

-- The fields that a pointer of `fieldMap` can point to.
pub data Field : Type 0 where
  system_field hub_field manager_field : Field

unfoldable pub get : Field → Addresses → Bytes
get system_field a = a.flare_system_manager
get hub_field a = a.fdc2_hub
get manager_field a = a.flare_tee_manager

unfoldable pub set : Field → Bytes → Addresses → Addresses
set system_field b a = record a { flare_system_manager = b }
set hub_field b a = record a { fdc2_hub = b }
set manager_field b a = record a { flare_tee_manager = b }

-- What reflection shows of the struct: each field with its JSON tag and its name.
abbrev struct_fields : List (Field × String × String)
struct_fields =
    (system_field, "FlareSystemsManager", "FlareSystemManager")
    ∷ (hub_field, "Fdc2Hub", "Fdc2Hub")
    ∷ (manager_field, "FlareTeeManager", "FlareTeeManager")
    ∷ []

key_of : String → String → String
key_of tag name = if is_blank tag || str_eq tag "-" then name else tag

-- The loop of `fieldMap`; a later field takes over its key.
collect_fields : List (Field × String × String) → List (String × Field) → List (String × Field)
unfolding key_of
collect_fields [] out = out
collect_fields ((f, tag, name) ∷ rest) out = collect_fields rest ((key_of tag name, f) ∷ out)

unfoldable pub field_map : List (String × Field)
unfolding collect_fields
field_map = collect_fields struct_fields []

unfoldable pub target : List (String × Field) → String → Option Field
target [] name = none
target ((k, f) ∷ rest) name = if str_eq k name then some f else target rest name

pub record RawContract : Type 0 where
  pub name : String
  pub contract_name : String
  pub address : String

-- `os.ReadFile`, encoding/json of both forms and `common.HexToAddress`.
pub record AddressFiles : Type 0 where
  pub read_file : String → Result String Bytes
  pub unmarshal_raw : Bytes → Result String (List RawContract)
  pub unmarshal_addresses : Bytes → Result String Addresses
  pub hex_to_address : String → Bytes

module _ (x : AddressFiles) where
  assign : Option Field → Bytes → Addresses → Addresses
  assign none b a = a
  assign (some f) b a = set f b a

  unfoldable pub assign_all : List RawContract → Addresses → Addresses
  unfolding assign target field_map
  assign_all [] a = a
  assign_all (r ∷ rest) a =
      assign_all rest (assign (target field_map r.name) (x.hex_to_address r.address) a)

  unfoldable pub parse_addresses : String → Result String Addresses
  unfolding assign_all
  parse_addresses path = do
    file ← x.read_file path
    raw ← x.unmarshal_raw file
    ok (assign_all raw no_addresses)

  -- tee/go/tools/pkg/configs/configs.go.
  unfoldable pub read_addresses : String → Result String Addresses
  read_addresses path = do file ← x.read_file path; x.unmarshal_addresses file

  -- The addresses of `DefaultSupport`: the second reader where the first one fails.
  unfoldable pub load_addresses : String → Result String Addresses
  load_addresses path = elim (read_addresses path) [ ok a ↦ ok a | err text ↦ parse_addresses path ]
