-- ===== src/Support/Addresses/Last.antt =====
-- tee/go/tools/pkg/support/support.go: which entry of the list gives an address.
use cipher_sign.Prelude.{
  true, false, List, [], ◌∷◌, Bytes, replicate, if◌then◌else◌, ok, Bool-cases, ◌≡◌, inl, inr, refl,
  ap, ◌∙◌,
}
use cipher_sign.Prelude.Text.{String, str_eq, eq_iff}
use cipher_sign.Support.Addresses.{
  Addresses, Field, system_field, hub_field, manager_field, get, set, field_map, target,
  RawContract, AddressFiles, assign, assign_all, parse_addresses, no_addresses,
}
use mathlib.Core.Path.{subst}

-- The name under which a field is listed.
abbrev pub listed_as : Field → String
listed_as system_field = "FlareSystemsManager"
listed_as hub_field = "Fdc2Hub"
listed_as manager_field = "FlareTeeManager"

-- The address of the last entry of that name, or the one given where there is none.
abbrev pub last_named : (String → Bytes) → String → List RawContract → Bytes → Bytes
last_named hex name [] start = start
last_named hex name (r ∷ rest) start =
    last_named hex name rest (if str_eq name r.name then hex r.address else start)

none_of :
    (name : String)
    → str_eq "FlareTeeManager" name ≡ false
    → str_eq "Fdc2Hub" name ≡ false
    → str_eq "FlareSystemsManager" name ≡ false
    → (g : Field) → str_eq (listed_as g) name ≡ false
none_of name n m k system_field = k
none_of name n m k hub_field = m
none_of name n m k manager_field = n

empty_at : (f : Field) → get f no_addresses ≡ replicate 20 0
unfolding get
empty_at system_field = refl
empty_at hub_field = refl
empty_at manager_field = refl

module _ (x : AddressFiles) where
  -- One entry, at one field.
  abbrev One : String → Bytes → Addresses → Field → Type 0
  One name b a f =
      get f (assign x (target field_map name) b a)
      ≡ (if str_eq (listed_as f) name then b else get f a)

  known_name : (b : Bytes) (a : Addresses) (g f : Field) → One (listed_as g) b a f
  unfolding get assign target field_map set
  known_name b a system_field system_field = refl
  known_name b a system_field hub_field = refl
  known_name b a system_field manager_field = refl
  known_name b a hub_field system_field = refl
  known_name b a hub_field hub_field = refl
  known_name b a hub_field manager_field = refl
  known_name b a manager_field system_field = refl
  known_name b a manager_field hub_field = refl
  known_name b a manager_field manager_field = refl

  unknown_name :
      (name : String) (b : Bytes) (a : Addresses)
      → ((g : Field) → str_eq (listed_as g) name ≡ false)
      → (f : Field) → One name b a f
  unfolding assign target field_map
  unknown_name name b a no_field f =
      rw (no_field manager_field, no_field hub_field, no_field system_field, no_field f) refl

  named :
      (name : String) (b : Bytes) (a : Addresses) (g f : Field)
      → str_eq (listed_as g) name ≡ true
      → One name b a f
  named name b a g f t =
      subst (λ z. One z b a f) ((eq_iff (listed_as g) name).0 t) (known_name b a g f)

  get-assign : (name : String) (b : Bytes) (a : Addresses) (f : Field) → One name b a f
  get-assign name b a f = elim (Bool-cases (str_eq "FlareTeeManager" name)) [
    | inl t ↦ named name b a manager_field f t
    | inr n ↦ elim (Bool-cases (str_eq "Fdc2Hub" name)) [
      | inl t ↦ named name b a hub_field f t
      | inr m ↦ elim (Bool-cases (str_eq "FlareSystemsManager" name)) [
        | inl t ↦ named name b a system_field f t
        | inr k ↦ unknown_name name b a (none_of name n m k) f
      ]
    ]
  ]

  get-assign_all :
      (raw : List RawContract) (a : Addresses) (f : Field)
      → get f (assign_all x raw a) ≡ last_named x.hex_to_address (listed_as f) raw (get f a)
  unfolding assign_all
  get-assign_all [] a f = refl
  get-assign_all (r ∷ rest) a f =
      get-assign_all rest (assign x (target field_map r.name) (x.hex_to_address r.address) a) f
      ∙ ap (last_named x.hex_to_address (listed_as f) rest)
          (get-assign r.name (x.hex_to_address r.address) a f)

  -- From a file with a list of contracts, the parser gives each of the three addresses by the last
  -- entry of its name, and the zero address where no entry has it.
  pub parse_addresses-last_named :
      (path : String) (file : Bytes) (raw : List RawContract)
      → x.read_file path ≡ ok file
      → x.unmarshal_raw file ≡ ok raw
      → (a : Addresses) × (parse_addresses x path ≡ ok a)
        × ((f : Field) → get f a ≡ last_named x.hex_to_address (listed_as f) raw (replicate 20 0))
  unfolding parse_addresses
  parse_addresses-last_named path file raw p q = (
    assign_all x raw no_addresses,
    rw (p, q) refl,
    λ f.
        get-assign_all raw no_addresses f
        ∙ ap (last_named x.hex_to_address (listed_as f) raw) (empty_at f),
  )
