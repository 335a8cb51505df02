-- ===== src/Support/Tests.antt =====
-- Tests: the check of a transaction, and an addresses file.
use cipher_sign.Prelude.{ℕ, List, [], ◌∷◌, Bytes, codes, replicate, ok, err, ◌≡◌, ◌≢◌, ◌⊎◌, refl}
use cipher_sign.Prelude.Text.{String}
use cipher_sign.Chain.{Receipt}
use cipher_sign.Chain.Sample.{mining, fresh}
use cipher_sign.Support.Mined.{check_tx}
use cipher_sign.Support.Mined.Outcome.{check_tx-outcome}
use cipher_sign.Support.Addresses.{
  Addresses, Field, get, RawContract, AddressFiles, parse_addresses,
}
use cipher_sign.Support.Addresses.Last.{listed_as, last_named, parse_addresses-last_named}

check_tx-outcome_example :
    ((w : ℕ) × (r : Receipt Bytes) × (mining.wait_mined 3 5 ≡ (w, ok r))
      × (r.status ≢ 0)
      × (check_tx mining 3 fresh ≡ (record fresh { world = w }, ok r)))
    ⊎ ((w : ℕ) × (text : String) × (((why : String) × (mining.wait_mined 3 5 ≡ (w, err why)))
          ⊎ ((r : Receipt Bytes) × (mining.wait_mined 3 5 ≡ (w, ok r)) × (r.status ≡ 0)))
        × (check_tx mining 3 fresh ≡ (record fresh { world = w }, err text)))
check_tx-outcome_example = check_tx-outcome mining 3 fresh

abbrev contracts : List RawContract
contracts =
    record { name = "Fdc2Hub"; contract_name = "Fdc2Hub"; address = "a" }
    ∷ record { name = "Relay"; contract_name = "Relay"; address = "b" }
    ∷ record { name = "Fdc2Hub"; contract_name = "Fdc2Hub"; address = "c" }
    ∷ []

abbrev listing : AddressFiles
listing = record {
  read_file = λ path. ok (1 ∷ []);
  unmarshal_raw = λ b. ok contracts;
  unmarshal_addresses = λ b. err "a list";
  hex_to_address = λ text. codes text;
}

parse_addresses-last_named_example :
    (a : Addresses) × (parse_addresses listing "deployed.json" ≡ ok a)
    × ((f : Field) → get f a ≡ last_named codes (listed_as f) contracts (replicate 20 0))
parse_addresses-last_named_example =
    parse_addresses-last_named listing "deployed.json" (1 ∷ []) contracts refl refl
