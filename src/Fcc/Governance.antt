-- ===== src/Fcc/Governance.antt =====
-- tee/go/tools/pkg/fccutils/governance.go and tee/go/tools/cmd/set-governance/main.go: the governance
-- of an extension. The hash of tee-node and the view of the chain are the record Governed.
pub mod Once
pub mod Settings
use Prim.Native.String
use Prim.Native.Char.{Char, code}
use cipher_sign.Prelude.{
  ℕ, zero, suc, Bool, false, ◌||◌, List, [], ◌∷◌, Bytes, length, eq_bytes, ltb, ◌==◌, if◌then◌else◌,
  Result, ok, err,
}
use cipher_sign.Prelude.Text.{str_eq, concat, itoa, trim_space}
use cipher_sign.Prelude.Runs.{Run, ◌>>=◌, ◌>>◌, pure, lift, on_error}
use Prim.Native.String.{String}
use cipher_sign.Chain.{Chain, Net, send, set_new_tee_governance}
use cipher_sign.Support.Mined.{check_tx}
use cipher_sign.Fcc.Transactions.{rpc_text}

-- `types.GovernanceHash`, and `GetLatestTeeGovernanceHash` of an extension.
pub record Governed (World : Type 0) : Type 0 where
  pub governance_hash : List Bytes → ℕ → Result String Bytes
  pub get_latest_tee_governance_hash : World → ℕ → Result String Bytes

-- `threshold == 0 || threshold > uint64(len(signers))`.
abbrev pub bad_threshold : List Bytes → ℕ → Bool
bad_threshold signers threshold = threshold == 0 || ltb (length signers) threshold

abbrev pub no_signer : String
no_signer = "at least one governance signer is required (set GOVERNANCE_SIGNERS)"

abbrev pub invalid_threshold : List Bytes → ℕ → String
invalid_threshold signers threshold = concat (
    "invalid GOVERNANCE_THRESHOLD "
    ∷ itoa threshold
    ∷ " for "
    ∷ itoa (length signers)
    ∷ " signer(s)"
    ∷ [])

-- The latest hash could be read and is the desired one.
abbrev pub is_current : Result String Bytes → Bytes → Bool
is_current (ok current) desired = eq_bytes current desired
is_current (err text) desired = false

module _ (c : Chain) (g : Governed c.World) (prv : c.PrivateKey) where
  -- The part behind the test for a hash that is set.
  unfoldable pub send_governance : ℕ → List Bytes → ℕ → Run (Net c) String (Unit {0})
  send_governance extension_id signers threshold = do
    lift (c.new_keyed_transactor prv)
    tx ←
        on_error (send c prv 0 (set_new_tee_governance extension_id signers threshold))
          (rpc_text "SetNewTeeGovernance failed: ")
    _ ← check_tx c tx
    pure tt

  -- What follows the two guards.
  unfoldable pub govern : ℕ → List Bytes → ℕ → Run (Net c) String (Unit {0})
  unfolding send_governance
  govern extension_id signers threshold n = elim (g.governance_hash signers threshold) [
    | err text ↦ (n, err (concat ("computing governance hash: " ∷ text ∷ [])))
    | ok desired ↦
        if is_current (g.get_latest_tee_governance_hash n.world extension_id) desired
        then (n, ok tt)
        else send_governance extension_id signers threshold n
  ]

  unfoldable pub set_tee_governance : ℕ → List Bytes → ℕ → Run (Net c) String (Unit {0})
  unfolding govern
  set_tee_governance extension_id signers threshold n =
      if length signers == 0
      then (n, err no_signer)
      else if bad_threshold signers threshold
      then (n, err (invalid_threshold signers threshold))
      else govern extension_id signers threshold n

-- `strings.Split(raw, ",")`: the first part is held back until its comma or the end.
abbrev put_first : Char → List String → List String
put_first c [] = String.◌∷◌ c "" ∷ []
put_first c (s ∷ ss) = String.◌∷◌ c s ∷ ss

unfoldable pub split_commas : String → List String
split_commas String.[] = "" ∷ []
split_commas (String.◌∷◌ c s) =
    let rest = split_commas s in if code c == b',' then "" ∷ rest else put_first c rest

-- The addresses of the parts that are not blank; `hex_to_address` is go-ethereum's.
unfoldable pub named_signers : (String → Bytes) → List String → List Bytes
named_signers hex_to_address [] = []
named_signers hex_to_address (part ∷ parts) =
    let rest = named_signers hex_to_address parts in
    if str_eq (trim_space part) "" then rest else hex_to_address (trim_space part) ∷ rest

abbrev pub or_fallback : Bytes → List Bytes → List Bytes
or_fallback fallback [] = fallback ∷ []
or_fallback fallback (a ∷ rest) = a ∷ rest

unfoldable pub parse_signers : (String → Bytes) → String → Bytes → List Bytes
unfolding split_commas named_signers
parse_signers hex_to_address raw fallback =
    or_fallback fallback (named_signers hex_to_address (split_commas raw))

-- `parse_uint` is strconv.ParseUint in base 10 and 64 bits.
abbrev pub positive_or_one : Result String ℕ → ℕ
positive_or_one (err text) = 1
positive_or_one (ok zero) = 1
positive_or_one (ok (suc v)) = suc v

unfoldable pub parse_threshold : (String → Result String ℕ) → String → ℕ
parse_threshold parse_uint raw = positive_or_one (parse_uint (trim_space raw))
