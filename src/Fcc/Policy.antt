-- ===== src/Fcc/Policy.antt =====
-- tee/go/tools/pkg/fccutils/policy_consistency.go. The two lookups, of the reward epoch on the chain
-- and of the policy id that the proxy reports, are arguments: a nil epoch is none, and an id is a
-- uint32, widened. The error keeps the numbers of its text.
pub mod Sync
use cipher_sign.Prelude.{
  ℕ, ◌+◌, ◌-◌, ◌%◌, ◌^◌, Bool, not, ◌||◌, [], ◌∷◌, Option, none, some, ltb, ◌==◌, if◌then◌else◌,
  Result, ok, err,
}
use cipher_sign.Prelude.Text.{String, concat, itoa}

-- `proxy is %d epoch(s) behind` or `ahead`.
pub data Relation : Type 0 where
  behind ahead : ℕ → Relation

pub record OutOfSync : Type 0 where
  pub proxy_policy_id : ℕ
  pub onchain_epoch : ℕ
  pub relation : Relation

-- Over uint64: the sum wraps.
unfoldable pub policy_in_sync : ℕ → ℕ → Bool
policy_in_sync onchain_epoch proxy_policy_id =
    proxy_policy_id == onchain_epoch || proxy_policy_id == (onchain_epoch + 1) % 2 ^ 64

-- Neither difference goes below 0 in its branch.
unfoldable pub out_of_sync_error : ℕ → ℕ → OutOfSync
out_of_sync_error onchain_epoch proxy_policy_id = record {
  proxy_policy_id = proxy_policy_id;
  onchain_epoch = onchain_epoch;
  relation =
      if ltb proxy_policy_id onchain_epoch
      then behind (onchain_epoch - proxy_policy_id)
      else ahead (proxy_policy_id - onchain_epoch);
}

-- `onchain.Uint64()` is the low 64 bits.
unfoldable pub check_ftdc_proxy_policy_consistency :
    Result String (Option ℕ) → Result String ℕ → Result OutOfSync (Unit {0})
unfolding policy_in_sync out_of_sync_error
check_ftdc_proxy_policy_consistency (err text) info = ok tt
check_ftdc_proxy_policy_consistency (ok none) info = ok tt
check_ftdc_proxy_policy_consistency (ok (some onchain)) (err text) = ok tt
check_ftdc_proxy_policy_consistency (ok (some onchain)) (ok proxy_policy_id) =
    let onchain_epoch = onchain % 2 ^ 64 in
    if not (policy_in_sync onchain_epoch proxy_policy_id)
    then err (out_of_sync_error onchain_epoch proxy_policy_id)
    else ok tt

relation_text : Relation → String
relation_text (behind n) = concat ("proxy is " ∷ itoa n ∷ " epoch(s) behind" ∷ [])
relation_text (ahead n) = concat ("proxy is " ∷ itoa n ∷ " epoch(s) ahead" ∷ [])

-- The text of the error.
unfoldable pub out_of_sync_text : OutOfSync → String
unfolding relation_text
out_of_sync_text x = concat (
    "FTDC proxy signing policy out of sync with on-chain reward epoch: proxy signing policy "
    ∷ itoa x.proxy_policy_id
    ∷ " vs on-chain current reward epoch "
    ∷ itoa x.onchain_epoch
    ∷ " ("
    ∷ relation_text x.relation
    ∷ "); data providers will reject the availability check with 404 \"no round\"; wait for the proxy to catch up to the current signing policy, or check the proxy's initial_signing_policy_offset and C-chain indexer sync"
    ∷ [])
