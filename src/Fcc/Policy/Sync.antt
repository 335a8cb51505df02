-- ===== src/Fcc/Policy/Sync.antt =====
-- tee/go/tools/pkg/fccutils/policy_consistency.go: which policies stop a registration.
use cipher_sign.Prelude.{
  ℕ, ◌+◌, ◌-◌, ◌%◌, ◌^◌, ◌<◌, false, Option, none, some, ltb, lt→ltb, Result, ok, err, Bool-cases,
  ◌≡◌, ◌↔◌, ◌⊎◌, inl, inr, refl, sym, ap, ◌∙◌, arith,
}
use Prim.Native.String.{String}
use mathlib.Core.Path.{subst}
use cipher_sign.Fcc.Policy.{
  Relation, behind, ahead, OutOfSync, policy_in_sync, out_of_sync_error,
  check_ftdc_proxy_policy_consistency,
}

-- The proxy is behind the chain, or more than one epoch ahead of it, by the reported number.
abbrev pub Distant : ℕ → ℕ → OutOfSync → Type 0
Distant epoch policy x =
    (x.proxy_policy_id ≡ policy)
    × (x.onchain_epoch ≡ epoch)
    × (((n : ℕ) × (0 < n) × (policy + n ≡ epoch) × (x.relation ≡ behind n))
        ⊎ ((n : ℕ) × (1 < n) × (epoch + n ≡ policy) × (x.relation ≡ ahead n)))

out_of_sync_error-Distant :
    (epoch policy : ℕ)
    → epoch + 1 < 2 ^ 64
    → policy_in_sync epoch policy ≡ false
    → Distant epoch policy (out_of_sync_error epoch policy)
unfolding policy_in_sync out_of_sync_error
out_of_sync_error-Distant epoch policy small h = elim (Bool-cases (ltb policy epoch)) [
  | inl t ↦
      rw (t, out_of_sync_error) (refl, refl, inl (epoch - policy, ground arith, ground arith, refl))
  | inr n ↦
      rw (n, out_of_sync_error) (refl, refl, inr (policy - epoch, ground arith, ground arith, refl))
]

Distant→not_in_sync :
    (epoch policy : ℕ) (x : OutOfSync)
    → epoch + 1 < 2 ^ 64
    → Distant epoch policy x
    → policy_in_sync epoch policy ≡ false
unfolding policy_in_sync
Distant→not_in_sync epoch policy x small (p, e, inl (n, pos, q, r)) = ground arith
Distant→not_in_sync epoch policy x small (p, e, inr (n, pos, q, r)) = ground arith

error_of : {x y : OutOfSync} → ◌≡◌ {A = Result OutOfSync (Unit {0})} (err x) (err y) → x ≡ y
error_of h = cc

found_of : {a b : ℕ} → ◌≡◌ {A = Result String (Option ℕ)} (ok (some a)) (ok (some b)) → a ≡ b
found_of h = cc

policy_of : {a b : ℕ} → ◌≡◌ {A = Result String ℕ} (ok a) (ok b) → a ≡ b
policy_of h = cc

rebuild :
    (x : OutOfSync) {a b : ℕ} {r : Relation}
    → x.proxy_policy_id ≡ a
    → x.onchain_epoch ≡ b
    → x.relation ≡ r
    → ◌≡◌ {A = OutOfSync}
        (record { proxy_policy_id = a; onchain_epoch = b; relation = r })
        (record {
          proxy_policy_id = x.proxy_policy_id;
          onchain_epoch = x.onchain_epoch;
          relation = x.relation;
        })
rebuild x p q s = rw (p, q, s) refl

Distant→error :
    (epoch policy : ℕ) (x : OutOfSync) → Distant epoch policy x → out_of_sync_error epoch policy ≡ x
unfolding out_of_sync_error
Distant→error epoch policy x (p, e, inl (n, pos, q, r)) =
    rw (lt→ltb policy epoch (omega arith), out_of_sync_error)
      (rebuild x p e (r ∙ ap behind (omega arith)))
Distant→error epoch policy x (p, e, inr (n, pos, q, r)) =
    let no_less : ltb policy epoch ≡ false = ground arith in
    rw (no_less, out_of_sync_error) (rebuild x p e (r ∙ ap ahead (omega arith)))

-- If an epoch that is found has a successor in uint64, the check fails exactly when both lookups
-- succeed and the proxy's policy is behind the epoch or more than one ahead of it; the error tells
-- both numbers and their distance.
pub check_ftdc_proxy_policy_consistency-fails_iff :
    (epoch : Result String (Option ℕ)) (info : Result String ℕ) (x : OutOfSync)
    → ((onchain : ℕ) → epoch ≡ ok (some onchain) → onchain + 1 < 2 ^ 64)
    → (check_ftdc_proxy_policy_consistency epoch info ≡ err x) ↔ (
        (onchain : ℕ) × (policy : ℕ) × (epoch ≡ ok (some onchain))
        × (info ≡ ok policy)
        × Distant onchain policy x)
unfolding check_ftdc_proxy_policy_consistency
check_ftdc_proxy_policy_consistency-fails_iff (err text) info x small =
    (λ h. absurd (cc), λ (o, p, e, i, d). absurd (cc))
check_ftdc_proxy_policy_consistency-fails_iff (ok none) info x small =
    (λ h. absurd (cc), λ (o, p, e, i, d). absurd (cc))
check_ftdc_proxy_policy_consistency-fails_iff (ok (some onchain)) (err text) x small =
    (λ h. absurd (cc), λ (o, p, e, i, d). absurd (cc))
check_ftdc_proxy_policy_consistency-fails_iff (ok (some onchain)) (ok policy) x small =
    let fits = small onchain refl in
    let epoch_is : onchain % 2 ^ 64 ≡ onchain = omega arith in
    rw epoch_is (
      λ h. elim (Bool-cases (policy_in_sync onchain policy)) [
        | inl t ↦ absurd (cc (rw t at h))
        | inr n ↦
            let same : out_of_sync_error onchain policy ≡ x = error_of (rw n at h) in
            (
              onchain,
              policy,
              refl,
              refl,
              subst (Distant onchain policy) same (out_of_sync_error-Distant onchain policy fits n),
            )
      ],
      λ (o, p, e, i, d).
          let d' : Distant onchain policy x =
            subst (λ z. Distant z policy x) (sym (found_of e))
              (subst (λ z. Distant o z x) (sym (policy_of i)) d) in
          rw (Distant→not_in_sync onchain policy x fits d')
            (ap err (Distant→error onchain policy x d')),
    )
