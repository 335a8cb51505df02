-- ===== src/Validate/Deploy/Verdict.antt =====
-- tee/go/tools/pkg/validate/checks.go: which deployments RegisterDeployChecks finds no failure in.
use cipher_sign.Prelude.{
  ℕ, ◌≤◌, ◌<◌, true, false, not, ◌||◌, List, [], ◌∷◌, ◌++◌, Option, none, some, Bytes, length, All,
  ltb, ◌==◌, Result, ok, Result-cases, Bool-cases, ◌≡◌, ◌↔◌, inl, inr, refl, sym, arith,
}
use cipher_sign.Prelude.Text.{String, str_eq, contains}
use cipher_sign.Validate.Report.{CheckResult, Report}
use mathlib.Core.Path.{subst}
use cipher_sign.Validate.Report.{has_failures, any_fail, is_fail}
use cipher_sign.Validate.Report.Fails.{
  Clean, Clean-cons, Clean-nil, Clean-append, has_failures-add_all,
}
use cipher_sign.Validate.World.{
  World, Eth, Client, min_deploy_balance, address_not_zero, address_has_code, key_has_funds,
}
use cipher_sign.Validate.Deploy.{
  zero_check, zero_checks, zero_addrs, code_check, code_checks, funds_check, check_chain_id,
  chain_checks, env_checks, check_deployer_key_source, register_deploy_checks,
}

-- A list of one result.
Clean-one : (x : CheckResult) → Clean (x ∷ []) ↔ (is_fail x.status ≡ false)
Clean-one x = (λ h. ((Clean-cons x []).0 h).0, λ f. (Clean-cons x []).1 (f, Clean-nil))

key_source-passes : (w : World) → is_fail (check_deployer_key_source w).status ≡ false
unfolding check_deployer_key_source
key_source-passes w = elim (Bool-cases (not (str_eq (w.getenv "DEPLOYMENT_PRIVATE_KEY") ""))) [
  | inl a ↦ rw a refl
  | inr a ↦
      elim (Bool-cases
        (str_eq (w.getenv "LOCAL_MODE") "true" || str_eq (w.getenv "LOCAL_MODE") "")) [
          | inl b ↦ rw (a, b) refl
          | inr b ↦ rw (a, b) refl
        ]
]

no_code :
    (code code' : Bytes)
    → (length code == 0) ≡ true
    → ◌≡◌ {A = Result String Bytes} (ok code) (ok code')
    → 0 < length code'
    → ⊥
no_code code code' t q r =
    let same : code ≡ code' = cc in
    let long : 0 < length code = subst (λ x. 0 < length x) (sym same) r in ground arith

module _ (e : Eth) where
  -- Every address of the map is not the zero address.
  abbrev pub NonZero : List (String × e.Address) → Type 0
  NonZero = All (λ x. e.address_eq x.1 e.zero_address ≡ false)

  -- The client finds code at every address of the map.
  abbrev pub HasCode : Option (Client e) → List (String × e.Address) → Type 0
  HasCode none entries = All (λ x. ⊥) entries
  HasCode (some client) entries =
      All (λ x. (code : Bytes) × (client.code_at x.1 ≡ ok code) × (0 < length code)) entries

  -- With a client and a key, the balance is at least the least one.
  abbrev pub Funded : Option (Client e) → Option e.PrivateKey → Type 0
  Funded none key = Unit
  Funded (some client) none = Unit
  Funded (some client) (some key) =
      (balance : ℕ) × (client.balance_at (e.pubkey_to_address key) ≡ ok balance)
      × (min_deploy_balance ≤ balance)

  -- A client tells its chain.
  abbrev pub Answers : Option (Client e) → Type 0
  Answers none = Unit
  Answers (some client) = (id : ℕ) × (client.chain_id ≡ ok id)

  zero_check-passes_iff :
      (label : String) (addr : e.Address)
      → (is_fail (zero_check e label addr).status ≡ false)
        ↔ (e.address_eq addr e.zero_address ≡ false)
  unfolding zero_check address_not_zero
  zero_check-passes_iff label addr = elim (Bool-cases (e.address_eq addr e.zero_address)) [
    | inl t ↦ rw (t, zero_check, address_not_zero) (λ h. absurd (cc), λ h. absurd (cc))
    | inr f ↦ rw (f, zero_check, address_not_zero) (λ _. refl, λ _. refl)
  ]

  zero_checks-Clean_iff :
      (entries : List (String × e.Address)) → Clean (zero_checks e entries) ↔ NonZero entries
  unfolding zero_checks
  zero_checks-Clean_iff [] = (λ _. tt, λ _. Clean-nil)
  zero_checks-Clean_iff ((label, addr) ∷ rest) =
      let split = Clean-cons (zero_check e label addr) (zero_checks e rest) in
      let here = zero_check-passes_iff label addr in
      let ih = zero_checks-Clean_iff rest in
      (λ h. let (p, q) = split.0 h in (here.0 p, ih.0 q), λ (p, q). split.1 (here.1 p, ih.1 q))

  zero_addrs-nil :
      (entries : List (String × e.Address)) → NonZero entries → zero_addrs e entries ≡ []
  unfolding zero_addrs address_not_zero
  zero_addrs-nil [] h = refl
  zero_addrs-nil ((label, addr) ∷ rest) (p, h) =
      rw (p, zero_addrs, address_not_zero) (zero_addrs-nil rest h)

  code_check-passes_iff :
      (client : Client e) (label : String) (addr : e.Address)
      → (is_fail (code_check e (some client) label addr).status ≡ false)
        ↔ ((code : Bytes) × (client.code_at addr ≡ ok code) × (0 < length code))
  unfolding code_check address_has_code
  code_check-passes_iff client label addr = elim (Result-cases (client.code_at addr)) [
    | inr (x, p) ↦
        rw (p, code_check, address_has_code) (λ h. absurd (cc), λ (code, q, r). absurd (cc))
    | inl (code, p) ↦ elim (Bool-cases (length code == 0)) [
      | inl t ↦
          rw (p, t, code_check, address_has_code)
            (λ h. absurd (cc), λ (code', q, r). absurd (no_code code code' t q r))
      | inr f ↦ rw (p, f, code_check, address_has_code) (λ _. (code, refl, ground arith), λ _. refl)
    ]
  ]

  code_checks-Clean_iff :
      (client : Option (Client e)) (entries : List (String × e.Address))
      → Clean (code_checks e client [] entries) ↔ HasCode client entries
  unfolding code_checks contains
  code_checks-Clean_iff none [] = (λ _. tt, λ _. Clean-nil)
  code_checks-Clean_iff (some client) [] = (λ _. tt, λ _. Clean-nil)
  code_checks-Clean_iff none ((label, addr) ∷ rest) = (
    λ h.
        let (p, q) = (Clean-cons (code_check e none label addr) (code_checks e none [] rest)).0 h in
        unfold code_check address_has_code in absurd (cc p),
    λ (p, q). absurd p,
  )
  code_checks-Clean_iff (some client) ((label, addr) ∷ rest) =
      let split =
        Clean-cons (code_check e (some client) label addr) (code_checks e (some client) [] rest) in
      let here = code_check-passes_iff client label addr in
      let ih = code_checks-Clean_iff (some client) rest in
      (λ h. let (p, q) = split.0 h in (here.0 p, ih.0 q), λ (p, q). split.1 (here.1 p, ih.1 q))

  rich :
      (balance balance' : ℕ)
      → ◌≡◌ {A = Result String ℕ} (ok balance) (ok balance')
      → min_deploy_balance ≤ balance'
      → ltb balance min_deploy_balance ≡ true
      → ⊥
  rich balance balance' q r t = let same : balance ≡ balance' = cc in ground arith

  funds_check-Clean_iff :
      (client : Option (Client e)) (key : Option e.PrivateKey)
      → Clean (funds_check e client key) ↔ Funded client key
  unfolding funds_check key_has_funds any_fail
  funds_check-Clean_iff none key = (λ _. tt, λ _. Clean-nil)
  funds_check-Clean_iff (some client) none = (λ _. tt, λ _. Clean-nil)
  funds_check-Clean_iff (some client) (some key) =
      elim (Result-cases (client.balance_at (e.pubkey_to_address key))) [
        | inr (x, p) ↦
            rw (p, funds_check, key_has_funds, any_fail)
              (λ h. absurd (cc), λ (b, q, r). absurd (cc))
        | inl (balance, p) ↦ elim (Bool-cases (ltb balance min_deploy_balance)) [
          | inl t ↦
              rw (p, t, funds_check, key_has_funds, any_fail)
                (λ h. absurd (cc), λ (b, q, r). absurd (rich balance b q r t))
          | inr f ↦
              rw (p, f, funds_check, key_has_funds, any_fail)
                (λ _. (balance, refl, ground arith), λ _. refl)
        ]
      ]

  chain_checks-Clean_iff :
      (client : Option (Client e)) → Clean (chain_checks e client) ↔ Answers client
  unfolding chain_checks check_chain_id any_fail
  chain_checks-Clean_iff none = (λ _. tt, λ _. Clean-nil)
  chain_checks-Clean_iff (some client) = elim (Result-cases client.chain_id) [
    | inr (x, p) ↦ rw (p, check_chain_id, any_fail) (λ h. absurd (cc), λ (b, q). absurd (cc))
    | inl (id, p) ↦ rw (p, check_chain_id, any_fail) (λ _. (id, refl), λ _. refl)
  ]

  -- A report has no failure after the checks of a deployment exactly when it had none before, no address
  -- of the map is zero, the client finds code at all of them, a key with a client has the minimum
  -- balance, a client tells its chain, and the format check of the given environment file has no
  -- failure.
  pub register_deploy_checks-Clean_iff :
      (w : World) (client : Option (Client e)) (key : Option e.PrivateKey)
      (first second : List (String × e.Address)) (path : String) (r : Report)
      → (has_failures (register_deploy_checks e w client key first second path r) ≡ false) ↔ (
          (has_failures r ≡ false)
          × NonZero first
          × HasCode client second
          × Funded client key
          × Answers client
          × Clean (env_checks e w path))
  unfolding register_deploy_checks
  register_deploy_checks-Clean_iff w client key first second path r =
      let codes_part = code_checks e client (zero_addrs e first) second in
      let env = env_checks e w path in
      let chain = chain_checks e client in
      let funds = funds_check e client key in
      let tail = check_deployer_key_source w ∷ (funds ++ (chain ++ env)) in
      let top = has_failures-add_all (zero_checks e first ++ (codes_part ++ tail)) r in
      let a = Clean-append (zero_checks e first) (codes_part ++ tail) in
      let b = Clean-append codes_part tail in
      let c = Clean-cons (check_deployer_key_source w) (funds ++ (chain ++ env)) in
      let d = Clean-append funds (chain ++ env) in
      let f = Clean-append chain env in
      let z = zero_checks-Clean_iff first in
      let k = code_checks-Clean_iff client second in
      (
        λ h.
            let (old, new) = top.0 h in
            let (zeros, rest) = a.0 new in
            let nonzero = z.0 zeros in
            let (code, rest) = b.0 rest in
            let (fs, rest) = d.0 (c.0 rest).1 in
            let (ch, ev) = f.0 rest in
            (
              old,
              nonzero,
              k.0 (rw (zero_addrs-nil first nonzero) at code),
              (funds_check-Clean_iff client key).0 fs,
              (chain_checks-Clean_iff client).0 ch,
              ev,
            ),
        λ (old, nonzero, code, fs, ch, ev).
            let clean_code : Clean codes_part = rw (zero_addrs-nil first nonzero) (k.1 code) in
            let clean_tail : Clean tail = c.1 (
              key_source-passes w,
              d.1 (
                (funds_check-Clean_iff client key).1 fs,
                f.1 ((chain_checks-Clean_iff client).1 ch, ev),
              ),
            ) in
            top.1 (old, a.1 (z.1 nonzero, b.1 (clean_code, clean_tail))),
      )
