-- ===== src/Commands/StartTee/Owner.antt =====
-- tee/go/tools/cmd/start-tee/main.go: the environment that the TEE node finds.
use cipher_sign.Prelude.{
  Bytes, ok, Result-cases, ok_eq, Bool-cases, ◌≡◌, ◌≢◌, ◌⊎◌, inl, inr, refl, sym, ap, ◌∙◌,
}
use cipher_sign.Prelude.Text.{String, str_eq, eq_iff}
use mathlib.Core.Path.{subst}
use cipher_sign.Commands.StartTee.{Env, setenv, Keys, deployment_key, set_owner_address}

setenv-same : (name value : String) (env : Env) → setenv name value env name ≡ value
unfolding setenv
setenv-same name value env = rw ((eq_iff name name).1 refl) refl

setenv-other :
    (name value : String) (env : Env) (other : String)
    → (setenv name value env other ≡ env other) ⊎ (other ≡ name)
unfolding setenv
setenv-other name value env other = elim (Bool-cases (str_eq other name)) [
  | inl t ↦ inr ((eq_iff other name).0 t)
  | inr f ↦ inl (rw f refl)
]

module _ (k : Keys) where
  -- INITIAL_OWNER is set already and nothing changes; or it is not, and it becomes the address of the
  -- deployment key, with every other variable as it was.
  abbrev pub OwnerSet : Env → Env → Type 0
  OwnerSet env env' =
      ((env "INITIAL_OWNER" ≢ "") × (env' ≡ env))
      ⊎ ((env "INITIAL_OWNER" ≡ "")
          × ((key : k.PrivateKey) × (deployment_key k env ≡ ok key)
              × (env' "INITIAL_OWNER" ≡ k.address_text key))
          × ((name : String) → (env' name ≡ env name) ⊎ (name ≡ "INITIAL_OWNER")))

  -- Where setOwnerAddress ends well, INITIAL_OWNER was set and the environment is unchanged, or it was
  -- not and is now the address of the deployment key, and no other variable has changed. The
  -- address that is returned is in both cases the one that the text of before stands for, which is
  -- the empty text in the second.
  pub set_owner_address-OwnerSet :
      (env env' : Env) (address : Bytes)
      → set_owner_address k env ≡ (env', ok address)
      → OwnerSet env env' × (address ≡ k.hex_to_address (env "INITIAL_OWNER"))
  unfolding set_owner_address
  set_owner_address-OwnerSet env env' address h =
      elim (Bool-cases (str_eq (env "INITIAL_OWNER") "")) [
        | inr f ↦
            let h' = rw (f, set_owner_address) at h in
            (
              inl (
                (λ e. absurd (cc (f, (eq_iff (env "INITIAL_OWNER") "").1 e))),
                sym (ap (λ z. z.0) h'),
              ),
              sym (ok_eq (ap (λ z. z.1) h')),
            )
        | inl t ↦ elim (Result-cases (deployment_key k env)) [
          | inr (text, p) ↦ absurd (cc (ap (λ z. z.1) (rw (t, p, set_owner_address) at h)))
          | inl (key, p) ↦
              let h' = rw (t, p, set_owner_address) at h in
              let same = sym (ap (λ z. z.0) h') in
              (
                inr (
                  (eq_iff (env "INITIAL_OWNER") "").0 t,
                  (
                    key,
                    p,
                    ap (λ e. e "INITIAL_OWNER") same
                        ∙ setenv-same "INITIAL_OWNER" (k.address_text key) env,
                  ),
                  λ name.
                      subst (λ e. (e name ≡ env name) ⊎ (name ≡ "INITIAL_OWNER")) (sym same)
                        (setenv-other "INITIAL_OWNER" (k.address_text key) env name),
                ),
                sym (ok_eq (ap (λ z. z.1) h')),
              )
        ]
      ]
