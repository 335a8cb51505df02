-- ===== src/Commands/CheckTeeState/Named.antt =====
-- tee/go/tools/cmd/check-tee-state/main.go: which mismatches the verdict names.
use cipher_sign.Prelude.{
  ℕ, [], ◌∷◌, ◌++◌, List, Bytes, All, eq_bytes, ◌==◌, ==_iff, Result, ok, err, Bool-cases, ◌≡◌, ◌≢◌,
  ◌↔◌, ◌⊎◌, inl, inr, refl, ap, ◌∙◌, arith,
}
use cipher_sign.Prelude.Text.{String}
use mathlib.Core.Path.{subst}
use cipher_sign.Commands.CheckTeeState.{
  Line, no_record, too_many, wrong_extension, already_promoted, orphaned, all_consistent,
  sender_differs, proxy_differs, will_revert, no_address, sender_hint, sender_mismatch,
  proxy_mismatch, status_mismatch, verdict, or_consistent,
}
use cipher_sign.Commands.CheckTeeState.Consistent.{CanPromote, verdict-consistent_iff}

abbrev pub Shows : Line → List Line → Type 0
Shows l [] = ⊥
Shows l (x ∷ xs) = (l ≡ x) ⊎ Shows l xs

-- The lines that name a mismatch; the others are advice, or say that there is none.
abbrev pub IsNaming : Line → Type 0
IsNaming (sender_differs is onchain) = Unit {0}
IsNaming (proxy_differs proxy onchain) = Unit {0}
IsNaming (will_revert status) = Unit {0}
IsNaming l = ⊥

Shows-append : (l : Line) (xs ys : List Line) → Shows l (xs ++ ys) ↔ (Shows l xs ⊎ Shows l ys)
Shows-append l [] ys = (λ h. inr h, λ h. elim h [ inl p ↦ absurd p | inr q ↦ q ])
Shows-append l (x ∷ xs) ys =
    let (there, back) = Shows-append l xs ys in
    (
      λ h. elim h [
        | inl e ↦ inl (inl e)
        | inr p ↦ elim (there p) [ inl q ↦ inl (inr q) | inr q ↦ inr q ]
      ],
      λ h. elim h [
        | inl p ↦ elim p [ inl e ↦ inl e | inr q ↦ inr (back (inl q)) ]
        | inr q ↦ inr (back (inr q))
      ],
    )

abbrev Plain : List Line → Type 0
Plain = All (λ l. ¬ IsNaming l)

Plain-absent : (l : Line) (xs : List Line) → Plain xs → IsNaming l → Shows l xs → ⊥
Plain-absent l [] p n h = h
Plain-absent l (x ∷ xs) (p, ps) n (inl e) = p (subst IsNaming e n)
Plain-absent l (x ∷ xs) (p, ps) n (inr h) = Plain-absent l xs ps n h

-- One line that names, with plain lines behind it.
Shows-first : (l k : Line) (xs : List Line) → Plain xs → IsNaming l → Shows l (k ∷ xs) ↔ (l ≡ k)
Shows-first l k xs p n =
    (λ h. elim h [ inl e ↦ e | inr q ↦ absurd (Plain-absent l xs p n q) ], λ e. inl e)

module _ (sender_of : ℕ → Result String Bytes) (l : Line) (named : IsNaming l) where
  hint-Plain :
      (x : ℕ) (current_sender : Bytes) (r : Result String Bytes)
      → Plain (sender_hint sender_of x current_sender r)
  unfolding sender_hint
  hint-Plain x current_sender (err text) = ((λ h. h), tt)
  hint-Plain x current_sender (ok registered) = elim (Bool-cases (eq_bytes registered no_address)) [
    | inl t ↦ rw t ((λ h. h), tt)
    | inr f ↦ elim (Bool-cases (eq_bytes registered current_sender)) [
      | inl t ↦ rw (f, t) ((λ h. h), ((λ h. h), tt))
      | inr g ↦ rw (f, g) ((λ h. h), tt)
    ]
  ]

  sender-named :
      (is x : ℕ) (current_sender : Bytes)
      → Shows l (sender_mismatch sender_of is x current_sender)
        ↔ ((is ≢ x) × (l ≡ sender_differs is x))
  unfolding sender_mismatch
  sender-named is x current_sender =
      let plain = hint-Plain x current_sender (sender_of x) in
      elim (Bool-cases (is == x)) [
        | inl t ↦ rw t (λ h. absurd h, λ (n, e). absurd (n ((==_iff is x).0 t)))
        | inr f ↦
            let (there, back) =
              Shows-first l (sender_differs is x)
                (too_many ∷ sender_hint sender_of x current_sender (sender_of x)) ((λ h. h), plain)
                named in
            rw f (λ h. ((λ e. ground arith), there h), λ (n, e). back e)
      ]

  proxy-named :
      (proxy x : ℕ)
      → Shows l (proxy_mismatch sender_of proxy x) ↔ ((proxy ≢ x) × (l ≡ proxy_differs proxy x))
  unfolding proxy_mismatch
  proxy-named proxy x = elim (Bool-cases (proxy == x)) [
    | inl t ↦ rw t (λ h. absurd h, λ (n, e). absurd (n ((==_iff proxy x).0 t)))
    | inr f ↦
        let (there, back) =
          Shows-first l (proxy_differs proxy x) (wrong_extension ∷ []) ((λ h. h), tt) named in
        rw f (λ h. ((λ e. ground arith), there h), λ (n, e). back e)
  ]

  -- The status could be read, and is not one from which the TEE can be promoted.
  abbrev pub Stuck : Result String ℕ → Type 0
  Stuck status = (s : ℕ) × (status ≡ ok s) × (s ≢ 1) × (s ≢ 4) × (l ≡ will_revert s)

  status-named :
      (status : Result String ℕ) → Shows l (status_mismatch sender_of status) ↔ Stuck status
  unfolding status_mismatch
  status-named (err text) = (λ h. absurd h, λ (s, e, _, _, _). absurd (cc e))
  status-named (ok s) = elim (Bool-cases (s == 1)) [
    | inl t ↦ rw t (λ h. absurd h, λ (s', e, n, _, _). absurd (n (ground arith)))
    | inr f ↦ elim (Bool-cases (s == 4)) [
      | inl t ↦ rw (f, t) (λ h. absurd h, λ (s', e, _, n, _). absurd (n (ground arith)))
      | inr g ↦ elim (Bool-cases (s == 2)) [
        | inl t ↦
            let (there, back) =
              Shows-first l (will_revert s) (already_promoted ∷ orphaned ∷ [])
                ((λ h. h), ((λ h. h), tt)) named in
            rw (f, g, t)
              (
                λ h. (s, refl, (λ e. ground arith), (λ e. ground arith), there h),
                λ (s', e, _, _, p). back (p ∙ ap will_revert (cc e)),
              )
        | inr k ↦
            let (there, back) = Shows-first l (will_revert s) [] tt named in
            rw (f, g, k)
              (
                λ h. (s, refl, (λ e. ground arith), (λ e. ground arith), there h),
                λ (s', e, _, _, p). back (p ∙ ap will_revert (cc e)),
              )
      ]
    ]
  ]

  or_consistent-Shows : (xs : List Line) → Shows l (or_consistent sender_of xs) ↔ Shows l xs
  or_consistent-Shows [] =
      (λ h. Plain-absent l (all_consistent ∷ []) ((λ h. h), tt) named h, λ h. absurd h)
  or_consistent-Shows (x ∷ xs) = (λ h. h, λ h. h)

  -- The mismatch that a line names.
  abbrev pub Mismatch : ℕ → ℕ → ℕ → Result String ℕ → Type 0
  Mismatch proxy is x status =
      (is ≢ x) × (l ≡ sender_differs is x)
      ⊎ (proxy ≢ x) × (l ≡ proxy_differs proxy x)
      ⊎ Stuck status

  verdict-Shows :
      (proxy is x : ℕ) (status : Result String ℕ) (current_sender : Bytes)
      → Shows l (verdict sender_of proxy is (ok x) status current_sender)
        ↔ Mismatch proxy is x status
  unfolding verdict
  verdict-Shows proxy is x status current_sender =
      let a = sender_mismatch sender_of is x current_sender in
      let b = proxy_mismatch sender_of proxy x in
      let d = status_mismatch sender_of status in
      let o = or_consistent-Shows (a ++ (b ++ d)) in
      let first = Shows-append l a (b ++ d) in
      let second = Shows-append l b d in
      let sender = sender-named is x current_sender in
      let prox = proxy-named proxy x in
      let stat = status-named status in
      (
        λ h. elim (first.0 (o.0 h)) [
          | inl p ↦ inl (sender.0 p)
          | inr q ↦ elim (second.0 q) [
            | inl p ↦ inr (inl (prox.0 p))
            | inr p ↦ inr (inr (stat.0 p))
          ]
        ],
        λ h. o.1 (elim h [
          | inl p ↦ first.1 (inl (sender.1 p))
          | inr q ↦ elim q [
            | inl p ↦ first.1 (inr (second.1 (inl (prox.1 p))))
            | inr p ↦ first.1 (inr (second.1 (inr (stat.1 p))))
          ]
        ]),
      )

  -- The verdict says that all is consistent, and nothing else, exactly where the extension of the TEE
  -- could be read, the instruction sender and the proxy have the same one, and the status is
  -- INITIALIZED or PAUSED or could not be read; the active sets are no part of it, and a TEE in
  -- PRODUCTION is never called consistent. A line that names a mismatch is in the verdict exactly where
  -- the extension of the TEE could be read and the line is of the instruction sender's extension, which
  -- is another one, of the proxy's, which is another one, or of a status that could be read and is
  -- neither INITIALIZED nor PAUSED.
  pub verdict-named_iff :
      (proxy is : ℕ) (onchain status : Result String ℕ) (current_sender : Bytes)
      → ((verdict sender_of proxy is onchain status current_sender ≡ all_consistent ∷ [])
          ↔ ((x : ℕ) × (onchain ≡ ok x) × (is ≡ x) × (proxy ≡ x) × CanPromote status))
        × (Shows l (verdict sender_of proxy is onchain status current_sender)
            ↔ ((x : ℕ) × (onchain ≡ ok x) × Mismatch proxy is x status))
  verdict-named_iff proxy is (err text) status current_sender = (
    verdict-consistent_iff sender_of proxy is (err text) status current_sender,
    (
      λ h. absurd (Plain-absent l (no_record ∷ []) ((λ h. h), tt) named (unfold verdict in h)),
      λ (x, e, _). absurd (cc e),
    ),
  )
  verdict-named_iff proxy is (ok x) status current_sender = (
    verdict-consistent_iff sender_of proxy is (ok x) status current_sender,
    (
      λ h. (x, refl, (verdict-Shows proxy is x status current_sender).0 h),
      λ (y, e, m).
          let same : y ≡ x = cc e in
          (verdict-Shows proxy is x status current_sender).1
            (subst (λ z. Mismatch proxy is z status) same m),
    ),
  )
