-- ===== src/Commands/QueryTee/Urls.antt =====
-- tee/go/tools/cmd/query-tee/main.go: when the loop over the active set runs out of urls.
use cipher_sign.Prelude.{
  ℕ, ◌+◌, ◌<◌, List, [], ◌∷◌, none, Bytes, length, ◌≡◌, ◌↔◌, refl, arith, Option-cases, inl, inr,
}
use cipher_sign.Prelude.Text.{String}
use cipher_sign.Commands.QueryTee.{Machines, active_lines}

-- The lines of the active set fail, which is a panic, exactly when there are fewer urls than ids.
active_lines-fails_iff :
    (x : Machines) (i : ℕ) (ids : List Bytes) (urls : List String)
    → (active_lines x i ids urls ≡ none) ↔ (length urls < length ids)
unfolding active_lines
active_lines-fails_iff x i [] urls = (λ e. absurd (grind (arith, e)), λ h. absurd (omega arith))
active_lines-fails_iff x i (id ∷ ids) [] = (λ e. omega arith, λ h. refl)
active_lines-fails_iff x i (id ∷ ids) (url ∷ urls) =
    let (only_if, if_fewer) = active_lines-fails_iff x (i + 1) ids urls in
    elim (Option-cases (active_lines x (i + 1) ids urls)) [
      | inl e ↦ (λ q. let fewer = only_if e in omega arith, λ h. grind (arith, e))
      | inr (rest, e) ↦ (
        λ q. absurd (grind (arith, e, q)),
        λ h. let no = if_fewer (omega arith) in absurd (grind (arith, e, no)),
      )
    ]
