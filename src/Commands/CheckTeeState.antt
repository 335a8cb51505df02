-- ===== src/Commands/CheckTeeState.antt =====
-- tee/go/tools/cmd/check-tee-state/main.go: the printed verdict, and the membership of the active set,
-- each as the lines that are printed. The reads of the contracts are arguments.
pub mod Consistent
pub mod Named
pub mod Sections
use cipher_sign.Prelude.{
  ℕ, zero, suc, ◌+◌, ◌-◌, ◌/◌, Bool, false, not, ◌&&◌, ◌||◌, List, [], ◌∷◌, ◌++◌, Bytes, replicate,
  All, eq_bytes, ◌==◌, if◌then◌else◌, Result, ok, err,
}
use cipher_sign.Prelude.Text.{String, concat, itoa}

-- `teeStatusNames`.
abbrev tee_status_names : List String
tee_status_names = "NONE" ∷ "INITIALIZED" ∷ "PRODUCTION" ∷ "SUSPENDED" ∷ "PAUSED" ∷ "BANNED" ∷ []

abbrev nth_or : List String → ℕ → String → String
nth_or [] i other = other
nth_or (x ∷ xs) zero other = x
nth_or (x ∷ xs) (suc i) other = nth_or xs i other

unfoldable pub status_name : ℕ → String
status_name s = nth_or tee_status_names s "UNKNOWN"

-- `common.Address{}`.
abbrev pub no_address : Bytes
no_address = replicate 20 0

-- The lines of the verdict.
pub data Line : Type 0 where
  no_record too_many same_address or_redeploy wrong_extension already_promoted orphaned : Line
  all_consistent : Line
  sender_differs proxy_differs : ℕ → ℕ → Line
  quick_fix : Bytes → ℕ → Line
  will_revert : ℕ → Line

unfoldable pub line_text : (Bytes → String) → Line → String
unfolding status_name
line_text hex no_record =
    "  TEE has no on-chain record — register it (run post-build.sh against a fresh extension)."
line_text hex (sender_differs is onchain) =
    concat
      ("  MISMATCH: InstructionSender ext=" ∷ itoa is ∷ " ≠ TEE on-chain ext=" ∷ itoa onchain ∷ [])
line_text hex too_many =
    "    → updateKey calls getRandomTeeIds(InstructionSender's ext) which has no TEEs → TooMany."
line_text hex (quick_fix registered onchain) = concat (
    "    → Quick fix: set INSTRUCTION_SENDER="
    ∷ hex registered
    ∷ " in config/extension.env (this is the sender registered against the TEE's ext "
    ∷ itoa onchain
    ∷ ")."
    ∷ [])
line_text hex same_address =
    "    → (Same address as your current INSTRUCTION_SENDER. Did slot 0 read wrong, or is the binding stale?)"
line_text hex or_redeploy = "    → Or redeploy InstructionSender + register fresh TEE under it."
line_text hex (proxy_differs proxy onchain) =
    concat
      ("  MISMATCH: proxy reports ext=" ∷ itoa proxy ∷ " ≠ TEE on-chain ext=" ∷ itoa onchain ∷ [])
line_text hex wrong_extension =
    "    → post-build.sh will request attestations against the wrong extension."
line_text hex (will_revert status) = concat (
    "  toProduction will revert: status="
    ∷ itoa status
    ∷ " ("
    ∷ status_name status
    ∷ "); toProduction requires INITIALIZED(1) or PAUSED(4)."
    ∷ [])
line_text hex already_promoted =
    "    → TEE is already in PRODUCTION. If active set contains it, you're done — skip post-build's `p` step."
line_text hex orphaned =
    "    → If active set is empty (TooMany), the TEE is orphaned — see mismatches above, or call pause() then re-promote."
line_text hex all_consistent =
    "  All consistent. If test.sh still fails, the active set was emptied for a non-status reason (banned/disabled version)."

module _ (get_tee_extension_instructions_sender : ℕ → Result String Bytes) where
  -- The hint on the sender that is registered for the extension.
  unfoldable pub sender_hint : ℕ → Bytes → Result String Bytes → List Line
  sender_hint onchain current_sender (err text) = or_redeploy ∷ []
  sender_hint onchain current_sender (ok registered) =
      if eq_bytes registered no_address
      then or_redeploy ∷ []
      else quick_fix registered onchain
        ∷ (if eq_bytes registered current_sender then same_address ∷ [] else [])

  unfoldable pub sender_mismatch : ℕ → ℕ → Bytes → List Line
  unfolding sender_hint
  sender_mismatch is onchain current_sender =
      if is == onchain
      then []
      else sender_differs is onchain
        ∷ too_many
        ∷ sender_hint onchain current_sender (get_tee_extension_instructions_sender onchain)

  unfoldable pub proxy_mismatch : ℕ → ℕ → List Line
  proxy_mismatch proxy onchain =
      if proxy == onchain then [] else proxy_differs proxy onchain ∷ wrong_extension ∷ []

  unfoldable pub status_mismatch : Result String ℕ → List Line
  status_mismatch (err text) = []
  status_mismatch (ok status) =
      if not (status == 1) && not (status == 4)
      then will_revert status ∷ (if status == 2 then already_promoted ∷ orphaned ∷ [] else [])
      else []

  -- The last line stands where no other one does.
  abbrev pub or_consistent : List Line → List Line
  or_consistent [] = all_consistent ∷ []
  or_consistent (line ∷ lines) = line ∷ lines

  unfoldable pub verdict : ℕ → ℕ → Result String ℕ → Result String ℕ → Bytes → List Line
  unfolding sender_mismatch proxy_mismatch status_mismatch
  verdict proxy is (err text) status current_sender = no_record ∷ []
  verdict proxy is (ok onchain) status current_sender = or_consistent (
      sender_mismatch is onchain current_sender
      ++ (proxy_mismatch proxy onchain ++ status_mismatch status))

-- `listActive`: whether the active set has the TEE.
unfoldable pub contains_tee : Bytes → List Bytes → Bool
contains_tee tee_id [] = false
contains_tee tee_id (id ∷ ids) = eq_bytes id tee_id || contains_tee tee_id ids
