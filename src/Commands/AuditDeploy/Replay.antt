-- ===== src/Commands/AuditDeploy/Replay.antt =====
-- tee/go/tools/cmd/audit-deploy/main.go and tee/go/tools/pkg/fccutils/diag.go: the two readers of revert data.
use cipher_sign.Prelude.{
  false, Bytes, length, take, eq_bytes, ltb, ◌==◌, Bool-cases, Option-cases, ◌≡◌, inl, inr, refl,
  arith,
}
use cipher_sign.Prelude.Text.{String}
use cipher_sign.Chain.{Chain}
use cipher_sign.Fcc.Diag.{
  Diagnostics, Diagnosis, abi_not_loaded, not_packed, no_revert_data, call_succeeded,
  data_without_selector, reason_text, custom_error, unknown_selector, error_string_selector,
  find_source, by_selector, diagnose_data,
}
use cipher_sign.Commands.AuditDeploy.{
  Replayed, short_data, reason_string, reverts_with, unknown_error, named, read_revert,
}

-- What the replay prints for a diagnosis of the same data.
abbrev pub as_replayed : String → Bytes → Diagnosis → Replayed
as_replayed text revert_data (abi_not_loaded _) = short_data text
as_replayed text revert_data (not_packed _) = short_data text
as_replayed text revert_data call_succeeded = short_data text
as_replayed text revert_data (no_revert_data _) = short_data text
as_replayed text revert_data (data_without_selector _) = short_data text
as_replayed text revert_data (reason_text reason) = reason_string reason
as_replayed text revert_data (custom_error source name arguments) =
    reverts_with source name arguments revert_data
as_replayed text revert_data (unknown_selector selector whole) = unknown_error selector whole

module _ (c : Chain) (d : Diagnostics) where
  named_same :
      (text : String) (revert_data : Bytes)
      → named c d revert_data (find_source (take 4 revert_data) d.abi_sources)
        ≡ as_replayed text revert_data (by_selector c d revert_data)
  unfolding by_selector
  named_same text revert_data =
      elim (Option-cases (find_source (take 4 revert_data) d.abi_sources)) [
        | inl p ↦ rw (p, by_selector) refl
        | inr (x, p) ↦ rw (p, by_selector) refl
      ]

  -- Over the same ABIs, audit-deploy and the diagnosis of a refused call read revert data alike: the same
  -- reason, the same custom error with its arguments, the same unknown selector; where the
  -- diagnosis tells empty data from data shorter than a selector, audit-deploy has one line for both.
  pub read_revert-diagnose_data :
      (text : String) (revert_data : Bytes)
      → read_revert c d text revert_data
        ≡ as_replayed text revert_data (diagnose_data c d text revert_data)
  unfolding read_revert diagnose_data
  read_revert-diagnose_data text revert_data = elim (Bool-cases (ltb (length revert_data) 4)) [
    | inl t ↦ elim (Bool-cases (length revert_data == 0)) [
      | inl z ↦ rw (t, z) refl
      | inr z ↦ rw (t, z) refl
    ]
    | inr f ↦
        let some_bytes : (length revert_data == 0) ≡ false = ground arith in
        elim (Bool-cases (eq_bytes (take 4 revert_data) error_string_selector)) [
          | inr e ↦ rw (f, some_bytes, e) (named_same text revert_data)
          | inl e ↦ elim (Option-cases (c.unpack_revert revert_data)) [
            | inl p ↦ rw (f, some_bytes, e, p) (named_same text revert_data)
            | inr (reason, p) ↦ rw (f, some_bytes, e, p) refl
          ]
        ]
  ]
