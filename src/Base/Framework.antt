-- ===== src/Base/Framework.antt =====
-- tee/go/internal/base/types.go: the registered handlers, of whatever type `H` they have.
pub mod Dispatch
use cipher_sign.Prelude.{
  ◌+◌, not, ◌||◌, List, [], ◌∷◌, ◌++◌, Option, none, some, Bytes, eq_bytes, if◌then◌else◌,
}
use cipher_sign.Base.Bytes32.{string_to_bytes32_hex}

pub record HandlerEntry (H : Type 0) : Type 0 where
  pub op_type : Bytes
  pub op_command : Bytes
  pub handler : H

abbrev pub Framework : Type 0 → Type 0
Framework H = List (HandlerEntry H)

module _ {H : Type 0} where
  unfoldable pub handle : Bytes → Bytes → H → Framework H → Framework H
  handle op_type op_command handler f =
      f
      ++ record {
        op_type = string_to_bytes32_hex op_type;
        op_command = string_to_bytes32_hex op_command;
        handler = handler;
      }
        ∷ []

  unfoldable pub lookup : Framework H → Bytes → Bytes → Option H
  lookup [] op_type op_command = none
  lookup (e ∷ rest) op_type op_command =
      let later = lookup rest op_type op_command in
      if not (eq_bytes e.op_type op_type)
      then later
      else if eq_bytes e.op_command (string_to_bytes32_hex []) || eq_bytes e.op_command op_command
      then some e.handler
      else later
