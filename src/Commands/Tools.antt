-- ===== src/Commands/Tools.antt =====
-- tee/go/tools/cmd: what the commands of an extension owner share. The environment and the parsing of a
-- key are parameters.
use cipher_sign.Prelude.{Result}
use cipher_sign.Prelude.Text.{String}
use cipher_sign.Chain.{Chain}
use cipher_sign.Fcc.TeeCalls.{Node}
use cipher_sign.Fcc.Identity.{Identities}

pub record Tools (c : Chain) : Type 1 where
  pub node : Node c.World
  pub identities : Identities
  pub getenv : String → String
  pub hex_to_ecdsa : String → Result String c.PrivateKey
