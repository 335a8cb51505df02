-- ===== src/Chain/Sample.antt =====
-- Test data: a chain that mines every transaction and counts them.
use cipher_sign.Prelude.{ℕ, suc, [], ◌∷◌, none, Bytes, ok, err}
use cipher_sign.Chain.{Chain, Net}

-- Each receipt has two logs, and an event is the bytes of its log.
abbrev pub mining : Chain
mining = record {
  World = ℕ;
  Tx = ℕ;
  Log = Bytes;
  PrivateKey = ℕ;
  new_keyed_transactor = λ k. ok tt;
  pubkey_to_address = λ k. k ∷ [];
  transact = λ k value m w. (suc w, ok w);
  tx_hash = λ tx. tx ∷ [];
  hash_hex = λ b. "0x";
  wait_mined = λ tx w.
      (w, ok (record { status = 1; logs = (tx ∷ 1 ∷ []) ∷ (tx ∷ 2 ∷ []) ∷ []; tx_hash = tx ∷ [] }));
  transaction_by_hash = λ b w. err "pruned";
  sender = λ m. err "unsigned";
  call_contract = λ m w. ok [];
  unpack_revert = λ b. none;
  parse_tee_instructions_sent = λ log. ok log;
  parse_tee_attestation_requested = λ log. ok log;
}

abbrev pub fresh : Net mining
fresh = record { world = 5; sent = [] }
