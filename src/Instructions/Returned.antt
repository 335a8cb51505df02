-- ===== src/Instructions/Returned.antt =====
-- tee/go/tools/pkg/utils/instructions.go: the instruction id and the hash that a call returns.
use cipher_sign.Prelude.{
  ℕ, List, Bytes, ◌==◌, ==_iff, Result, ok, err, map_err, Result-cases, Bool-cases, ◌≡◌, inl, inr,
  sym, ap, ◌∙◌,
}
use cipher_sign.Prelude.Text.{String}
use cipher_sign.Prelude.Runs.{wrap, from_ok}
use mathlib.Core.Path.{subst}
use cipher_sign.Chain.{
  Chain, Net, Receipt, RpcError, Method, send, noted, wait_mined, in_world, update_key, sign,
}
use cipher_sign.Fcc.Transactions.{one_log, prefixed}
use cipher_sign.Instructions.{
  Sender, explained, send_explained, instruction_of, send_instruction, send_update_key, send_sign,
}

module _ (c : Chain) (x : Sender c) (prv : c.PrivateKey) where
  -- The transaction of the call was mined with status 1, and its first log carries the id.
  abbrev pub Mined : Method → c.World → Bytes → Bytes → Type 0
  Mined m w id hash =
      (tx : c.Tx) × (w1 : c.World) × (w2 : c.World) × (receipt : Receipt c.Log) × (log : c.Log)
      × (c.transact prv x.default_fee m w ≡ (w1, ok tx))
      × (c.wait_mined tx w1 ≡ (w2, ok receipt))
      × (receipt.status ≡ 1)
      × (one_log receipt.logs "no logs found in receipt" ≡ ok log)
      × (c.parse_tee_instructions_sent log ≡ ok id)
      × (hash ≡ receipt.tx_hash)

  instruction_of-ok :
      (name : String) (receipt : Receipt c.Log) (id hash : Bytes)
      → instruction_of c x prv name receipt ≡ ok (id, hash)
      → (log : c.Log) × (receipt.status ≡ 1)
        × (one_log receipt.logs "no logs found in receipt" ≡ ok log)
        × (c.parse_tee_instructions_sent log ≡ ok id)
        × (hash ≡ receipt.tx_hash)
  unfolding instruction_of
  instruction_of-ok name receipt id hash h = elim (Bool-cases (receipt.status == 1)) [
    | inr f ↦ absurd (cc (rw f at h))
    | inl t ↦ elim (Result-cases (one_log receipt.logs "no logs found in receipt")) [
      | inr (text, p) ↦ absurd (cc (rw (t, p) at h))
      | inl (log, p) ↦ elim (Result-cases (c.parse_tee_instructions_sent log)) [
        | inr (text, q) ↦ absurd (cc (rw (t, p, q) at h))
        | inl (id', q) ↦
            let e : ◌≡◌ {A = Result String (Bytes × Bytes)} (ok (id', receipt.tx_hash))
                (ok (id, hash)) =
              rw (t, p, q) at h in
            (log, (==_iff receipt.status 1).0 t, p, q ∙ ap ok (cc e), cc e)
      ]
    ]
  ]

  explained-ok :
      (before : String) (to : Bytes) (value : ℕ) (m : Method) (y : Net c × Result RpcError c.Tx)
      (n' : Net c) (tx : c.Tx)
      → explained c x prv before to value m y ≡ (n', ok tx)
      → y ≡ (n', ok tx)
  explained-ok before to value m (n1, ok tx1) n' tx h = cc
  explained-ok before to value m (n1, err e) n' tx h = absurd (cc (ap (λ z. z.1) h))

  noted-ok :
      (sent : List Method) (m : Method) (y : c.World × Result RpcError c.Tx) (n' : Net c)
      (tx : c.Tx)
      → noted c sent m y ≡ (n', ok tx)
      → y ≡ (n'.world, ok tx)
  noted-ok sent m (w, ok tx1) n' tx h = cc (ap (λ z. z.0.world) h, ap (λ z. z.1) h)
  noted-ok sent m (w, err e) n' tx h = absurd (cc (ap (λ z. z.1) h))

  waited-ok :
      (g : String → String) (sent : List Method) (y : c.World × Result String (Receipt c.Log))
      (n' : Net c) (receipt : Receipt c.Log)
      → wrap g (in_world c sent y) ≡ (n', ok receipt)
      → y ≡ (n'.world, ok receipt)
  waited-ok g sent (w, ok r) n' receipt h = cc (ap (λ z. z.0.world) h, ap (λ z. z.1) h)
  waited-ok g sent (w, err e) n' receipt h = absurd (cc (ap (λ z. z.1) h))

  Mined-from :
      (before name : String) (address : Bytes) (m : Method) (n n1 n2 : Net c) (tx : c.Tx)
      (receipt : Receipt c.Log) (id hash : Bytes)
      → send_explained c x prv before address x.default_fee m n ≡ (n1, ok tx)
      → wrap (prefixed "failed waiting for transaction: ") (wait_mined c tx n1) ≡ (n2, ok receipt)
      → instruction_of c x prv name receipt ≡ ok (id, hash)
      → Mined m n.world id hash
  unfolding send_explained send wait_mined
  Mined-from before name address m n n1 n2 tx receipt id hash sent waited read =
      let p =
        noted-ok n.sent m _ n1 tx (explained-ok before address x.default_fee m _ n1 tx sent) in
      let q = waited-ok _ n1.sent _ n2 receipt waited in
      let (log, status, first, parsed, same) = instruction_of-ok name receipt id hash read in
      (tx, n1.world, n2.world, receipt, log, p, q, status, first, parsed, same)

  send_instruction-Mined :
      (name : String) (address : Bytes) (m : Method) (n n' : Net c) (id hash : Bytes)
      → send_instruction c x prv name address m n ≡ (n', ok (id, hash))
      → Mined m n.world id hash
  unfolding send_instruction
  send_instruction-Mined name address m n n' id hash h =
      from_ok (n, map_err (prefixed "failed to bind contract: ") (x.new_instruction_sender address))
        _ n' (id, hash) h
        λ n0 u0 e0 h0.
          from_ok
            (n0, map_err (prefixed "failed to create transactor: ") (c.new_keyed_transactor prv)) _
            n' (id, hash) h0
            λ n1 u1 e1 h1.
              from_ok (send_explained c x prv _ address x.default_fee m n1) _ n' (id, hash) h1
                λ n2 tx e2 h2.
                  from_ok (wrap (prefixed "failed waiting for transaction: ") (wait_mined c tx n2))
                    _ n' (id, hash) h2
                    λ n3 receipt e3 h3.
                      subst (λ w. Mined m w id hash)
                        (sym (ap (λ z. z.0.world) e0 ∙ ap (λ z. z.0.world) e1))
                        (Mined-from _ name address m n1 n2 n3 tx receipt id hash e2 e3
                          (ap (λ z. z.1) h3))

  -- When SendUpdateKey and then SendSign return, each id and hash are those of the transaction of that
  -- call: it was paid with the fee, mined with status 1, the id is the one in the first log of its
  -- receipt and the hash is the receipt's.
  pub update_then_sign-Mined :
      (address key message : Bytes) (n n1 n2 : Net c) (id1 id2 hash1 hash2 : Bytes)
      → send_update_key c x prv address key n ≡ (n1, ok (id1, hash1))
      → send_sign c x prv address message n1 ≡ (n2, ok (id2, hash2))
      → Mined (update_key address key) n.world id1 hash1
        × Mined (sign address message) n1.world id2 hash2
  unfolding send_update_key send_sign
  update_then_sign-Mined address key message n n1 n2 id1 id2 hash1 hash2 h k = (
    send_instruction-Mined "updateKey" address (update_key address key) n n1 id1 hash1 h,
    send_instruction-Mined "sign" address (sign address message) n1 n2 id2 hash2 k,
  )
