-- ===== src/Instructions/Sent.antt =====
-- tee/go/tools/pkg/utils/instructions.go: what each call sends, and whose result it returns.
use cipher_sign.Prelude.{ℕ, Bytes, Result, ok, err, map_err, ◌≡◌, refl, arith}
use cipher_sign.Prelude.Text.{String}
use cipher_sign.Prelude.Runs.{wrap}
use cipher_sign.Chain.{
  Chain, Net, Receipt, RpcError, Method, send, wait_mined, deploy_instruction_sender,
  set_extension_id, update_key, sign,
}
use cipher_sign.Chain.Sent.{
  Keeps, Once, before_Once, behind_Once, Keeps-after, Keeps-wrap, Once-send, noted-Once,
  Keeps-wait_mined,
}
use cipher_sign.Fcc.Transactions.{prefixed}
use cipher_sign.Instructions.{
  Sender, explained, send_explained, send_instruction, send_update_key, send_sign, extension_id_set,
  set_extension_id_call, not_deployed, deployed, deploy_sender,
}

module _ (c : Chain) (x : Sender c) (prv : c.PrivateKey) where
  explained-Once :
      (P : Method → Type 0) (n : Net c) (before : String) (to : Bytes) (value : ℕ) (m : Method)
      (y : Net c × Result RpcError c.Tx)
      → Once c P n y
      → Once c P n (explained c x prv before to value m y)
  explained-Once P n before to value m (n', ok tx) o = o
  explained-Once P n before to value m (n', err e) o = o

  send_explained-Once :
      (n : Net c) (before : String) (to : Bytes) (value : ℕ) (m : Method)
      → Once c (λ y. y ≡ m) n (send_explained c x prv before to value m n)
  unfolding send_explained send
  send_explained-Once n before to value m =
      explained-Once (λ y. y ≡ m) n before to value m (send c prv value m n)
        (noted-Once c (λ y. y ≡ m) n m (c.transact prv value m n.world) refl)

  pub send_instruction-Once :
      (name : String) (address : Bytes) (m : Method) (n : Net c)
      → Once c (λ y. y ≡ m) n (send_instruction c x prv name address m n)
  unfolding send_instruction
  send_instruction-Once name address m n =
      before_Once c _ n (n, map_err _ (x.new_instruction_sender address)) _ refl
        λ u n.
          before_Once c _ n (n, map_err _ (c.new_keyed_transactor prv)) _ refl
            λ u n. behind_Once c _ n _ _ (send_explained-Once n _ address x.default_fee m) λ tx n.
              Keeps-after c n _ _ (Keeps-wrap c n _ (wait_mined c tx n) (Keeps-wait_mined c tx n))
                λ receipt n. refl

  extension_id_set-Keeps :
      (address : Bytes) (receipt : Receipt c.Log) (n : Net c)
      → Keeps c n (extension_id_set c x prv address receipt n)
  unfolding extension_id_set
  extension_id_set-Keeps address receipt n = ground arith

  pub set_extension_id_call-Once :
      (address : Bytes) (n : Net c)
      → Once c (λ y. y ≡ set_extension_id address) n (set_extension_id_call c x prv address n)
  unfolding set_extension_id_call
  set_extension_id_call-Once address n =
      before_Once c _ n (n, map_err _ (x.new_instruction_sender address)) _ refl
        λ u n.
          before_Once c _ n (n, map_err _ (c.new_keyed_transactor prv)) _ refl
            λ u n. behind_Once c _ n _ _ (send_explained-Once n _ address 0 _) λ tx n.
              Keeps-after c n
                (wrap (prefixed "failed waiting for transaction: ") (wait_mined c tx n))
                (extension_id_set c x prv address)
                (Keeps-wrap c n _ (wait_mined c tx n) (Keeps-wait_mined c tx n))
                (extension_id_set-Keeps address)

  deployed-Keeps :
      (tx : c.Tx) (receipt : Receipt c.Log) (n : Net c) → Keeps c n (deployed c x prv tx receipt n)
  unfolding deployed
  deployed-Keeps tx receipt n = ground arith

  pub deploy_sender-Once :
      (manager : Bytes) (n : Net c)
      → Once c
          (λ y. y ≡ deploy_instruction_sender manager manager)
          n
          (deploy_sender c x prv manager n)
  unfolding deploy_sender
  deploy_sender-Once manager n =
      let P : Method → Type 0 = λ y. y ≡ deploy_instruction_sender manager manager in
      before_Once c P n (n, map_err _ (c.new_keyed_transactor prv)) _ refl
        λ u n. behind_Once c P n _ _ (Once-send c P n prv 0 _ _ refl) λ tx n.
          Keeps-after c n (wrap (not_deployed c x prv tx) (wait_mined c tx n)) (deployed c x prv tx)
            (Keeps-wrap c n _ (wait_mined c tx n) (Keeps-wait_mined c tx n)) (deployed-Keeps tx)

  -- Each of the four calls sends its own method, with the given address and bytes, once if it ends well
  -- and once at most if it fails, whatever the replay of a refused call shows; a deployment hands the
  -- TEE manager over for both registries.
  pub sender_calls-Once :
      (address : Bytes) (n : Net c)
      → ((key : Bytes)
          → Once c (λ y. y ≡ update_key address key) n (send_update_key c x prv address key n))
        × ((message : Bytes)
            → Once c (λ y. y ≡ sign address message) n (send_sign c x prv address message n))
        × Once c (λ y. y ≡ set_extension_id address) n (set_extension_id_call c x prv address n)
        × Once c
            (λ y. y ≡ deploy_instruction_sender address address)
            n
            (deploy_sender c x prv address n)
  unfolding send_update_key send_sign
  sender_calls-Once address n = (
    λ key. send_instruction-Once "updateKey" address (update_key address key) n,
    λ message. send_instruction-Once "sign" address (sign address message) n,
    set_extension_id_call-Once address n,
    deploy_sender-Once address n,
  )
