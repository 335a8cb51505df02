-- ===== src/Chain/Sent.antt =====
-- Computations by what they send: nothing, or one call.
use cipher_sign.Prelude.{
  ℕ, Bool, true, false, ◌∷◌, Result, ok, err, ◌≡◌, ◌⊎◌, inl, inr, refl, ap, ◌∙◌,
}
use cipher_sign.Prelude.Runs.{Run, after, wrap, ensure}
use mathlib.Core.Path.{subst}
use cipher_sign.Chain.{Chain, Net, RpcError, Method, send, noted, wait_mined, beside, aside}

module _ (c : Chain) where
  -- Nothing is sent.
  abbrev pub Keeps {ℓ} : {A : Type ℓ} → Net c → Net c × A → Type 0
  Keeps n x = x.0.sent ≡ n.sent

  abbrev pub SendsOne : (Method → Type 0) → Net c → Net c → Type 0
  SendsOne P n n' = (x : Method) × P x × (n'.sent ≡ x ∷ n.sent)

  -- One call of the kind is sent if the computation ends well, and one at most if it fails.
  abbrev pub Once : {E A : Type 0} → (Method → Type 0) → Net c → Net c × Result E A → Type 0
  Once P n (n', ok a) = SendsOne P n n'
  Once P n (n', err e) = (n'.sent ≡ n.sent) ⊎ SendsOne P n n'

  pub Once-from :
      {E A : Type 0} (P : Method → Type 0) (n n' : Net c) (x : Net c × Result E A)
      → n'.sent ≡ n.sent
      → Once P n' x
      → Once P n x
  Once-from P n n' (n2, ok a) e (m, p, q) = (m, p, q ∙ ap (◌∷◌ m) e)
  Once-from P n n' (n2, err t) e (inl q) = inl (q ∙ e)
  Once-from P n n' (n2, err t) e (inr (m, p, q)) = inr (m, p, q ∙ ap (◌∷◌ m) e)

  Once-behind :
      {E A : Type 0} (P : Method → Type 0) (n n' : Net c) (x : Net c × Result E A)
      → SendsOne P n n'
      → Keeps n' x
      → Once P n x
  Once-behind P n n' (n2, ok a) (m, p, q) k = (m, p, k ∙ q)
  Once-behind P n n' (n2, err e) (m, p, q) k = inr (m, p, k ∙ q)

  pub Once-ok :
      {E A : Type 0} (P : Method → Type 0) (n n' : Net c) (a : A) (x : Net c × Result E A)
      → Once P n x
      → x ≡ (n', ok a)
      → SendsOne P n n'
  Once-ok P n n' a x o h = subst (Once P n) h o

  -- A quiet part before, or behind, a computation that sends once; and two quiet parts.
  pub before_Once :
      {E A B : Type 0} (P : Method → Type 0) (n : Net c) (x : Net c × Result E A)
      (f : A → Run (Net c) E B)
      → Keeps n x
      → ((a : A) (n' : Net c) → Once P n' (f a n'))
      → Once P n (after x f)
  before_Once P n (n', ok a) f k o = Once-from P n n' (f a n') k (o a n')
  before_Once P n (n', err e) f k o = inl k

  pub behind_Once :
      {E A B : Type 0} (P : Method → Type 0) (n : Net c) (x : Net c × Result E A)
      (f : A → Run (Net c) E B)
      → Once P n x
      → ((a : A) (n' : Net c) → Keeps n' (f a n'))
      → Once P n (after x f)
  behind_Once P n (n', ok a) f o k = Once-behind P n n' (f a n') o (k a n')
  behind_Once P n (n', err e) f o k = o

  pub Keeps-after :
      {E A B : Type 0} (n : Net c) (x : Net c × Result E A) (f : A → Run (Net c) E B)
      → Keeps n x
      → ((a : A) (n' : Net c) → Keeps n' (f a n'))
      → Keeps n (after x f)
  Keeps-after n (n', ok a) f k o = o a n' ∙ k
  Keeps-after n (n', err e) f k o = k

  pub Keeps-wrap :
      {E F A : Type 0} (n : Net c) (g : E → F) (x : Net c × Result E A)
      → Keeps n x
      → Keeps n (wrap g x)
  Keeps-wrap n g (n', ok a) k = k
  Keeps-wrap n g (n', err e) k = k

  pub Once-wrap :
      {E F A : Type 0} (P : Method → Type 0) (n : Net c) (g : E → F) (x : Net c × Result E A)
      → Once P n x
      → Once P n (wrap g x)
  Once-wrap P n g (n', ok a) o = o
  Once-wrap P n g (n', err e) o = o

  pub Keeps-ensure : {E : Type 0} (n : Net c) (b : Bool) (e : E) → Keeps n (ensure b e n)
  Keeps-ensure n true e = refl
  Keeps-ensure n false e = refl

  beside_sent : {E A : Type 0} (n : Net c) (y : c.World × Result E A) → Keeps n (beside c n.sent y)
  beside_sent n (w, r) = refl

  pub Keeps-aside : {E A : Type 0} (n : Net c) (f : Run c.World E A) → Keeps n (aside c f n)
  Keeps-aside n f = beside_sent n (f n.world)

  pub Keeps-wait_mined : (tx : c.Tx) (n : Net c) → Keeps n (wait_mined c tx n)
  unfolding wait_mined
  Keeps-wait_mined tx n = refl

  pub noted-Once :
      (P : Method → Type 0) (n : Net c) (m : Method) (x : c.World × Result RpcError c.Tx)
      → P m
      → Once P n (noted c n.sent m x)
  noted-Once P n m (w, ok tx) p = (m, p, refl)
  noted-Once P n m (w, err e) p = inl refl

  -- A call sent with its error wrapped.
  pub Once-send :
      {F : Type 0} (P : Method → Type 0) (n : Net c) (key : c.PrivateKey) (value : ℕ) (m : Method)
      (g : RpcError → F)
      → P m
      → Once P n (wrap g (send c key value m n))
  unfolding send
  Once-send P n key value m g p =
      Once-wrap P n g (send c key value m n) (noted-Once P n m (c.transact key value m n.world) p)
