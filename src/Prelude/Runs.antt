-- ===== src/Prelude/Runs.antt =====
-- Computations that change a state and may fail; the state comes back after a failure too.
use mathlib.Core.Path.{◌≡◌, refl}
use mathlib.Core.Logic.{◌⊎◌, inl, inr}
use mathlib.Core.Bool.{Bool, true, false}
use cipher_sign.Prelude.Results.{Result, ok, err}

abbrev pub Run : Type 0 → Type 0 → Type 0 → Type 0
Run S E A = S → S × Result E A

abbrev pub after : {S E A B : Type 0} → S × Result E A → (A → Run S E B) → S × Result E B
after (s, err e) f = (s, err e)
after (s, ok a) f = f a s

infixl 5 ◌>>=◌ ◌>>◌
abbrev pub ◌>>=◌ : {S E A B : Type 0} → Run S E A → (A → Run S E B) → Run S E B
(m >>= f) s = after (m s) f

abbrev pub ◌>>◌ : {S E B : Type 0} → Run S E (Unit {0}) → Run S E B → Run S E B
m >> k = m >>= λ _. k

abbrev pub pure : {S E A : Type 0} → A → Run S E A
pure a s = (s, ok a)

abbrev pub fail : {S E A : Type 0} → E → Run S E A
fail e s = (s, err e)

-- A result that needs no change of the state.
abbrev pub lift : {S E A : Type 0} → Result E A → Run S E A
lift r s = (s, r)

-- What the state shows.
abbrev pub view : {S E A : Type 0} → (S → Result E A) → Run S E A
view f s = (s, f s)

-- The error wrapped, or replaced.
abbrev pub wrap : {S E F A : Type 0} → (E → F) → S × Result E A → S × Result F A
wrap f (s, ok a) = (s, ok a)
wrap f (s, err e) = (s, err (f e))

abbrev pub on_error : {S E F A : Type 0} → Run S E A → (E → F) → Run S F A
on_error m f s = wrap f (m s)

-- A sequence that ends well has parts that end well.
pub after-ok :
    {S E A B : Type 0} (x : S × Result E A) (f : A → Run S E B) (s' : S) (b : B)
    → after x f ≡ (s', ok b)
    → (s : S) × (a : A) × (x ≡ (s, ok a)) × (f a s ≡ (s', ok b))
after-ok (s, err e) f s' b h = absurd (cc)
after-ok (s, ok a) f s' b h = (s, a, refl, h)

-- The same, handed on.
pub from_ok :
    {S E A B T : Type 0} (x : S × Result E A) (f : A → Run S E B) (s' : S) (b : B)
    → after x f ≡ (s', ok b)
    → ((s : S) (a : A) → x ≡ (s, ok a) → f a s ≡ (s', ok b) → T)
    → T
from_ok (s, err e) f s' b h k = absurd (cc)
from_ok (s, ok a) f s' b h k = k s a refl h

-- The same where the state is only read.
pub from_lift_ok :
    {S E A B T : Type 0} (s : S) (r : Result E A) (f : A → Run S E B) (s' : S) (b : B)
    → after (s, r) f ≡ (s', ok b)
    → ((a : A) → r ≡ ok a → f a s ≡ (s', ok b) → T)
    → T
from_lift_ok s (err e) f s' b h k = absurd (cc)
from_lift_ok s (ok a) f s' b h k = k a refl h

-- What holds of the error of a read and of all that follows its value holds of the sequence.
pub over_lift {ℓ} :
    {S E A B : Type 0} (P : S × Result E B → Type ℓ) (s : S) (r : Result E A) (f : A → Run S E B)
    → ((e : E) → P (s, err e))
    → ((a : A) → r ≡ ok a → P (f a s))
    → P (after (s, r) f)
over_lift P s (err e) f fails goes = fails e
over_lift P s (ok a) f fails goes = goes a refl

pub Run-cases :
    {S E A : Type 0} (x : S × Result E A)
    → ((s : S) × (a : A) × (x ≡ (s, ok a))) ⊎ ((s : S) × (e : E) × (x ≡ (s, err e)))
Run-cases (s, ok a) = inl (s, a, refl)
Run-cases (s, err e) = inr (s, e, refl)

abbrev pub ensure : {S E : Type 0} → Bool → E → Run S E (Unit {0})
ensure true e s = (s, ok tt)
ensure false e s = (s, err e)
