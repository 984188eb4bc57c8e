-- ===== src/Go.antt =====
-- Go code with a state: a call ends with a value or with a panic, and what it has written stays
-- written. `W` is the state of all that the code talks to.
use spike_broker.Prelude.{◌≡◌, refl, arith, Text}
use spike_broker.Broker.Message.{GoError}

-- What `recover` returns: an error, or another value by its text.
pub data PanicValue : Type 0 where
  of_error : GoError → PanicValue
  of_value : Text → PanicValue

pub data Exit (A : Type 0) : Type 0 where
  value : A → Exit A
  panic : PanicValue → Exit A

abbrev pub Go : Type 0 → Type 0 → Type 0
Go W A = W → Exit A × W

module _ {W A : Type 0} where
  abbrev pub pure : A → Go W A
  pure a w = (value a, w)

  abbrev pub raise : PanicValue → Go W A
  raise p w = (panic p, w)

-- A call that changes the state and returns nothing of interest.
abbrev pub act : {W : Type 0} → (W → W) → Go W (Unit {0})
act f w = (value tt, f w)

-- What follows a call that has ended with a value.
abbrev pub continue : {W A B : Type 0} → (A → Go W B) → Exit A × W → Exit B × W
continue f (value a, w) = f a w
continue f (panic p, w) = (panic p, w)

infixl 5 ◌>>=◌ ◌>>◌
abbrev pub ◌>>=◌ : {W A B : Type 0} → Go W A → (A → Go W B) → Go W B
◌>>=◌ m f w = continue f (m w)

abbrev pub ◌>>◌ : {W B : Type 0} → Go W (Unit {0}) → Go W B → Go W B
m >> k = m >>= λ _. k

-- What a deferred function does with the end of a call.
abbrev pub settle :
    {W : Type 0} → (PanicValue → Go W (Unit {0})) → Exit (Unit {0}) × W → Exit (Unit {0}) × W
settle handler (value a, w) = (value a, w)
settle handler (panic p, w) = handler p w

-- `defer func() { if r := recover(); r != nil { handler(r) } }()` around a call.
abbrev pub recovering :
    {W : Type 0} → (PanicValue → Go W (Unit {0})) → Go W (Unit {0}) → Go W (Unit {0})
recovering handler m w = settle handler (m w)

continue-eq-value :
    {W A B : Type 0} (f : A → Go W B) (r : Exit A × W) {b : B} {w' : W}
    → continue f r ≡ (value b, w')
    → (a : A) × (v : W) × (r ≡ (value a, v)) × (f a v ≡ (value b, w'))
continue-eq-value f (value a, v) h = (a, v, refl, h)
continue-eq-value f (panic p, v) h = absurd (ground arith)

-- Inversion of a chain that ends with a value.
pub >>=-eq-value :
    {W A B : Type 0} (m : Go W A) (f : A → Go W B) (w : W) {b : B} {w' : W}
    → (m >>= f) w ≡ (value b, w')
    → (a : A) × (v : W) × (m w ≡ (value a, v)) × (f a v ≡ (value b, w'))
>>=-eq-value m f w h = continue-eq-value f (m w) h

-- Chains associate.
pub continue-continue :
    {W A B C : Type 0} (f : A → Go W B) (g : B → Go W C) (r : Exit A × W)
    → continue g (continue f r) ≡ continue (λ a. f a >>= g) r
continue-continue f g (value a, w) = refl
continue-continue f g (panic p, w) = refl

pub continue-eq :
    {W A B : Type 0} (f g : A → Go W B)
    → ((a : A) (w : W) → f a w ≡ g a w)
    → (r : Exit A × W) → continue f r ≡ continue g r
continue-eq f g h (value a, w) = h a w
continue-eq f g h (panic p, w) = refl
