-- ===== src/Common/Outcome.antt =====
-- The outcome of C++ code: a value, an exception, or undefined behaviour.
use mathlib.Core.Path.{◌≡◌, refl}
use mathlib.Core.Logic.{◌≢◌}
use mathlib.Core.Bool.{Bool, true, false}
use beemo.Common.Tests.{if◌then◌else◌}

-- The exceptions that the sources can raise: the standard library's, `transport_err`, and
-- `std::exception` itself.
pub data Exception : Type 0 where
  invalid_argument out_of_range bad_function_call transport_err std_exception : Exception

-- `undefined` is undefined behaviour of C++: an iterator that leaves its view, or an inverted range.
-- `unfinished` says that the fuel of a loop ran out.
pub data Result {ℓ} (A : Type ℓ) : Type ℓ where
  ok : A → Result A
  throw : Exception → Result A
  undefined unfinished : Result A

module _ {ℓ κ} {A : Type ℓ} {B : Type κ} where
  infixl 5 ◌>>=◌
  abbrev pub ◌>>=◌ : Result A → (A → Result B) → Result B
  ok a >>= f = f a
  throw e >>= f = throw e
  undefined >>= f = undefined
  unfinished >>= f = unfinished

-- The code returns: no exception leaves it, and it does nothing undefined.
abbrev pub Returns {ℓ} : {A : Type ℓ} → Result A → Type ℓ
Returns {A} r = (a : A) × (r ≡ ok a)

-- What holds of the value, if there is one.
abbrev pub Ensures {ℓ κ} : {A : Type ℓ} → (A → Type κ) → Result A → Type κ
Ensures P (ok a) = P a
Ensures P (throw e) = Unit
Ensures P undefined = Unit
Ensures P unfinished = Unit

-- It may throw, but does nothing undefined.
abbrev pub Defined {ℓ} : {A : Type ℓ} → Result A → Type ℓ
Defined r = r ≢ undefined

pub Defined-ok {ℓ} : {A : Type ℓ} {r : Result A} {a : A} → r ≡ ok a → Defined r
Defined-ok h e = cc

pub ok-Defined {ℓ} : {A : Type ℓ} (a : A) → Defined (ok a)
ok-Defined a e = cc

pub throw-Defined {ℓ} : {A : Type ℓ} (e : Exception) → Defined {A = A} (throw e)
throw-Defined x e = cc

pub Defined-bind {ℓ κ} :
    {A : Type ℓ} {B : Type κ} (m : Result A) (f : A → Result B)
    → Defined m
    → ((a : A) → m ≡ ok a → Defined (f a))
    → Defined (m >>= f)
Defined-bind (ok a) f h k e = k a refl e
Defined-bind (throw x) f h k e = cc
Defined-bind undefined f h k e = h refl
Defined-bind unfinished f h k e = cc

pub Defined-if {ℓ} :
    {A : Type ℓ} (b : Bool) (r s : Result A)
    → (b ≡ true → Defined r)
    → (b ≡ false → Defined s)
    → Defined (if b then r else s)
Defined-if true r s h k = h refl
Defined-if false r s h k = k refl

-- What a chain that returns has gone through.
pub >>=-eq-ok {ℓ κ} :
    {A : Type ℓ} {B : Type κ} (r : Result A) (k : A → Result B) {y : B}
    → (r >>= k) ≡ ok y
    → (x : A) × (r ≡ ok x) × (k x ≡ ok y)
>>=-eq-ok unfinished k e = cc
>>=-eq-ok undefined k e = cc
>>=-eq-ok (throw x) k e = cc
>>=-eq-ok (ok x) k e = (x, refl, e)

-- The fuel was enough.
abbrev pub Ends {ℓ} : {A : Type ℓ} → Result A → Type ℓ
Ends r = r ≢ unfinished

pub ok-Ends {ℓ} : {A : Type ℓ} (a : A) → Ends (ok a)
ok-Ends a e = cc

pub Ends-bind {ℓ κ} :
    {A : Type ℓ} {B : Type κ} (m : Result A) (f : A → Result B)
    → Ends m
    → ((a : A) → m ≡ ok a → Ends (f a))
    → Ends (m >>= f)
Ends-bind (ok a) f h k e = k a refl e
Ends-bind (throw x) f h k e = cc
Ends-bind undefined f h k e = cc
Ends-bind unfinished f h k e = h refl

pub Ends-if {ℓ} :
    {A : Type ℓ} (b : Bool) (r s : Result A) → Ends r → Ends s → Ends (if b then r else s)
Ends-if true r s h k = h
Ends-if false r s h k = k
