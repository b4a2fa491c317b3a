-- ===== src/Common/Result.antt =====
-- A call that returns a value or throws.
use mathlib.Core.Path.{◌≡◌, refl}
use mathlib.Core.Logic.{◌⊎◌, inl, inr}
use mathlib.Core.Bool.{Bool, true, false}
use mathlib.Core.Option.{Option, none, some}
use solana_payment_ops.Common.Tests.{if◌then◌else◌}

pub data Result {ℓ} (E : Type 0) (A : Type ℓ) : Type ℓ where
  ok : A → Result E A
  err : E → Result E A

infixl 5 ◌>>=◌
abbrev pub ◌>>=◌ {ℓ κ} :
    {E : Type 0} {A : Type ℓ} {B : Type κ} → Result E A → (A → Result E B) → Result E B
err thrown >>= next = err thrown
ok value >>= next = next value

-- `if (c) throw e;`
abbrev pub throw_if : {E : Type 0} → Bool → E → Result E (Unit {0})
throw_if true e = err e
throw_if false e = ok tt

-- `if (o === undefined) throw e;`
abbrev pub or_throw {ℓ} : {E : Type 0} {A : Type ℓ} → Option A → E → Result E A
or_throw none e = err e
or_throw (some a) e = ok a

-- One call after another, the first for its throw alone.
infixl 5 ◌>>◌
abbrev pub ◌>>◌ {ℓ} : {E : Type 0} {B : Type ℓ} → Result E (Unit {0}) → Result E B → Result E B
check >> rest = check >>= λ _. rest

-- What a call that returns says of its first part.
pub >>=-eq-ok {ℓ κ} :
    {E : Type 0} {A : Type ℓ} {B : Type κ} (call : Result E A) (next : A → Result E B) {out : B}
    → (call >>= next) ≡ ok out
    → (value : A) × (call ≡ ok value) × (next value ≡ ok out)
>>=-eq-ok (err thrown) next returned = cc
>>=-eq-ok (ok value) next returned = (value, refl, returned)

-- A test that must have passed.
pub if-eq-ok {ℓ} :
    {E : Type 0} {A : Type ℓ} (c : Bool) (m : Result E A) (e : E) {a : A}
    → (if c then m else err e) ≡ ok a
    → (c ≡ true) × (m ≡ ok a)
if-eq-ok true m e h = (refl, h)
if-eq-ok false m e h = cc

-- A test that must have failed.
pub if-else-eq-ok {ℓ} :
    {E : Type 0} {A : Type ℓ} (c : Bool) (e : E) (m : Result E A) {a : A}
    → (if c then err e else m) ≡ ok a
    → (c ≡ false) × (m ≡ ok a)
if-else-eq-ok true e m h = cc h
if-else-eq-ok false e m h = (refl, h)

-- What follows a test follows the branch that returns.
pub if-bind {ℓ κ} :
    {E : Type 0} {A : Type ℓ} {B : Type κ} (c : Bool) (a : A) (e : E) (next : A → Result E B)
    → ((if c then ok a else err e) >>= next) ≡ (if c then next a else err e)
if-bind true a e next = refl
if-bind false a e next = refl

pub ok-injective {ℓ} :
    {E : Type 0} {A : Type ℓ} {a b : A} → ◌≡◌ {A = Result E A} (ok a) (ok b) → a ≡ b
ok-injective h = cc h

-- A throw that did not happen, and what came next.
pub throw_if-eq-ok {ℓ} :
    {E : Type 0} {A : Type ℓ} (c : Bool) (e : E) (next : Unit {0} → Result E A) {a : A}
    → (throw_if c e >>= next) ≡ ok a
    → (c ≡ false) × (next tt ≡ ok a)
throw_if-eq-ok true e next h = cc h
throw_if-eq-ok false e next h = (refl, h)

-- A call that throws nothing but the one error.
abbrev pub ThrowsOnly {ℓ} : {E : Type 0} {A : Type ℓ} → E → Result E A → Type ℓ
ThrowsOnly {E = E} e call = (thrown : E) → call ≡ err thrown → thrown ≡ e

pub ok-ThrowsOnly {ℓ} : {E : Type 0} {A : Type ℓ} (e : E) (a : A) → ThrowsOnly e (ok a)
ok-ThrowsOnly e a thrown h = cc h

pub err-ThrowsOnly {ℓ} : {E : Type 0} (A : Type ℓ) (e : E) → ThrowsOnly {A = A} e (err e)
err-ThrowsOnly A e thrown h = cc h

pub throw_if-ThrowsOnly : {E : Type 0} (e : E) (c : Bool) → ThrowsOnly e (throw_if c e)
throw_if-ThrowsOnly e true thrown h = cc h
throw_if-ThrowsOnly e false thrown h = cc h

pub if-ThrowsOnly {ℓ} :
    {E : Type 0} {A : Type ℓ} (e : E) (c : Bool) (a : A) → ThrowsOnly e (if c then ok a else err e)
if-ThrowsOnly e true a thrown h = cc h
if-ThrowsOnly e false a thrown h = cc h

pub >>=-ThrowsOnly {ℓ κ} :
    {E : Type 0} {A : Type ℓ} {B : Type κ} (e : E) (call : Result E A) (next : A → Result E B)
    → ThrowsOnly e call
    → ((a : A) → ThrowsOnly e (next a))
    → ThrowsOnly e (call >>= next)
>>=-ThrowsOnly e (ok a) next h k thrown t = k a thrown t
>>=-ThrowsOnly e (err first) next h k thrown t = cc (h first refl)

pub Result-cases {ℓ} :
    {E : Type 0} {A : Type ℓ} (m : Result E A) → ((e : E) × (m ≡ err e)) ⊎ ((a : A) × (m ≡ ok a))
Result-cases (err e) = inl (e, refl)
Result-cases (ok a) = inr (a, refl)

-- A test that has thrown.
pub if-eq-err {ℓ} :
    {E : Type 0} {A : Type ℓ} (c : Bool) (e thrown : E) (a : A)
    → (if c then err e else ok a) ≡ err thrown
    → (c ≡ true) × (thrown ≡ e)
if-eq-err true e thrown a h = (refl, cc h)
if-eq-err false e thrown a h = cc h

pub err-injective {ℓ} :
    {E : Type 0} {A : Type ℓ} {a b : E} → ◌≡◌ {A = Result E A} (err a) (err b) → a ≡ b
err-injective h = cc h

pub throw_if-eq-false :
    {E : Type 0} (c : Bool) (e : E) {u : Unit {0}} → throw_if c e ≡ ok u → c ≡ false
throw_if-eq-false true e h = cc h
throw_if-eq-false false e h = refl
