-- ===== src/Admin/Inversion.antt =====
-- What an operator's call that succeeds has done.
use syrotp.Prelude.{◌≡◌, refl, ap, Bool, true, false, Option, none, some, arith}
use syrotp.Admin.{AdminResult, AdminError, done, failed, ◌>>=◌, check, or_fail}

pub check-eq-done : (t : Bool) (e : AdminError) {u : Unit {0}} → check t e ≡ done u → t ≡ true
check-eq-done true e h = refl
check-eq-done false e h = cc

pub >>=-eq-done {ℓ κ} :
    {A : Type ℓ} {B : Type κ} (m : AdminResult A) (f : A → AdminResult B) {b : B}
    → (m >>= f) ≡ done b
    → (a : A) × (m ≡ done a) × (f a ≡ done b)
>>=-eq-done (failed e) f h = cc
>>=-eq-done (done a) f h = (a, refl, h)

pub or_fail-eq-done {ℓ} :
    {A : Type ℓ} (o : Option A) (e : AdminError) {a : A} → or_fail o e ≡ done a → o ≡ some a
or_fail-eq-done none e h = cc
or_fail-eq-done (some x) e h = ground arith

value_or {ℓ} : {A : Type ℓ} → A → AdminResult A → A
value_or d (done a) = a
value_or d (failed e) = d

pub done-injective {ℓ} : {A : Type ℓ} {a b : A} → done a ≡ done b → a ≡ b
unfolding value_or
done-injective {a = a} e = ap (value_or a) e
