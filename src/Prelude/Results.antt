-- ===== src/Prelude/Results.antt =====
-- Results of code that can throw, read out of bounds or loop.
use mathlib.Core.Path.{◌≡◌, subst}
use mathlib.Core.Option.{Option, none, some}
use mathlib.Core.List.{List}
use Prim.Native.Nat.{ℕ, ◌<◌}
use mathlib.Core.Bool.{Bool, true, false}
use connectdisks.Prelude.Tests.{ltb, if◌then◌else◌, lt→ltb}
use connectdisks.Prelude.Lists.{length, set, get_elem?, get_or, get_elem?-eq-get_or}

-- `invalid_argument`, `out_of_range` and `system_error` are the exceptions of the standard library
-- that the code throws. `undefined` is undefined behaviour, such as an unchecked index out of bounds, `terminate` is
-- a call of `std::terminate`, and `stuck` is a loop of the model that ran out of fuel.
pub data Failure : Type 0 where
  invalid_argument out_of_range system_error undefined terminate stuck : Failure

pub data Result {ℓ} (A : Type ℓ) : Type ℓ where
  ok : A → Result A
  err : Failure → Result A

infixl 5 ◌>>=◌
abbrev pub ◌>>=◌ {ℓ κ} : {A : Type ℓ} {B : Type κ} → Result A → (A → Result B) → Result B
ok a >>= f = f a
err e >>= f = err e

abbrev or_undefined {ℓ} : {A : Type ℓ} → Option A → Result A
or_undefined (some a) = ok a
or_undefined none = err undefined

-- `v[i]` of a vector: no check, undefined beyond its end.
unfoldable pub index {ℓ} : {A : Type ℓ} → List A → ℕ → Result A
index xs i = or_undefined (get_elem? xs i)

pub index_lem {ℓ} :
    {A : Type ℓ} (xs : List A) (i : ℕ) (d : A) → i < length xs → index xs i ≡ ok (get_or xs i d)
unfolding index
index_lem xs i d h = rw (get_elem?-eq-get_or xs i d h)

-- `v[i] = x` of a vector: no check, undefined beyond its end.
unfoldable pub write {ℓ} : {A : Type ℓ} → List A → ℕ → A → Result (List A)
write xs i x = if ltb i (length xs) then ok (set xs i x) else err undefined

pub write_lem {ℓ} :
    {A : Type ℓ} (xs : List A) (i : ℕ) (x : A) → i < length xs → write xs i x ≡ ok (set xs i x)
unfolding write
write_lem xs i x h = rw (lt→ltb i (length xs) h)

pub ok_inj {ℓ} : {A : Type ℓ} {a b : A} → ok a ≡ ok b → a ≡ b
ok_inj e = cc

-- What holds of a result, if there is one.
abbrev pub Returns {ℓ κ} : {A : Type ℓ} → (A → Type κ) → Result A → Type κ
Returns P (ok a) = P a
Returns P (err e) = Unit

pub Returns-bind {ℓ κ λ'} :
    {A : Type ℓ} {B : Type κ} (P : B → Type λ') (m : Result A) (f : A → Result B)
    → ((a : A) → Returns P (f a))
    → Returns P (m >>= f)
Returns-bind P (ok a) f h = h a
Returns-bind P (err e) f h = tt

pub Returns-then {ℓ κ} :
    {A : Type ℓ} {B : Type ℓ} (Q : A → Type κ) (P : B → Type κ) (m : Result A) (f : A → Result B)
    → Returns Q m
    → ((a : A) → Q a → Returns P (f a))
    → Returns P (m >>= f)
Returns-then Q P (ok a) f q h = h a q
Returns-then Q P (err e) f q h = tt

pub Returns-if {ℓ κ} :
    {A : Type ℓ} (P : A → Type κ) (b : Bool) (m n : Result A)
    → Returns P m
    → Returns P n
    → Returns P (if b then m else n)
Returns-if P true m n hm hn = hm
Returns-if P false m n hm hn = hn

pub Returns-map {ℓ κ λ'} :
    {A : Type ℓ} {P : A → Type κ} {Q : A → Type λ'} (m : Result A)
    → ((a : A) → P a → Q a)
    → Returns P m
    → Returns Q m
Returns-map (ok a) f h = f a h
Returns-map (err e) f h = tt

pub Returns-ok {ℓ κ} :
    {A : Type ℓ} (P : A → Type κ) {m : Result A} {a : A} → m ≡ ok a → Returns P m → P a
Returns-ok P e h = subst (Returns P) e h
