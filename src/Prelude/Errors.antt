-- ===== src/Prelude/Errors.antt =====
-- Errors as the code tells them apart, and the results of fallible code. `not_found` and
-- `already_exists` are the API errors that apierrors.IsNotFound and IsAlreadyExists recognise;
-- `requeue_after` is capierrors.RequeueAfterError; `wrap` is errors.Wrap; `aggregate` is what
-- kerrors.NewAggregate builds; `panic` is a nil dereference; `errorf` is an error with a text only.
use Prim.Native.Nat.{ℕ}
use Prim.Native.String.{String}
use mathlib.Core.Path.{◌≡◌, refl}
use mathlib.Core.Logic.{◌⊎◌, inl, inr}
use mathlib.Core.Bool.{Bool, true, false}
use mathlib.Core.Option.{Option, none, some}
use mathlib.Core.List.{List, [], ◌∷◌}

mutual
  pub data Error : Type 0 where
    not_found already_exists panic : Error
    requeue_after : ℕ → Error
    errorf : String → Error
    wrap : String → Error → Error
    aggregate : ErrorList → Error

  pub data ErrorList : Type 0 where
    one : Error → ErrorList
    more : Error → ErrorList → ErrorList

pub data Result {ℓ} (A : Type ℓ) : Type ℓ where
  ok : A → Result A
  err : Error → Result A

infixl 5 ◌>>=◌
abbrev pub ◌>>=◌ {ℓ κ} : {A : Type ℓ} {B : Type κ} → Result A → (A → Result B) → Result B
err failure >>= next = err failure
ok value >>= next = next value

-- Inversion of a successful bind.
pub >>=-eq-ok {ℓ κ} :
    {A : Type ℓ} {B : Type κ} (first : Result A) (next : A → Result B) {b : B}
    → (first >>= next) ≡ ok b
    → (a : A) × (first ≡ ok a) × (next a ≡ ok b)
>>=-eq-ok (err failure) next h = cc
>>=-eq-ok (ok value) next h = (value, refl, h)

-- To split on a computed option and keep the equation.
pub Option-cases : {A : Type 0} → (o : Option A) → (o ≡ none) ⊎ ((a : A) × (o ≡ some a))
Option-cases none = inl refl
Option-cases (some a) = inr (a, refl)

-- To split on a computed result and keep the equation.
pub Result-cases :
    {A : Type 0} → (r : Result A) → ((e : Error) × (r ≡ err e)) ⊎ ((a : A) × (r ≡ ok a))
Result-cases (ok a) = inr (a, refl)
Result-cases (err e) = inl (e, refl)

pub ok_injective {ℓ} : {A : Type ℓ} (a b : A) → Result.ok a ≡ ok b → a ≡ b
ok_injective a b h = cc

abbrev collect : Error → List Error → ErrorList
collect e [] = one e
collect e (x ∷ xs) = more e (collect x xs)

-- kerrors.NewAggregate: no error for an empty list.
abbrev pub new_aggregate : List Error → Option Error
new_aggregate [] = none
new_aggregate (e ∷ es) = some (aggregate (collect e es))

abbrev pub is_not_found : Error → Bool
is_not_found not_found = true
is_not_found _ = false

abbrev pub is_already_exists : Error → Bool
is_already_exists already_exists = true
is_already_exists _ = false

-- `errors.Cause(err).(capierrors.HasRequeueAfterError)`: the time of a requeue error under any
-- number of wraps.
abbrev pub requeue_cause : Error → Option ℕ
requeue_cause (requeue_after t) = some t
requeue_cause (wrap s e) = requeue_cause e
requeue_cause _ = none
