-- ===== src/Base/Results.antt =====
-- What a Go function returns besides its value: an error, or a panic.
use mathlib.Core.Path.{◌≡◌, refl}
use mathlib.Core.Option.{Option, none, some}
use mathlib.Core.Bool.{Bool, true, false}

-- `ErrCode` of error.go.
pub data ErrCode : Type 0 where
  no_error invalid_parameter invalid_operation invalid_path_format : ErrCode
  invalid_path_element bad_path unexpected_error conflict_sub_type : ErrCode

-- An `error`: one of this package with its code, or any other. Messages are left out; `%w` keeps
-- the code.
pub data Error : Type 0 where
  coded : ErrCode → Error
  plain : Error

pub data Result {ℓ} (A : Type ℓ) : Type ℓ where
  ok : A → Result A
  err : Error → Result A
  panic : Result A

infixl 5 ◌>>=◌ ◌>>◌
abbrev pub ◌>>=◌ {ℓ κ} : {S : Type ℓ} {T : Type κ} → Result S → (S → Result T) → Result T
panic >>= next = panic
err x >>= next = err x
ok s >>= next = next s

abbrev pub ◌>>◌ {ℓ} : {T : Type ℓ} → Result (Unit {0}) → Result T → Result T
check >> rest = check >>= λ unit. rest

-- `NewError(code)` as a result.
abbrev pub fail {ℓ} : {A : Type ℓ} → ErrCode → Result A
fail c = err (coded c)

-- `MustGet` of a `mo.Option`, and of a `mo.Result`.
abbrev pub must {ℓ} : {A : Type ℓ} → Option A → Result A
must none = panic
must (some a) = ok a

abbrev pub must_get {ℓ} : {A : Type ℓ} → Result A → Result A
must_get (ok a) = ok a
must_get (err e) = panic
must_get panic = panic

-- A foreign call that fails with an error of its own.
abbrev pub foreign {ℓ} : {A : Type ℓ} → Option A → Result A
foreign none = err plain
foreign (some a) = ok a

abbrev pub is_ok {ℓ} : {A : Type ℓ} → Result A → Bool
is_ok (ok a) = true
is_ok (err e) = false
is_ok panic = false

-- A chain that returns a value: its first call has returned one too, and the rest goes on from it.
pub >>=-eq-ok {ℓ κ} :
    {S : Type ℓ} {T : Type κ} (r : Result S) (next : S → Result T) {b : T}
    → (r >>= next) ≡ ok b
    → (s : S) × (r ≡ ok s) × (next s ≡ ok b)
>>=-eq-ok panic next e = cc
>>=-eq-ok (err x) next e = cc
>>=-eq-ok (ok s) next e = (s, refl, e)
