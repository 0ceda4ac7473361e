-- ===== src/Sharedb/Results.antt =====
-- What a function of the package `sharedb` returns besides its value: an error, or a panic.
use jsonot.Base.{
  ℕ, ◌-◌, ◌≡◌, refl, ◌||◌, List, ltb, if◌then◌else◌, ◌⊎◌, inl, inr, Bytes, Option, none, some,
  Result, ok, err, panic, length, take, drop, ℤ, pos, negsuc,
}

-- `StaleSubmitError`
pub record StaleSubmitError : Type 0 where
  pub stale_reason : Bytes
  pub stale_document : Bytes
  pub stale_base : ℤ
  pub stale_current : ℤ
  pub min_supported : ℤ
  pub max_gap : ℤ

-- The package's error values; a `StaleSubmitError`, which wraps `ErrStaleResyncRequired`; and
-- `other` for any other error. Messages are left out, and `%w` keeps the error that it wraps.
pub data ShareError : Type 0 where
  document_not_found document_exists invalid_version duplicate_sequence_conflict : ShareError
  stale_resync_required envelope_not_found duplicate_envelope_id : ShareError
  invalid_envelope invalid_event invalid_session invalid_client_message : ShareError
  stale_submit : StaleSubmitError → ShareError
  other : ShareError

pub data Reply {ℓ} (A : Type ℓ) : Type ℓ where
  done : A → Reply A
  failed : ShareError → Reply A
  crash : Reply A

infixl 5 ◌>>=◌ ◌>>◌
abbrev pub ◌>>=◌ {ℓ κ} : {S : Type ℓ} {T : Type κ} → Reply S → (S → Reply T) → Reply T
crash >>= next = crash
failed x >>= next = failed x
done s >>= next = next s

abbrev pub ◌>>◌ {ℓ} : {T : Type ℓ} → Reply (Unit {0}) → Reply T → Reply T
check >> rest = check >>= λ passed. rest

-- What a call of the package jsonot returns.
abbrev pub of_result {ℓ} : {A : Type ℓ} → Result A → Reply A
of_result (ok a) = done a
of_result (err e) = failed other
of_result panic = crash

-- A foreign call that fails with an error of its own.
abbrev pub or_other {ℓ} : {A : Type ℓ} → Option A → Reply A
or_other none = failed other
or_other (some a) = done a

-- A chain that is done: its first call is done, and the rest goes on from its value.
pub >>=-eq-done {ℓ κ} :
    {S : Type ℓ} {T : Type κ} (r : Reply S) (next : S → Reply T) {b : T}
    → (r >>= next) ≡ done b
    → (s : S) × (r ≡ done s) × (next s ≡ done b)
>>=-eq-done crash next e = cc
>>=-eq-done (failed x) next e = cc
>>=-eq-done (done s) next e = (s, refl, e)

pub Reply-cases {ℓ} :
    {A : Type ℓ} (r : Reply A)
    → ((a : A) × (r ≡ done a)) ⊎ (((e : ShareError) × (r ≡ failed e)) ⊎ (r ≡ crash))
Reply-cases (done a) = inl (a, refl)
Reply-cases (failed e) = inr (inl (e, refl))
Reply-cases crash = inr (inr refl)

-- The slice expression `xs[i:j]`.
unfoldable pub slice {ℓ} : {A : Type ℓ} → List A → ℕ → ℤ → Reply (List A)
slice xs i (pos j) = if ltb j i || ltb (length xs) j then crash else done (take (j - i) (drop i xs))
slice xs i (negsuc j) = crash
