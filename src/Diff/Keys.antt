-- ===== src/Diff/Keys.antt =====
-- diff.go: the keys that `diffObject` visits are sorted, each once, and are those of the two maps.
use jsonot.Base.{
  ◌≡◌, refl, ◌∙◌, Bool, true, false, ◌&&◌, ◌||◌, List, [], ◌∷◌, arith, is_present, Bytes, str_eq,
  str_eq→eq, Bool-cases, inl, inr,
}
use jsonot.Value.Laws.{find_field}
use jsonot.Diff.{bytes_lt, add_key, add_keys}

-- `k` is before all of `js`.
abbrev pub before_all : Bytes → List Bytes → Bool
before_all k [] = true
before_all k (j ∷ js) = bytes_lt k j && before_all k js

abbrev pub is_sorted : List Bytes → Bool
is_sorted [] = true
is_sorted (k ∷ ks) = before_all k ks && is_sorted ks

abbrev pub is_in : Bytes → List Bytes → Bool
is_in k [] = false
is_in k (j ∷ js) = str_eq j k || is_in k js

bytes_lt_trans : (a b c : Bytes) → bytes_lt a b ≡ true → bytes_lt b c ≡ true → bytes_lt a c ≡ true
unfolding bytes_lt
bytes_lt_trans a [] c h k = absurd cc
bytes_lt_trans a (y ∷ ys) [] h k = absurd cc
bytes_lt_trans [] (y ∷ ys) (z ∷ zs) h k = refl
bytes_lt_trans (x ∷ xs) (y ∷ ys) (z ∷ zs) h k = ground (arith, bytes_lt_trans xs ys zs)

bytes_lt_total : (a b : Bytes) → str_eq a b ≡ false → bytes_lt a b ≡ false → bytes_lt b a ≡ true
unfolding bytes_lt str_eq
bytes_lt_total [] [] h k = absurd cc
bytes_lt_total [] (y ∷ ys) h k = absurd cc
bytes_lt_total (x ∷ xs) [] h k = refl
bytes_lt_total (x ∷ xs) (y ∷ ys) h k = ground (arith, bytes_lt_total xs ys)

bytes_lt_differ : (a b : Bytes) → bytes_lt a b ≡ true → str_eq b a ≡ false
unfolding bytes_lt str_eq
bytes_lt_differ a [] h = absurd cc
bytes_lt_differ [] (y ∷ ys) h = refl
bytes_lt_differ (x ∷ xs) (y ∷ ys) h = ground (arith, bytes_lt_differ xs ys)

before_all_trans :
    (k j : Bytes) (js : List Bytes)
    → bytes_lt k j ≡ true
    → before_all j js ≡ true
    → before_all k js ≡ true
before_all_trans k j [] h w = refl
before_all_trans k j (i ∷ js) h w =
    let first : bytes_lt j i ≡ true = ground arith in
    let rest : before_all j js ≡ true = ground arith in
    rw (bytes_lt_trans k j i h first, before_all_trans k j js h rest) refl

before_all-add_key :
    (x k : Bytes) (js : List Bytes)
    → bytes_lt x k ≡ true
    → before_all x js ≡ true
    → before_all x (add_key k js) ≡ true
unfolding add_key
before_all-add_key x k [] h w = rw (add_key, h) refl
before_all-add_key x k (j ∷ js) h w =
    let first : bytes_lt x j ≡ true = ground arith in
    let rest : before_all x js ≡ true = ground arith in
    elim (Bool-cases (str_eq k j)) [
      | inl same ↦ rw (add_key, same) w
      | inr differ ↦ elim (Bool-cases (bytes_lt k j)) [
        | inl here ↦ rw (add_key, differ) (rw here (rw (h, first, rest) refl))
        | inr there ↦
            rw (add_key, differ) (rw there (rw (first, before_all-add_key x k js h rest) refl))
      ]
    ]

is_sorted-add_key :
    (k : Bytes) (js : List Bytes) → is_sorted js ≡ true → is_sorted (add_key k js) ≡ true
unfolding add_key
is_sorted-add_key k [] h = refl
is_sorted-add_key k (j ∷ js) h =
    let first : before_all j js ≡ true = ground arith in
    let rest : is_sorted js ≡ true = ground arith in
    elim (Bool-cases (str_eq k j)) [
      | inl same ↦ rw (add_key, same) h
      | inr differ ↦ elim (Bool-cases (bytes_lt k j)) [
        | inl here ↦
            rw (add_key, differ)
              (rw here (rw (here, before_all_trans k j js here first, first, rest) refl))
        | inr there ↦
            rw (add_key, differ)
              (rw there (
                rw
                  (
                    before_all-add_key j k js (bytes_lt_total k j differ there) first,
                    is_sorted-add_key k js rest,
                  )
                  refl))
      ]
    ]

or_twice : (a b : Bool) → a || b ≡ a || (a || b)
or_twice a b = ground arith

or_true : (a b c : Bool) → a || (b || c) ≡ b || (a || c)
or_true a b c = ground arith

is_in-add_key : (i k : Bytes) (js : List Bytes) → is_in i (add_key k js) ≡ str_eq k i || is_in i js
unfolding add_key
is_in-add_key i k [] = refl
is_in-add_key i k (j ∷ js) = elim (Bool-cases (str_eq k j)) [
  | inl same ↦
      let e : k ≡ j = str_eq→eq k j same in
      rw (add_key, same) (rw e (or_twice (str_eq j i) (is_in i js)))
  | inr differ ↦ elim (Bool-cases (bytes_lt k j)) [
    | inl here ↦ rw (add_key, differ) (rw here refl)
    | inr there ↦
        rw (add_key, differ)
          (rw there (rw (is_in-add_key i k js) (or_true (str_eq j i) (str_eq k i) (is_in i js))))
  ]
]

-- The keys of a map are in the list.
pub is_in-add_keys :
    {A : Type 0} (i : Bytes) (m : List (Bytes × A)) (js : List Bytes)
    → is_in i (add_keys m js) ≡ is_present (find_field i m) || is_in i js
unfolding add_keys
is_in-add_keys i [] js = refl
is_in-add_keys i ((k, v) ∷ m) js =
    is_in-add_key i k (add_keys m js) ∙ (elim (Bool-cases (str_eq k i)) [
      | inl here ↦ rw here refl
      | inr there ↦ rw there (is_in-add_keys i m js)
    ])

pub is_sorted-add_keys :
    {A : Type 0} (m : List (Bytes × A)) (js : List Bytes)
    → is_sorted js ≡ true
    → is_sorted (add_keys m js) ≡ true
unfolding add_keys
is_sorted-add_keys [] js h = h
is_sorted-add_keys ((k, v) ∷ m) js h =
    is_sorted-add_key k (add_keys m js) (is_sorted-add_keys m js h)

-- A key before all of a list is not in it.
pub is_in_of_before_all :
    (k : Bytes) (js : List Bytes) → before_all k js ≡ true → is_in k js ≡ false
is_in_of_before_all k [] h = refl
is_in_of_before_all k (j ∷ js) h =
    let first : bytes_lt k j ≡ true = ground arith in
    let rest : before_all k js ≡ true = ground arith in
    rw (bytes_lt_differ k j first, is_in_of_before_all k js rest) refl

-- A string before another is not it.
pub bytes_lt_apart : (a b : Bytes) → bytes_lt a b ≡ true → str_eq a b ≡ false
unfolding bytes_lt str_eq
bytes_lt_apart a [] h = absurd cc
bytes_lt_apart [] (y ∷ ys) h = refl
bytes_lt_apart (x ∷ xs) (y ∷ ys) h = ground (arith, bytes_lt_apart xs ys)
