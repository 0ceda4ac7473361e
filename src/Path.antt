-- ===== src/Path.antt =====
-- path.go: paths into a document. A method that mutates its receiver returns the new path.
pub mod Laws
use jsonot.Base.{
  ℕ, zero, suc, ◌+◌, ◌-◌, ◌*◌, Bytes, str_eq, ℤ, pos, negsuc, neg, add_int, sub_int, ltb_ℤ, leb_ℤ,
  eq_ℤ, Bool, true, false, not, ◌&&◌, ◌||◌, ltb, leb, ◌==◌, if◌then◌else◌, Option, none, some, List,
  [], ◌∷◌, map, length, get_elem?, set, take, drop, is_nil, Result, ok, panic, ◌>>=◌, must,
}
use jsonot.Value.{Values, Any, of_str, of_float}

-- `PathElement`; the key is empty in an element that is an index.
pub record PathElement : Type 0 where
  pub key : Bytes
  pub index : ℤ

abbrev pub DocPath : Type 0
DocPath = List PathElement

-- `PathElement.Equals`
unfoldable pub element_equals : PathElement → PathElement → Bool
unfolding str_eq
element_equals a b =
    if not (is_nil a.key) || not (is_nil b.key) then str_eq a.key b.key else eq_ℤ a.index b.index

-- Go's `==` on the struct.
unfoldable pub same_element : PathElement → PathElement → Bool
unfolding str_eq
same_element a b = str_eq a.key b.key && eq_ℤ a.index b.index

abbrev pub element_from_key : Bytes → PathElement
element_from_key k = record { key = k; index = pos 0 }

abbrev pub element_from_index : ℤ → PathElement
element_from_index i = record { key = []; index = i }

unfoldable pub path_from_indexes : List ℤ → DocPath
path_from_indexes is = map element_from_index is

unfoldable pub path_from_keys : List Bytes → DocPath
path_from_keys ks = map element_from_key ks

-- `Path.Equal`
unfoldable pub equal : DocPath → DocPath → Bool
equal [] [] = true
equal [] (b ∷ q) = false
equal (a ∷ p) [] = false
equal (a ∷ p) (b ∷ q) = same_element a b && equal p q

-- `strconv.Atoi` of the standard library: an optional sign and digits, within 64 bits.
digits_value : ℕ → Bytes → Option ℕ
digits_value n [] = some n
digits_value n (c ∷ s) =
    let rest = digits_value (n * 10 + (c - 48)) s in if leb 48 c && leb c 57 then rest else none

abbrev in_int : ℤ → Option ℤ
in_int (pos n) = if ltb n 9223372036854775808 then some (pos n) else none
in_int (negsuc n) = if ltb n 9223372036854775808 then some (negsuc n) else none

unsigned : Bytes → Option ℕ
unfolding digits_value
unsigned [] = none
unsigned (c ∷ s) = digits_value 0 (c ∷ s)

unfoldable pub atoi : Bytes → Option ℤ
unfolding unsigned
atoi [] = none
atoi (c ∷ s) =
    if c == b'+'
    then elim (unsigned s) [ none ↦ none | some n ↦ in_int (pos n) ]
    else if c == b'-'
    then elim (unsigned s) [ none ↦ none | some n ↦ in_int (neg (pos n)) ]
    else elim (unsigned (c ∷ s)) [ none ↦ none | some n ↦ in_int (pos n) ]

-- `FirstKeyPath`
unfoldable pub first_key_path : DocPath → Option Bytes
first_key_path [] = none
first_key_path (a ∷ p) = some a.key

-- The index that `FirstIndexPath` takes from an element.
unfoldable pub element_index : PathElement → ℤ
unfolding atoi
element_index a =
    if ltb_ℤ (pos 0) a.index
    then a.index
    else if not (is_nil a.key)
    then elim (atoi a.key) [ none ↦ pos 0 | some i ↦ i ]
    else pos 0

-- `FirstIndexPath`
unfoldable pub first_index_path : DocPath → Option ℤ
unfolding element_index
first_index_path [] = none
first_index_path (a ∷ p) = some (element_index a)

-- `Get`: a negative index passes the test `index < len`, and the access panics.
unfoldable pub get : DocPath → ℤ → Result (Option PathElement)
get p (pos i) = ok (get_elem? p i)
get p (negsuc i) = panic

-- `Last`
unfoldable pub last : DocPath → Option PathElement
last [] = none
last (a ∷ []) = some a
last (a ∷ (b ∷ p)) = last (b ∷ p)

-- `Replace`: the new path, and the element that stood there.
unfoldable pub replace : DocPath → ℤ → PathElement → Result (DocPath × Option PathElement)
replace p (pos i) a = ok (set p i a, get_elem? p i)
replace p (negsuc i) a = panic

bump_at : (ℤ → ℤ) → (ℤ → Bool) → DocPath → ℕ → DocPath × Bool
bump_at f test p i = elim (get_elem? p i) [
  | none ↦ (p, false)
  | some a ↦ if test a.index then (set p i (record a { index = f a.index }), true) else (p, false)
]

-- `IncreaseIndex`
unfoldable pub increase_index : DocPath → ℤ → Result (DocPath × Bool)
unfolding bump_at
increase_index p (pos i) = ok (bump_at (λ n. add_int n (pos 1)) (leb_ℤ (pos 0)) p i)
increase_index p (negsuc i) = panic

-- `DecreaseIndex`
unfoldable pub decrease_index : DocPath → ℤ → Result (DocPath × Bool)
unfolding bump_at
decrease_index p (pos i) = ok (bump_at (λ n. sub_int n (pos 1)) (ltb_ℤ (pos 0)) p i)
decrease_index p (negsuc i) = panic

-- `SplitAt`: slicing past the length panics.
unfoldable pub split_at : DocPath → ℕ → Result (DocPath × DocPath)
split_at p mid = if leb mid (length p) then ok (take mid p, drop mid p) else panic

-- `MaxCommonPath`, and `CommonPathPrefix`, which has the same body.
unfoldable pub max_common_path : DocPath → DocPath → DocPath
unfolding same_element
max_common_path [] q = []
max_common_path (a ∷ p) [] = []
max_common_path (a ∷ p) (b ∷ q) =
    let rest = max_common_path p q in if same_element b a then a ∷ rest else []

-- `IsPrefixOf`
unfoldable pub is_prefix_of : DocPath → DocPath → Bool
unfolding element_equals
is_prefix_of [] q = true
is_prefix_of (a ∷ p) [] = false
is_prefix_of (a ∷ p) (b ∷ q) = if not (element_equals a b) then false else is_prefix_of p q

-- `NextLevel`: `p[1:]`.
unfoldable pub next_level : DocPath → Result DocPath
next_level [] = panic
next_level (a ∷ p) = ok p

module _ (V : Values) where
  open V use {Value}

  -- One round of the loop of `Path.FromValue`.
  unfoldable pub element_from_value : Value → Result (Option PathElement)
  element_from_value v = do
    k ← if V.is_string v then must (V.get_string v) else ok []
    i ← if V.is_int v then must (V.get_int v) else ok (pos 0)
    ok (if V.is_string v || V.is_int v then some (record { key = k; index = i }) else none)

  unfoldable pub elements_from_values : List Value → Result DocPath
  unfolding element_from_value
  elements_from_values [] = ok []
  elements_from_values (v ∷ vs) = do
    a ← element_from_value v
    p ← elements_from_values vs
    ok (elim a [ none ↦ p | some x ↦ x ∷ p ])

  -- `Path.FromValue`
  unfoldable pub path_from_value : Value → Result DocPath
  unfolding elements_from_values
  path_from_value v = do vs ← must (V.get_array v); elements_from_values vs
