-- ===== src/Apply/Undo/Arrays.antt =====
-- apply.go and operation.go: undoing a list component on an array.
use jsonot.Base.{
  ℕ, ◌≤◌, ◌<◌, ◌≡◌, refl, false, some, List, [], ◌∷◌, arith, length, get_elem?, set, insert_at,
  get_elem?-set_self, length-insert_at, length-delete_at, lt-length_of_get_elem?, pos, ok,
  delete_at-insert_at, insert_at-delete_at, get_elem?-insert_at_self, set-set, set_self,
}
use jsonot.Value.{Values, ValueType}
use jsonot.Value.Laws.{ValueLaws, EqualsLaw}
use jsonot.Operator.{Operator, list_insert, list_delete, list_replace}
use jsonot.Path.{element_from_index, element_index, first_index_path}
use jsonot.SubType.Interface.{Clients}
use jsonot.Component.{Component, invert}
use jsonot.Apply.{apply_here}
use jsonot.Apply.Arrays.{
  apply_to_array, apply_list_insert, apply_list_delete, apply_list_replace, index_func,
}

pub element_index-from_index : (i : ℕ) → element_index (element_from_index (pos i)) ≡ pos i
unfolding element_index
element_index-from_index i = ground arith

module _ (V : Values) (equality : EqualsLaw V) where
  open V use {Value}

  -- The value is found at the index where it stands.
  pub index_func_at :
      (xs : List Value) (x : Value) (i : ℕ)
      → get_elem? xs i ≡ some x
      → index_func V xs x (pos i) ≡ pos i
  unfolding index_func
  index_func_at [] x i h = absurd (cc)
  index_func_at (y ∷ ys) x i h = ground (arith, equality x)

  -- What an operator needs of the array at its index, so that its inverse takes it back.
  abbrev pub FitsArray : Operator Value → List Value → ℕ → Type 0
  FitsArray (list_insert x) xs i = i ≤ length xs
  FitsArray (list_delete x) xs i = get_elem? xs i ≡ some x
  FitsArray (list_replace new old) xs i =
      (0 < i) × (get_elem? xs i ≡ some old) × (V.is_null old ≡ false) × (V.is_null new ≡ false)
  FitsArray _ xs i = ⊥

  list_delete-list_insert :
      (xs : List Value) (x : Value) (i : ℕ)
      → i ≤ length xs
      → apply_list_delete V (apply_list_insert V xs x i) x i ≡ xs
  unfolding apply_list_delete apply_list_insert
  list_delete-list_insert xs x i h = ground (
    arith,
    index_func_at (insert_at xs i x) x i (get_elem?-insert_at_self xs i x (omega arith)),
    delete_at-insert_at xs i x,
    length-insert_at xs i x,
  )

  list_insert-list_delete :
      (xs : List Value) (x : Value) (i : ℕ)
      → get_elem? xs i ≡ some x
      → apply_list_insert V (apply_list_delete V xs x i) x i ≡ xs
  unfolding apply_list_delete apply_list_insert
  list_insert-list_delete xs x i h = ground (
    arith,
    index_func_at xs x i h,
    lt-length_of_get_elem? xs i h,
    length-delete_at xs i,
    insert_at-delete_at xs i h,
  )

  list_replace-list_replace :
      (xs : List Value) (new old : Value) (i : ℕ)
      → FitsArray (list_replace new old) xs i
      → apply_list_replace V (apply_list_replace V xs new old i) old new i ≡ xs
  unfolding apply_list_replace
  list_replace-list_replace xs new old i (pos_i, at, h, k) = ground (
    arith,
    index_func_at xs old i at,
    index_func_at (set xs i new) new i
        (get_elem?-set_self xs i new (lt-length_of_get_elem? xs i at)),
    get_elem?-set_self xs i new (lt-length_of_get_elem? xs i at),
    set-set xs i new old,
    set_self xs i at,
  )

  -- On the elements of an array, the inverse takes back what the component did.
  pub array_undo :
      (C : Clients V) (xs : List Value) (i : ℕ) (op : Operator Value)
      → FitsArray op xs i
      → let p = element_from_index (pos i) ∷ [] in
        (ys : List Value) × (d : Component Value) × (invert V C (record { operator = op; path = p })
          ≡ ok (d, record { operator = op; path = p }))
        × (apply_to_array V xs p op ≡ ok ys)
        × (apply_to_array V ys d.path d.operator ≡ ok xs)
  unfolding invert apply_to_array first_index_path
  array_undo C xs i (list_insert x) h = (
    apply_list_insert V xs x i,
    record { operator = list_delete x; path = element_from_index (pos i) ∷ [] },
    refl,
    rw (element_index-from_index i),
    rw (element_index-from_index i) (rw (list_delete-list_insert xs x i h)),
  )
  array_undo C xs i (list_delete x) h = (
    apply_list_delete V xs x i,
    record { operator = list_insert x; path = element_from_index (pos i) ∷ [] },
    refl,
    rw (element_index-from_index i),
    rw (element_index-from_index i) (rw (list_insert-list_delete xs x i h)),
  )
  array_undo C xs i (list_replace new old) h = (
    apply_list_replace V xs new old i,
    record { operator = list_replace old new; path = element_from_index (pos i) ∷ [] },
    refl,
    rw (element_index-from_index i),
    rw (element_index-from_index i) (rw (list_replace-list_replace xs new old i h)),
  )
  array_undo C xs i _ h = absurd h

module _ (V : Values) (laws : ValueLaws V) (C : Clients V) where
  open V use {Value}

  -- Applied to an array, a list insertion, deletion or replacement that fits it succeeds; its
  -- inverse exists, applies to the result, and gives the first elements back. A replacement fits
  -- at indexes above 0, between values that are not null.
  pub apply-invert_array :
      (v : Value) (xs : List Value) (i : ℕ) (op : Operator Value)
      → V.type_of v ≡ ValueType.array
      → V.get_array v ≡ some xs
      → FitsArray V laws.equality op xs i
      → let c : Component Value = record {
        operator = op;
        path = element_from_index (pos i) ∷ [];
      } in
        (w u : Value) × (d : Component Value) × (apply_here V C v c.path c.operator ≡ ok w)
        × (invert V C c ≡ ok (d, c))
        × (apply_here V C w d.path d.operator ≡ ok u)
        × (V.get_array u ≡ some xs)
  unfolding apply_here
  apply-invert_array v xs i op t e h =
      let (ys, d, inv, there, back) = array_undo V laws.equality C xs i op h in
      let (w, put) = laws.arrays.update_array_some v ys t in
      let w_type = laws.arrays.update_array_type v w ys put in
      let (u, put') = laws.arrays.update_array_some w xs w_type in
      (
        w,
        u,
        d,
        rw (t, e, there, put),
        inv,
        rw (w_type, laws.arrays.get_array-update_array v w ys put, back, put'),
        laws.arrays.get_array-update_array w u xs put',
      )
