-- ===== src/Apply/Route/Laws.antt =====
-- Reading back what `RouteSetOnValue` has put at a path.
use jsonot.Base.{
  ℕ, ◌≡◌, refl, ◌≢◌, ◌⊎◌, inl, inr, Bool, true, false, Option, none, some, List, [], ◌∷◌, arith,
  if◌then◌else◌, Bool-cases, get_elem?, set, get_elem?-set_self, lt-length_of_get_elem?, ℤ, pos,
  negsuc, Bytes, str_eq_refl, Result, ok, foreign, >>=-eq-ok,
}
use jsonot.Value.{Values, ValueType}
use jsonot.Value.Laws.{ValueLaws}
use jsonot.Path.{DocPath, PathElement, element_index}
use jsonot.Apply.Route.{
  route_get, route_set, get_on_array, get_on_object, set_on_array, set_found, get_found, get_member,
  get_member, set_on_object, get_by_type, set_by_type,
}

foreign-eq-ok : {A : Type 0} (o : Option A) {a : A} → foreign o ≡ ok a → o ≡ some a
foreign-eq-ok none h = cc
foreign-eq-ok (some b) h = cc

module _ (V : Values) (laws : ValueLaws V) where
  open V use {Value}

  -- A value that `RouteGetOnArray` returns as it is.
  abbrev pub IsSettled : Value → Type 0
  IsSettled v = (V.is_null v ≡ false) × (V.type_of v ≢ ValueType.any)

  abbrev IsContainer : Value → Type 0
  IsContainer v = (V.type_of v ≡ ValueType.array) ⊎ (V.type_of v ≡ ValueType.object)

  IsContainer-IsSettled : (v : Value) → IsContainer v → IsSettled v
  IsContainer-IsSettled v h = elim (Bool-cases (V.is_null v)) [
    | inl n ↦ absurd (ground (arith, laws.nulls v n))
    | inr n ↦ (n, λ e. ground arith)
  ]

  -- What a successful `RouteSetOnArray` has done.
  record ArraySet (v : Value) (i : ℤ) (at_end : Bool) (new w : Value)
      (deeper : Value → Result Value) : Type 0 where
    elements : List Value
    place : ℕ
    old : Value
    child : Value
    place_eq : i ≡ pos place
    got : V.get_array v ≡ some elements
    stood : get_elem? elements place ≡ some old
    made : (if at_end then ok new else deeper old) ≡ ok child
    updated : V.update_array v (set elements place child) ≡ some w

  set_found-eq-ok :
      (v : Value) (xs : List Value) (i : ℕ) (at_end : Bool) (new w : Value)
      (deeper : Value → Result Value) (o : Option Value)
      → V.get_array v ≡ some xs
      → get_elem? xs i ≡ o
      → set_found V v xs i at_end new deeper o ≡ ok w
      → ArraySet v (pos i) at_end new w deeper
  unfolding set_found
  set_found-eq-ok v xs i at_end new w deeper none e f h = absurd (cc)
  set_found-eq-ok v xs i at_end new w deeper (some x) e f h =
      let (c, made, done) =
        >>=-eq-ok (if at_end then ok new else deeper x)
          (λ (child : Value). foreign (V.update_array v (set xs i child))) {b = w} h in
      record {
        elements = xs;
        place = i;
        old = x;
        child = c;
        place_eq = refl;
        got = e;
        stood = f;
        made = made;
        updated = foreign-eq-ok _ done;
      }

  set_on_array-eq-ok :
      (v : Value) (i : ℤ) (at_end : Bool) (new w : Value) (deeper : Value → Result Value)
      → set_on_array V v i at_end new deeper ≡ ok w
      → ArraySet v i at_end new w deeper
  unfolding set_on_array
  set_on_array-eq-ok v (negsuc i) at_end new w deeper h = absurd (ground arith)
  set_on_array-eq-ok v (pos i) at_end new w deeper h =
      let (xs, e, f) =
        >>=-eq-ok (foreign (V.get_array v))
          (λ (arr : List Value). set_found V v arr i at_end new deeper (get_elem? arr i)) {b = w}
          h in
      set_found-eq-ok v xs i at_end new w deeper (get_elem? xs i) (foreign-eq-ok _ e) refl f

  -- The child that is put there, and what the route reads below it.
  abbrev ReadsBack : Bool → Value → Value → (Value → Result (Option Value)) → Type 0
  ReadsBack at_end new child deeper =
      IsSettled child × (at_end ≡ false → deeper child ≡ ok (some new))

  get-set_on_array :
      (v : Value) (i : ℤ) (at_end : Bool) (new w : Value) (t : ValueType)
      (below : Value → Result Value) (deeper : Value → Result (Option Value))
      → ((old child : Value)
          → (if at_end then ok new else below old) ≡ ok child
          → ReadsBack at_end new child deeper)
      → set_on_array V v i at_end new below ≡ ok w
      → get_on_array V w i at_end t deeper ≡ ok (some new)
  unfolding get_on_array
  get-set_on_array v i at_end new w t below deeper reads h =
      let s = set_on_array-eq-ok v i at_end new w below h in
      let r = reads s.old s.child s.made in
      rw
        (
          s.place_eq,
          laws.arrays.get_array-update_array v w (set s.elements s.place s.child) s.updated,
        )
        (rw
          (get_elem?-set_self s.elements s.place s.child
            (lt-length_of_get_elem? s.elements s.place s.stood))
          (found at_end s.child r (λ e. ok_inj (rw e at s.made))))
    where
      ok_inj : {a b : Value} → ok a ≡ ok b → a ≡ b
      ok_inj e = cc

      found :
          (b : Bool) (c : Value)
          → ReadsBack b new c deeper
          → (b ≡ true → new ≡ c)
          → get_found V b t deeper (some c) ≡ ok (some new)
      found true c r e = rw (r.0.0, laws.packing c r.0.1) (ground arith)
      found false c r e = rw (r.0.0, laws.packing c r.0.1) (r.1 refl)

  set_on_array-IsContainer :
      (v : Value) (i : ℤ) (at_end : Bool) (new w : Value) (below : Value → Result Value)
      → set_on_array V v i at_end new below ≡ ok w
      → IsContainer w
  set_on_array-IsContainer v i at_end new w below h =
      let s = set_on_array-eq-ok v i at_end new w below h in
      inl (laws.arrays.update_array_type v w (set s.elements s.place s.child) s.updated)

  get-set_on_object :
      (v : Value) (k : Bytes) (at_end : Bool) (new w : Value) (t : ValueType)
      (below : Value → Result Value) (deeper : Value → Result (Option Value))
      → ((old child : Value)
          → (if at_end then ok new else below old) ≡ ok child
          → ReadsBack at_end new child deeper)
      → set_on_object V v k at_end new below ≡ ok w
      → (V.type_of w ≡ ValueType.object) × (get_on_object V w k at_end t deeper ≡ ok (some new))
  unfolding set_on_object get_on_object
  get-set_on_object v k at_end new w t below deeper reads h =
      let (c, made, done) =
        >>=-eq-ok (if at_end then ok new else below _)
          (λ (child : Value). foreign (V.set_key v k child)) {b = w} h in
      let stored = foreign-eq-ok _ done in
      (
        laws.objects.set_key_type v c w k stored,
        rw (laws.objects.get_key-set_key v c w k k stored, str_eq_refl k)
            (found at_end c (reads _ c made) (λ e. ok_inj (rw e at made))),
      )
    where
      ok_inj : {a b : Value} → ok a ≡ ok b → a ≡ b
      ok_inj e = cc

      found :
          (b : Bool) (c : Value)
          → ReadsBack b new c deeper
          → (b ≡ true → new ≡ c)
          → get_member V b t deeper (some c) ≡ ok (some new)
      found true c r e = ground (arith, e refl)
      found false c r e = r.1 refl

  get-set_by_type :
      (ty : ValueType) (v : Value) (a : PathElement) (at_end : Bool) (new w : Value) (t : ValueType)
      (below : Value → Result Value) (deeper : Value → Result (Option Value))
      → ((old child : Value)
          → (if at_end then ok new else below old) ≡ ok child
          → ReadsBack at_end new child deeper)
      → set_by_type V ty v a at_end new below ≡ ok w
      → IsContainer w × (get_by_type V (V.type_of w) w a at_end t deeper ≡ ok (some new))
  unfolding set_by_type get_by_type
  get-set_by_type ValueType.array v a at_end new w t below deeper reads h =
      let i = element_index a in
      let s = set_on_array-eq-ok v i at_end new w below h in
      let is_array = laws.arrays.update_array_type v w (set s.elements s.place s.child) s.updated in
      (inl is_array, rw is_array (get-set_on_array v i at_end new w t below deeper reads h))
  get-set_by_type ValueType.object v a at_end new w t below deeper reads h =
      let (is_object, back) = get-set_on_object v a.key at_end new w t below deeper reads h in
      (inr is_object, rw is_object back)
  get-set_by_type _ v a at_end new w t below deeper reads h = absurd (cc)

  get-set :
      (p : DocPath) (v new w : Value) (t : ValueType)
      → IsSettled new
      → route_set V v p new ≡ ok w
      → IsContainer w × (route_get V w p t ≡ ok (some new))
  unfolding route_set route_get
  get-set [] v new w t settled h = absurd (cc)
  get-set (a ∷ []) v new w t settled h =
      get-set_by_type (V.type_of (V.pack_any v)) (V.pack_any v) a true new w t
        (λ child. route_set V child [] new) (λ child. route_get V child [] t)
        (λ old child made. (rw (ok_inj made) at settled, λ e. absurd (cc))) h
    where
      ok_inj : {x y : Value} → ok x ≡ ok y → x ≡ y
      ok_inj e = cc
  get-set (a ∷ (b ∷ p)) v new w t settled h =
      get-set_by_type (V.type_of (V.pack_any v)) (V.pack_any v) a false new w t
        (λ child. route_set V child (b ∷ p) new) (λ child. route_get V child (b ∷ p) t)
        (λ old child made.
          let ih = get-set (b ∷ p) old new child t settled made in
          (IsContainer-IsSettled child ih.0, λ _. ih.1))
        h

-- What `RouteSetOnValue` puts at a path, if it succeeds, `RouteGetOnValue` returns from there; the
-- value is parsed and not null.
pub route_get-route_set :
    (V : Values) (laws : ValueLaws V) (p : DocPath) (v new w : V.Value) (t : ValueType)
    → V.is_null new ≡ false
    → V.type_of new ≢ ValueType.any
    → route_set V v p new ≡ ok w
    → route_get V w p t ≡ ok (some new)
route_get-route_set V laws p v new w t h k e = (get-set V laws p v new w t (h, k) e).1
