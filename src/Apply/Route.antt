-- ===== src/Apply/Route.antt =====
-- apply.go, `RouteGet…` and `RouteSet…`: the value at a path, and the value with another one put
-- there. `Parent` and the names in a parent, which `ValueBrian` records, are read by nothing.
pub mod Laws
use jsonot.Base.{
  ℕ, List, Bool, Option, none, some, [], ◌∷◌, if◌then◌else◌, get_elem?, set, is_nil, ℤ, pos, negsuc,
  Bytes, bad_path, Result, ok, ◌>>=◌, fail, foreign,
}
use jsonot.Value.{Values, ValueType, new_value}
use jsonot.Path.{DocPath, PathElement, element_index}

module _ (V : Values) where
  open V use {Value}

  abbrev Routed : Type 0
  Routed = Result (Option Value)

  get_found : Bool → ValueType → (Value → Routed) → Option Value → Routed
  unfolding new_value
  get_found at_end t deeper none = ok (some (new_value V t))
  get_found at_end t deeper (some node) =
      if V.is_null node
      then ok (some (new_value V t))
      else if at_end
      then ok (some (V.pack_any node))
      else deeper (V.pack_any node)

  -- `RouteGetOnArray`; `deeper` is the rest of the route.
  get_on_array : Value → ℤ → Bool → ValueType → (Value → Routed) → Routed
  unfolding get_found
  get_on_array v (negsuc i) at_end t deeper = do arr ← foreign (V.get_array v); fail bad_path
  get_on_array v (pos i) at_end t deeper = do
    arr ← foreign (V.get_array v)
    get_found at_end t deeper (get_elem? arr i)

  get_member : Bool → ValueType → (Value → Routed) → Option Value → Routed
  unfolding new_value
  get_member at_end t deeper none = ok (some (new_value V t))
  get_member at_end t deeper (some node) = if at_end then ok (some node) else deeper node

  -- `RouteGetOnObject`
  get_on_object : Value → Bytes → Bool → ValueType → (Value → Routed) → Routed
  unfolding get_member
  get_on_object v k at_end t deeper = get_member at_end t deeper (V.get_key v k)

  get_by_type : ValueType → Value → PathElement → Bool → ValueType → (Value → Routed) → Routed
  unfolding get_on_array get_on_object element_index
  get_by_type ValueType.array v a at_end t deeper = get_on_array v (element_index a) at_end t deeper
  get_by_type ValueType.object v a at_end t deeper = get_on_object v a.key at_end t deeper
  get_by_type _ v a at_end t deeper = ok none

  get_nowhere : ValueType → Value → Routed
  get_nowhere ValueType.array v = do arr ← foreign (V.get_array v); fail bad_path
  get_nowhere ValueType.object v = fail bad_path
  get_nowhere _ v = ok none

  -- `RouteGetOnValue`
  unfoldable pub route_get : Value → DocPath → ValueType → Routed
  unfolding get_by_type get_nowhere
  route_get v [] t = get_nowhere (V.type_of v) v
  route_get v (a ∷ p) t = get_by_type (V.type_of v) v a (is_nil p) t (λ w. route_get w p t)

  set_found :
      Value → List Value → ℕ → Bool → Value → (Value → Result Value) → Option Value → Result Value
  set_found v arr i at_end new deeper none = fail bad_path
  set_found v arr i at_end new deeper (some node) = do
    child ← if at_end then ok new else deeper node
    foreign (V.update_array v (set arr i child))

  -- `RouteSetOnArray`
  set_on_array : Value → ℤ → Bool → Value → (Value → Result Value) → Result Value
  unfolding set_found
  set_on_array v (negsuc i) at_end new deeper = do arr ← foreign (V.get_array v); fail bad_path
  set_on_array v (pos i) at_end new deeper = do
    arr ← foreign (V.get_array v)
    set_found v arr i at_end new deeper (get_elem? arr i)

  abbrev or_new_object : Option Value → Value
  or_new_object none = V.from_any_map []
  or_new_object (some node) = node

  -- `RouteSetOnObject`
  set_on_object : Value → Bytes → Bool → Value → (Value → Result Value) → Result Value
  set_on_object v k at_end new deeper = do
    child ← if at_end then ok new else deeper (or_new_object (V.get_key v k))
    foreign (V.set_key v k child)

  set_by_type :
      ValueType → Value → PathElement → Bool → Value → (Value → Result Value) → Result Value
  unfolding set_on_array set_on_object element_index
  set_by_type ValueType.array v a at_end new deeper =
      set_on_array v (element_index a) at_end new deeper
  set_by_type ValueType.object v a at_end new deeper = set_on_object v a.key at_end new deeper
  set_by_type _ v a at_end new deeper = fail bad_path

  -- `RouteSetOnValue`: the receiver after the call.
  unfoldable pub route_set : Value → DocPath → Value → Result Value
  unfolding set_by_type
  route_set v [] new = fail bad_path
  route_set v (a ∷ p) new =
      let w = V.pack_any v in
      set_by_type (V.type_of w) w a (is_nil p) new (λ child. route_set child p new)
