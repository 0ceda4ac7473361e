-- ===== src/Operation/Fresh.antt =====
-- operation.go, `Operation.Append`: a component at a path of its own.
use jsonot.Base.{◌≡◌, refl, Bool, false, ◌||◌, [], ◌∷◌, ◌++◌, arith, ok}
use jsonot.Value.{Values}
use jsonot.Operator.{Operator, object_insert, object_delete, object_replace}
use jsonot.Path.{DocPath, equal}
use jsonot.SubType.Interface.{Clients}
use jsonot.Component.{Component, new_component}
use jsonot.Operation.{Operation, append, move_stays, push, join_last}

-- A component that writes at a key.
abbrev pub IsKeyOperator : {V : Type 0} → Operator V → Type 0
IsKeyOperator (object_insert v) = Unit {0}
IsKeyOperator (object_delete v) = Unit {0}
IsKeyOperator (object_replace v w) = Unit {0}
IsKeyOperator _ = ⊥

-- Whether a component of an operation is at a path.
abbrev pub has_path : {V : Type 0} → DocPath → Operation V → Bool
has_path p [] = false
has_path p (c ∷ o) = equal c.path p || has_path p o

module _ (V : Values) (C : Clients V) where
  open V use {Value}

  push-fresh :
      (o : Operation Value) (c : Component Value)
      → has_path c.path o ≡ false
      → push V C o c ≡ ok (o ++ c ∷ [])
  unfolding push join_last
  push-fresh [] c k = refl
  push-fresh (d ∷ []) c k =
      let differ : equal d.path c.path ≡ false = ground arith in rw (push, differ) refl
  push-fresh (d ∷ (e ∷ o)) c k =
      let rest : has_path c.path (e ∷ o) ≡ false = ground arith in
      rw (push-fresh (e ∷ o) c rest) refl

  -- A component at a path of its own is appended as it is.
  pub append-fresh :
      (o : Operation Value) (p : DocPath) (op : Operator Value)
      → IsKeyOperator op
      → has_path p o ≡ false
      → append V C o (new_component p op) ≡ ok (o ++ record { operator = op; path = p } ∷ [])
  unfolding append move_stays new_component
  append-fresh o p (object_insert v) w k = push-fresh o _ k
  append-fresh o p (object_delete v) w k = push-fresh o _ k
  append-fresh o p (object_replace v x) w k = push-fresh o _ k
  append-fresh o p _ w k = absurd w
