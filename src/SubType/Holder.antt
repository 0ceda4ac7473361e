-- ===== src/SubType/Holder.antt =====
-- `SubTypeFunctionsHolderImpl` of subtype.go: the table of registered sub types.
use jsonot.Base.{
  ◌≡◌, refl, ap, ◌∙◌, inl, inr, Bool, true, false, ◌||◌, Option, none, some, List, [], ◌∷◌, arith,
  if◌then◌else◌, Bool-cases, Bytes, lit, str_eq, str_eq_iff,
}
use jsonot.Operator.{SubTypeFunctions, number_add_functions, text_functions}

-- `subtypeOperators`, a Go map, as an association list.
abbrev pub Holder : Type 0
Holder = List (Bytes × SubTypeFunctions)

-- `Get`
unfoldable pub get : Holder → Bytes → Option SubTypeFunctions
get [] k = none
get ((j, f) ∷ h) k = if str_eq j k then some f else get h k

remove : Holder → Bytes → Holder
remove [] k = []
remove ((j, f) ∷ h) k = let rest = remove h k in if str_eq j k then rest else (j, f) ∷ rest

abbrev is_built_in : Bytes → Bool
is_built_in k = str_eq k (lit "na") || str_eq k (lit "text")

-- `NewSubTypeFunctionsHolder`
unfoldable pub new_holder : Holder
new_holder = (lit "na", number_add_functions) ∷ (lit "text", text_functions) ∷ []

-- `Register`
unfoldable pub register : Bytes → SubTypeFunctions → Holder → Holder
unfolding remove
register k f h = if is_built_in k then h else (k, f) ∷ remove h k

-- `Unregister`
unfoldable pub unregister : Bytes → Holder → Holder
unfolding remove
unregister k h = if is_built_in k then h else remove h k

-- The calls that a program makes on a holder.
pub data Call : Type 0 where
  registering : Bytes → SubTypeFunctions → Call
  unregistering : Bytes → Call

pub run : Holder → List Call → Holder
run h [] = h
run h (registering k f ∷ cs) = run (register k f h) cs
run h (unregistering k ∷ cs) = run (unregister k h) cs

get-remove :
    (h : Holder) (j k : Bytes) → get (remove h j) k ≡ (if str_eq j k then none else get h k)
unfolding get remove
get-remove [] j k = ground arith
get-remove ((i, f) ∷ h) j k =
    ground (arith, get-remove h j k, str_eq_iff i j, str_eq_iff i k, str_eq_iff j k)

-- `Get` after `Register` under a name that is not built in.
pub get-register :
    (h : Holder) (j k : Bytes) (f : SubTypeFunctions)
    → is_built_in j ≡ false
    → get (register j f h) k ≡ (if str_eq j k then some f else get h k)
unfolding get register
get-register h j k f e = rw e (ground (arith, get-remove h j k))

built_in-register :
    (h : Holder) (j k : Bytes) (f : SubTypeFunctions)
    → is_built_in k ≡ true
    → get (register j f h) k ≡ get h k
unfolding get register
built_in-register h j k f e = elim (Bool-cases (is_built_in j)) [
  | inl b ↦ rw b
  | inr n ↦ rw n (ground (arith, get-remove h j k, str_eq_iff j k, ap is_built_in))
]

built_in-unregister :
    (h : Holder) (j k : Bytes) → is_built_in k ≡ true → get (unregister j h) k ≡ get h k
unfolding get unregister
built_in-unregister h j k e = elim (Bool-cases (is_built_in j)) [
  | inl b ↦ rw b
  | inr n ↦ rw n (ground (arith, get-remove h j k, str_eq_iff j k, ap is_built_in))
]

-- Whatever a program registers and unregisters, `Get` returns for a built-in name what it returned
-- before.
pub built_in-run :
    (cs : List Call) (h : Holder) (k : Bytes) → is_built_in k ≡ true → get (run h cs) k ≡ get h k
unfolding run
built_in-run [] h k e = refl
built_in-run (registering j f ∷ cs) h k e =
    built_in-run cs (register j f h) k e ∙ built_in-register h j k f e
built_in-run (unregistering j ∷ cs) h k e =
    built_in-run cs (unregister j h) k e ∙ built_in-unregister h j k e
