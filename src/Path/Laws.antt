-- ===== src/Path/Laws.antt =====
-- Common prefixes of paths, and the index updates that a transform makes on them.
use jsonot.Base.{
  ◌≡◌, refl, ap, ◌↔◌, inl, inr, Bool, true, not, ◌||◌, Option, some, [], ◌∷◌, arith, Bool-cases,
  length, get_elem?, take, is_nil, pos, eq_ℤ, eq_ℤ→eq, str_eq_refl, str_eq_iff,
}
use jsonot.Path.{PathElement, DocPath, element_equals, same_element, max_common_path, is_prefix_of}

element_eq : {a b : PathElement} → a.key ≡ b.key → a.index ≡ b.index → a ≡ b
element_eq p q = λ i. record { key = p i; index = q i }

pub same_element_iff : (a b : PathElement) → (same_element a b ≡ true) ↔ (a ≡ b)
unfolding same_element
same_element_iff a b = (
  λ h.
      element_eq ((str_eq_iff a.key b.key).0 (ground arith))
        (eq_ℤ→eq a.index b.index (ground arith)),
  λ e. rw e (ground (arith, str_eq_refl b.key)),
)

-- One of two paths ends at a place, or they differ there.
abbrev pub parts : Option PathElement → Option PathElement → Bool
parts (some a) (some b) = not (same_element b a)
parts _ _ = true

-- `MaxCommonPath` begins both paths, and behind it one of them ends or they differ.
pub max_common_path_longest :
    (p q : DocPath)
    → (take (length (max_common_path p q)) p ≡ max_common_path p q)
      × (take (length (max_common_path p q)) q ≡ max_common_path p q)
      × (parts
            (get_elem? p (length (max_common_path p q)))
            (get_elem? q (length (max_common_path p q)))
          ≡ true)
unfolding max_common_path
max_common_path_longest [] q = (refl, refl, refl)
max_common_path_longest (x ∷ p) [] = (refl, refl, refl)
max_common_path_longest (x ∷ p) (y ∷ q) = elim (Bool-cases (same_element y x)) [
  | inl e ↦
      let ih = max_common_path_longest p q in
      let x=y : y ≡ x = (same_element_iff y x).0 e in
      rw e (ap (x ∷◌) ih.0, rw x=y (ap (x ∷◌) ih.1), ih.2)
  | inr n ↦ rw n (refl, refl, rw n)
]

-- An element that a constructor of the package makes: a key has no index.
abbrev pub IsCanonical : PathElement → Type 0
IsCanonical a = (is_nil a.key || eq_ℤ a.index (pos 0)) ≡ true

abbrev pub AllCanonical : DocPath → Type 0
AllCanonical [] = Unit {0}
AllCanonical (a ∷ p) = IsCanonical a × AllCanonical p

element_equals_canonical :
    (a b : PathElement) → IsCanonical a → IsCanonical b → element_equals a b ≡ same_element b a
unfolding element_equals same_element
element_equals_canonical a b h k = ground (
  arith,
  str_eq_iff a.key b.key,
  str_eq_iff b.key a.key,
  eq_ℤ→eq a.index (pos 0),
  eq_ℤ→eq b.index (pos 0),
)

-- On paths without stray indices, `IsPrefixOf` holds exactly when the common path is the whole
-- first path.
pub is_prefix_of_iff :
    (p q : DocPath)
    → AllCanonical p
    → AllCanonical q
    → (is_prefix_of p q ≡ true) ↔ (max_common_path p q ≡ p)
unfolding is_prefix_of max_common_path
is_prefix_of_iff [] q h k = (λ _. refl, λ _. refl)
is_prefix_of_iff (a ∷ p) [] h k = (λ e. cc, λ e. cc)
is_prefix_of_iff (a ∷ p) (b ∷ q) h k =
    rw (element_equals_canonical a b h.0 k.0) (elim (Bool-cases (same_element b a)) [
      | inl e ↦
          let ih = is_prefix_of_iff p q h.1 k.1 in rw e (λ t. ap (a ∷◌) (ih.0 t), λ t. ih.1 (cc))
      | inr n ↦ rw n (λ t. cc, λ t. cc)
    ])
