-- ===== src/Sharedb/Publisher/Channels.antt =====
-- sharedb/memory.go: what an open channel of the publisher keeps of the events that it is offered.
use jsonot.Base.{
  append_empty, append_assoc, ◌+◌, ◌-◌, suc, ◌≡◌, ◌≤◌, refl, sym, ap, ◌∙◌, Bool, true, false, ◌&&◌,
  ◌||◌, List, [], ◌∷◌, ◌++◌, arith, ltb, leb, ◌==◌, length, length-append, is_nil, Bool-cases, inl,
  inr,
}
use jsonot.Sharedb.{Event}
use jsonot.Sharedb.Publisher.{Channel, offer, taken}

-- The first events are some of the second ones, in their order.
pub data Kept : List Event → List Event → Type 0 where
  nothing : Kept [] []
  lost : {e : Event} {xs ys : List Event} → Kept xs ys → Kept xs (e ∷ ys)
  kept : {e : Event} {xs ys : List Event} → Kept xs ys → Kept (e ∷ xs) (e ∷ ys)

Kept-append :
    (xs ys : List Event) {zs ws : List Event} → Kept xs ys → Kept zs ws → Kept (xs ++ zs) (ys ++ ws)
Kept-append _ _ nothing h = h
Kept-append _ _ (lost k) h = lost (Kept-append _ _ k h)
Kept-append _ _ (kept k) h = kept (Kept-append _ _ k h)

-- The queue is within the capacity, and a receiver waits only where it is empty.
abbrev pub is_ready : Channel → Bool
is_ready c = leb (length c.queue) c.capacity && (is_nil c.queue || (c.waiting == 0))

-- What the receiver has got, and what waits for it.
abbrev pub accepted : Channel → List Event
accepted c = c.received ++ c.queue

-- The channel has accepted some of the events, in their order, and all of them when its queue had
-- room.
abbrev pub Delivered : List Event → Channel → Channel → Type 0
Delivered es c d =
    (d.capacity ≡ c.capacity)
    × (is_ready d ≡ true)
    × (length d.queue ≤ length c.queue + length es)
    × (xs : List Event) × (accepted d ≡ accepted c ++ xs)
    × Kept xs es
    × (length c.queue + length es ≤ c.capacity → xs ≡ es)

pub Delivered-refl : (c : Channel) → is_ready c ≡ true → Delivered [] c c
Delivered-refl c ready =
    (refl, ready, omega arith, [], append_empty (accepted c), nothing, λ room. refl)

pub Delivered-trans :
    (es fs : List Event) (a b c : Channel)
    → Delivered es a b
    → Delivered fs b c
    → Delivered (es ++ fs) a c
Delivered-trans es fs a b c (same, ready, short, xs, got, some_xs, all_xs)
      (same', ready', short', ys, got', some_ys, all_ys) =
    let total : length (es ++ fs) ≡ length es + length fs = length-append es fs in
    (
      same' ∙ same,
      ready',
      omega arith,
      xs ++ ys,
      got' ∙ (rw got (append_assoc (accepted a) xs ys)),
      Kept-append xs es some_xs some_ys,
      λ room.
          let first : xs ≡ es = all_xs (omega arith) in
          let second : ys ≡ fs = all_ys (omega arith) in rw (first, second) refl,
    )

nil_of_is_nil : (xs : List Event) → is_nil xs ≡ true → xs ≡ []
nil_of_is_nil [] h = refl
nil_of_is_nil (x ∷ xs) h = absurd cc

-- A receiver that waits has an empty queue in front of it.
empty_of_waiting : (c : Channel) → is_ready c ≡ true → ltb 0 c.waiting ≡ true → c.queue ≡ []
empty_of_waiting c ready waits =
    let empty : is_nil c.queue ≡ true = ground arith in nil_of_is_nil c.queue empty

accepted_handed :
    (xs q : List Event) (e : Event) → q ≡ [] → (xs ++ e ∷ []) ++ q ≡ (xs ++ q) ++ e ∷ []
accepted_handed xs q e empty =
    rw empty
      (sym (append_empty (xs ++ e ∷ [])) ∙ ap (λ (ys : List Event). ys ++ e ∷ []) (append_empty xs))

handed-Delivered :
    (e : Event) (c : Channel)
    → is_ready c ≡ true
    → ltb 0 c.waiting ≡ true
    → Delivered (e ∷ []) c (record c { waiting = c.waiting - 1; received = c.received ++ e ∷ [] })
handed-Delivered e c ready waits =
    let empty : c.queue ≡ [] = empty_of_waiting c ready waits in
    (
      refl,
      rw empty (ground arith),
      omega arith,
      e ∷ [],
      accepted_handed c.received c.queue e empty,
      kept nothing,
      λ room. refl,
    )

queued-Delivered :
    (e : Event) (c : Channel)
    → is_ready c ≡ true
    → ltb 0 c.waiting ≡ false
    → ltb (length c.queue) c.capacity ≡ true
    → Delivered (e ∷ []) c (record c { queue = c.queue ++ e ∷ [] })
queued-Delivered e c ready idle room =
    let longer : length (c.queue ++ e ∷ []) ≡ length c.queue + 1 = length-append c.queue (e ∷ []) in
    (
      refl,
      rw longer (ground arith),
      omega arith,
      e ∷ [],
      sym (append_assoc c.received c.queue (e ∷ [])),
      kept nothing,
      λ r. refl,
    )

dropped-Delivered :
    (e : Event) (c : Channel)
    → is_ready c ≡ true
    → ltb (length c.queue) c.capacity ≡ false
    → Delivered (e ∷ []) c c
dropped-Delivered e c ready full = (
  refl,
  ready,
  omega arith,
  [],
  append_empty (accepted c),
  lost nothing,
  λ room. absurd (ground arith),
)

pub offer-Delivered :
    (e : Event) (c : Channel) → is_ready c ≡ true → Delivered (e ∷ []) c (offer e c)
unfolding offer
offer-Delivered e c ready = elim (Bool-cases (ltb 0 c.waiting)) [
  | inl waits ↦ rw (offer, waits) (handed-Delivered e c ready waits)
  | inr idle ↦ elim (Bool-cases (ltb (length c.queue) c.capacity)) [
    | inl room ↦ rw (offer, idle) (rw room (queued-Delivered e c ready idle room))
    | inr full ↦ rw (offer, idle) (rw full (dropped-Delivered e c ready full))
  ]
]

rest_ready :
    (c : Channel) (e : Event) (es : List Event)
    → c.queue ≡ e ∷ es
    → is_ready c ≡ true
    → is_ready (taken c (e ∷ es)) ≡ true
rest_ready c e es first ready =
    let shorter : length c.queue ≡ suc (length es) = ap length first in
    let behind : is_nil c.queue ≡ false = ap is_nil first in ground arith

taken_lem :
    (c : Channel) (q : List Event) → c.queue ≡ q → is_ready c ≡ true → Delivered [] c (taken c q)
taken_lem c [] empty ready = (
  refl,
  rw empty (ground arith),
  omega arith,
  [],
  append_empty (accepted c),
  nothing,
  λ room. refl,
)
taken_lem c (e ∷ es) first ready = (
  refl,
  rest_ready c e es first ready,
  (let shorter : length c.queue ≡ suc (length es) = ap length first in omega arith),
  [],
  (append_assoc c.received (e ∷ []) es ∙ (rw (← first) (append_empty (accepted c)))),
  nothing,
  λ room. refl,
)

pub taken-Delivered : (c : Channel) → is_ready c ≡ true → Delivered [] c (taken c c.queue)
taken-Delivered c ready = taken_lem c c.queue refl ready
