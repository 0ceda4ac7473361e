-- ===== src/Sharedb/Publisher/Order.antt =====
-- sharedb/memory.go: what a subscriber of the publisher gets.
use mathlib.Core.Path.{subst}
use jsonot.Base.{
  ℕ, ◌+◌, ◌^◌, ◌≡◌, ◌≤◌, ◌<◌, refl, ◌∙◌, Bool, true, false, ◌||◌, some, List, [], ◌∷◌, ◌++◌, arith,
  leb, ℤ, ◌==◌, if◌then◌else◌, length, Bytes, str_eq, Bool-cases, Option-cases, inl, inr, ◌⊎◌,
}
use jsonot.Sharedb.{Event}
use jsonot.Sharedb.Publisher.{
  Channel, Subscriber, Publisher, PublisherCall, publish_call, subscribe_call, cancel_call,
  receive_call, new_channel, buffer_size, publish, subscribe, cancel, receive, offer,
  run_publisher_call, run_publisher_calls, taken,
}
use jsonot.Sharedb.Publisher.Channels.{
  is_ready, Kept, Delivered, Delivered-refl, Delivered-trans, offer-Delivered, taken-Delivered,
}

-- The event of a call, if it is one of the document.
abbrev pub event_of : Bytes → PublisherCall → List Event
event_of d (publish_call e) = if str_eq d e.event_document then e ∷ [] else []
event_of d _ = []

abbrev pub events_of : Bytes → List PublisherCall → List Event
events_of d [] = []
events_of d (c ∷ cs) = event_of d c ++ events_of d cs

abbrev pub is_cancelled : ℕ → List PublisherCall → Bool
is_cancelled i [] = false
is_cancelled i (cancel_call j ∷ cs) = (j == i) || is_cancelled i cs
is_cancelled i (_ ∷ cs) = is_cancelled i cs

-- The subscriber is still there, with its document, and its channel has accepted these events.
abbrev pub Notified : ℕ → List Event → Subscriber → Publisher → Type 0
Notified i es s p =
    (t : Subscriber) × (p.subscribers i ≡ some t)
    × (t.subscriber_document ≡ s.subscriber_document)
    × Delivered es s.channel t.channel

publish-Notified :
    (i : ℕ) (e : Event) (p : Publisher) (s : Subscriber)
    → p.subscribers i ≡ some s
    → is_ready s.channel ≡ true
    → Notified i (event_of s.subscriber_document (publish_call e)) s (publish e p)
unfolding publish
publish-Notified i e p s there ready =
    elim (Bool-cases (str_eq s.subscriber_document e.event_document)) [
      | inl same ↦ rw same (
        record s { channel = offer e s.channel },
        rw (publish, there) (rw same refl),
        refl,
        offer-Delivered e s.channel ready,
      )
      | inr differ ↦
          rw differ (s, rw (publish, there) (rw differ refl), refl, Delivered-refl s.channel ready)
    ]

subscribe-Notified :
    (i : ℕ) (d : Bytes) (buffer : ℤ) (p : Publisher) (s : Subscriber)
    → p.subscribers i ≡ some s
    → is_ready s.channel ≡ true
    → i < p.next
    → Notified i [] s (subscribe d buffer p)
unfolding subscribe
subscribe-Notified i d buffer p s there ready below =
    let apart : (p.next == i) ≡ false = ground arith in
    (s, rw apart there, refl, Delivered-refl s.channel ready)

cancel-Notified :
    (i j : ℕ) (p : Publisher) (s : Subscriber)
    → p.subscribers i ≡ some s
    → is_ready s.channel ≡ true
    → (j == i) ≡ false
    → Notified i [] s (cancel j p)
unfolding cancel
cancel-Notified i j p s there ready apart = elim (Option-cases (p.subscribers j)) [
  | inl e ↦ rw (cancel, e) (s, there, refl, Delivered-refl s.channel ready)
  | inr (t, e) ↦ rw (cancel, e) (s, rw apart there, refl, Delivered-refl s.channel ready)
]

receive_here :
    (i : ℕ) (p : Publisher) (s : Subscriber)
    → p.subscribers i ≡ some s
    → (receive i p).subscribers i ≡ some (record s { channel = taken s.channel s.channel.queue })
unfolding receive
receive_here i p s there =
    let same : (i == i) ≡ true = ground arith in rw (receive, there) (rw same refl)

receive_apart :
    (i j : ℕ) (p : Publisher) → (j == i) ≡ false → (receive j p).subscribers i ≡ p.subscribers i
unfolding receive
receive_apart i j p apart = elim (Option-cases (p.subscribers j)) [
  | inl e ↦ elim (Option-cases (p.closed j)) [
    | inl e' ↦ rw (receive, e) (rw (receive, e') refl)
    | inr (c, e') ↦ rw (receive, e) (rw (receive, e') refl)
  ]
  | inr (t, e) ↦ rw (receive, e) (rw apart refl)
]

receive-Notified :
    (i j : ℕ) (p : Publisher) (s : Subscriber)
    → p.subscribers i ≡ some s
    → is_ready s.channel ≡ true
    → Notified i [] s (receive j p)
receive-Notified i j p s there ready = elim (Bool-cases (j == i)) [
  | inl same ↦
      let here : i ≡ j = ground arith in
      rw (← here) (
        record s { channel = taken s.channel s.channel.queue },
        receive_here i p s there,
        refl,
        taken-Delivered s.channel ready,
      )
  | inr apart ↦ (s, receive_apart i j p apart ∙ there, refl, Delivered-refl s.channel ready)
]

run_publisher_call-Notified :
    (i : ℕ) (c : PublisherCall) (cs : List PublisherCall) (p : Publisher) (s : Subscriber)
    → p.subscribers i ≡ some s
    → is_ready s.channel ≡ true
    → i < p.next
    → is_cancelled i (c ∷ cs) ≡ false
    → Notified i (event_of s.subscriber_document c) s (run_publisher_call c p)
unfolding run_publisher_call
run_publisher_call-Notified i (publish_call e) cs p s there ready below kept =
    publish-Notified i e p s there ready
run_publisher_call-Notified i (subscribe_call d buffer) cs p s there ready below kept =
    subscribe-Notified i d buffer p s there ready below
run_publisher_call-Notified i (cancel_call j) cs p s there ready below kept =
    cancel-Notified i j p s there ready (ground arith)
run_publisher_call-Notified i (receive_call j) cs p s there ready below kept =
    receive-Notified i j p s there ready

rest_kept :
    (i : ℕ) (c : PublisherCall) (cs : List PublisherCall)
    → is_cancelled i (c ∷ cs) ≡ false
    → is_cancelled i cs ≡ false
rest_kept i (cancel_call j) cs h = ground arith
rest_kept i (publish_call e) cs h = h
rest_kept i (subscribe_call d buffer) cs h = h
rest_kept i (receive_call j) cs h = h

cancel_next : (j : ℕ) (p : Publisher) → (cancel j p).next ≡ p.next
unfolding cancel
cancel_next j p = elim (Option-cases (p.subscribers j)) [
  | inl e ↦ rw (cancel, e) refl
  | inr (t, e) ↦ rw (cancel, e) refl
]

receive_next : (j : ℕ) (p : Publisher) → (receive j p).next ≡ p.next
unfolding receive
receive_next j p = elim (Option-cases (p.subscribers j)) [
  | inl e ↦ elim (Option-cases (p.closed j)) [
    | inl e' ↦ rw (receive, e) (rw (receive, e') refl)
    | inr (c, e') ↦ rw (receive, e) (rw (receive, e') refl)
  ]
  | inr (t, e) ↦ rw (receive, e) refl
]

next_moves :
    (c : PublisherCall) (p : Publisher)
    → p.next + 1 < 2 ^ 64
    → (p.next ≤ (run_publisher_call c p).next) × ((run_publisher_call c p).next ≤ p.next + 1)
unfolding run_publisher_call publish subscribe
next_moves (publish_call e) p bound = (omega arith, omega arith)
next_moves (subscribe_call d buffer) p bound = (omega arith, omega arith)
next_moves (cancel_call j) p bound = rw (cancel_next j p) (omega arith, omega arith)
next_moves (receive_call j) p bound = rw (receive_next j p) (omega arith, omega arith)

run_publisher_calls-Delivered :
    (cs : List PublisherCall) (i : ℕ) (p : Publisher) (s : Subscriber)
    → p.subscribers i ≡ some s
    → is_ready s.channel ≡ true
    → i < p.next
    → p.next + length cs < 2 ^ 64
    → is_cancelled i cs ≡ false
    → Notified i (events_of s.subscriber_document cs) s (run_publisher_calls cs p)
unfolding run_publisher_calls
run_publisher_calls-Delivered [] i p s there ready below bound kept =
    (s, there, refl, Delivered-refl s.channel ready)
run_publisher_calls-Delivered (c ∷ cs) i p s there ready below bound kept =
    let d : Bytes = s.subscriber_document in
    let (t, there', same, first) = run_publisher_call-Notified i c cs p s there ready below kept in
    let (up, near) = next_moves c p (omega arith) in
    let (u, there'', same', rest) =
      run_publisher_calls-Delivered cs i (run_publisher_call c p) t there' first.1 (omega arith)
        (omega arith) (rest_kept i c cs kept) in
    (
      u,
      there'',
      same' ∙ same,
      Delivered-trans (event_of d c) (events_of d cs) s.channel t.channel u.channel first
          (subst (λ (x : Bytes). Delivered (events_of x cs) t.channel u.channel) same rest),
    )

subscribe_here :
    (d : Bytes) (buffer : ℤ) (p : Publisher)
    → (subscribe d buffer p).subscribers p.next
      ≡ some (record { subscriber_document = d; channel = new_channel buffer })
unfolding subscribe
subscribe_here d buffer p = let same : (p.next == p.next) ≡ true = ground arith in rw same refl

subscribe_next :
    (d : Bytes) (buffer : ℤ) (p : Publisher)
    → p.next + 1 < 2 ^ 64
    → (subscribe d buffer p).next ≡ p.next + 1
unfolding subscribe
subscribe_next d buffer p bound = omega arith

new_channel_ready : (buffer : ℤ) → is_ready (new_channel buffer) ≡ true
new_channel_ready buffer = ground arith

queue_fits : (c : Channel) → is_ready c ≡ true → length c.queue ≤ c.capacity
queue_fits c ready = ground arith

-- From a subscription on, whatever calls are made, its own cancellation excepted, and while the
-- ids are within 64 bits: the subscriber is there, and what its receiver has got and what is
-- queued for it are together events that were published of its document, in their order; all of
-- them, unless these are more than the buffer holds. The queue is never longer than the buffer.
pub run_publisher_calls-subscribe :
    (d : Bytes) (buffer : ℤ) (cs : List PublisherCall) (p : Publisher)
    → p.next + 1 + length cs < 2 ^ 64
    → is_cancelled p.next cs ≡ false
    → (u : Subscriber) × ((run_publisher_calls cs (subscribe d buffer p)).subscribers p.next
        ≡ some u)
      × (length u.channel.queue ≤ buffer_size buffer)
      × Kept (u.channel.received ++ u.channel.queue) (events_of d cs)
      × ((buffer_size buffer < length (events_of d cs))
          ⊎ (u.channel.received ++ u.channel.queue ≡ events_of d cs))
run_publisher_calls-subscribe d buffer cs p bound kept =
    let next = subscribe_next d buffer p (omega arith) in
    let (u, there, same, (capacity, ready, short, xs, got, some_xs, all_xs)) =
      run_publisher_calls-Delivered cs p.next (subscribe d buffer p)
        (record { subscriber_document = d; channel = new_channel buffer })
        (subscribe_here d buffer p) (new_channel_ready buffer) (omega arith) (omega arith) kept in
    (
      u,
      there,
      rw (← capacity) (queue_fits u.channel ready),
      rw got some_xs,
      elim (Bool-cases (leb (length (events_of d cs)) (buffer_size buffer))) [
        | inl room ↦ inr (
            got
            ∙ all_xs (
                let fits : length (events_of d cs) ≤ buffer_size buffer = ground arith in
                omega arith))
        | inr more ↦ inl (ground arith)
      ],
    )
