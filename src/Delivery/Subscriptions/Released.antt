-- ===== src/Delivery/Subscriptions/Released.antt =====
-- A closed socket holds nothing at the hubs.
use lametrader.Prelude.{
  ℕ, ◌+◌, ◌≡◌, refl, ap, ◌∙◌, Bool, true, false, String, none, some, List, [], ◌∷◌, ◌++◌, All,
  includes, inl, inr, Bool-cases, Option-cases, if◌then◌else◌, ◌==◌, ==_iff, ==_refl, number_keyed,
  text_keyed, arith,
}
use lametrader.Prelude.Map
use lametrader.Prelude.Map.{Map, values, get-set, get-delete}
use lametrader.State.Repository.{bucket_at}
use lametrader.Delivery.Subscriptions.{
  HubSubscription, SocketSubscriptions, active_handle, unsubscribe_hub, subscribe_acquired,
  unsubscribe, handles_of, all_handles, cleanup, SocketEvent, acquired, unsubscribed, closes,
  run_event, no_subscriptions,
}

-- The socket has the unsubscribe function of a subscription at a hub under its kind and key.
abbrev pub Holds : SocketSubscriptions → HubSubscription → Type 0
Holds s h = active_handle h.kind h.key s ≡ some h.handle

-- It has that of every one, and there is none once it is closed.
abbrev pub IsHeld : SocketSubscriptions → Type 0
IsHeld s = All (Holds s) s.hub × (s.closed ≡ true → s.hub ≡ [])

includes-values :
    (k : String) (v : ℕ) (m : Map String ℕ) → Map.get k m ≡ some v → includes (values m) v ≡ true
unfolding Map.get
includes-values k v [] h = absurd (ground arith)
includes-values k v ((j, w) ∷ m) h = ground (arith, includes-values k v m, ==_iff w v)

includes_left : (xs ys : List ℕ) (v : ℕ) → includes xs v ≡ true → includes (xs ++ ys) v ≡ true
includes_left [] ys v h = absurd (ground arith)
includes_left (x ∷ xs) ys v h = ground (arith, includes_left xs ys v)

includes_right : (xs ys : List ℕ) (v : ℕ) → includes ys v ≡ true → includes (xs ++ ys) v ≡ true
includes_right [] ys v h = h
includes_right (x ∷ xs) ys v h = ground (arith, includes_right xs ys v h)

includes-all_handles :
    (kind key : String) (v : ℕ) (m : Map String (Map String ℕ))
    → Map.get key (bucket_at kind m) ≡ some v
    → includes (all_handles m) v ≡ true
unfolding all_handles bucket_at Map.get
includes-all_handles kind key v [] h = absurd (ground arith)
includes-all_handles kind key v ((j, keys) ∷ m) h = elim (Bool-cases (j == kind)) [
  | inl e ↦
      includes_left (values keys) (all_handles m) v
        (includes-values key v keys (rw (e, Map.get) at h))
  | inr e ↦
      includes_right (values keys) (all_handles m) v
        (includes-all_handles kind key v m (rw (e, Map.get) at h))
]

none_left :
    (handles : List ℕ) (hub : List HubSubscription)
    → All (λ h. includes handles h.handle ≡ true) hub
    → unsubscribe_hub handles hub ≡ []
unfolding unsubscribe_hub
none_left handles [] a = refl
none_left handles (h ∷ hub) a = ground (arith, none_left handles hub a.1)

bucket_at-set :
    (k j : String) (b : Map String ℕ) (m : Map String (Map String ℕ))
    → bucket_at j (Map.set k b m) ≡ (if k == j then b else bucket_at j m)
unfolding bucket_at
bucket_at-set k j b m = ground (arith, get-set k j b m)

All-held :
    (s : SocketSubscriptions) (hub : List HubSubscription)
    → All (Holds s) hub
    → All (λ h. includes (all_handles s.active) h.handle ≡ true) hub
All-held s [] a = tt
All-held s (h ∷ hub) a =
    (includes-all_handles h.kind h.key h.handle s.active a.0, All-held s hub a.1)

empty-IsHeld : (s : SocketSubscriptions) → s.hub ≡ [] → IsHeld s
empty-IsHeld s q = rw q (tt, λ c. refl)

cleanup-hub : (s : SocketSubscriptions) → IsHeld s → (cleanup s).hub ≡ []
unfolding cleanup
cleanup-hub s h = elim (Bool-cases s.closed) [
  | inl e ↦ rw (e, cleanup) (h.1 e)
  | inr e ↦ rw (e, cleanup) (none_left (all_handles s.active) s.hub (All-held s s.hub h.0))
]

module _ (kind key : String) (s : SocketSubscriptions) where
  abbrev with_new : Map String (Map String ℕ)
  with_new = Map.set kind (Map.set key s.next_handle (bucket_at kind s.active)) s.active

  new-Holds :
      (h : HubSubscription)
      → active_handle kind key s ≡ none
      → Holds s h
      → Map.get h.key (bucket_at h.kind with_new) ≡ some h.handle
  new-Holds h fresh held =
      let bucket =
        bucket_at-set kind h.kind (Map.set key s.next_handle (bucket_at kind s.active)) s.active in
      let slot = get-set key h.key s.next_handle (bucket_at kind s.active) in
      ground (arith, ==_iff kind h.kind, ==_iff key h.key)

  new-own : Map.get key (bucket_at kind with_new) ≡ some s.next_handle
  new-own =
      let bucket =
        bucket_at-set kind kind (Map.set key s.next_handle (bucket_at kind s.active)) s.active in
      let slot = get-set key key s.next_handle (bucket_at kind s.active) in
      ground (arith, ==_refl kind, ==_refl key)

  All-new :
      (hub : List HubSubscription)
      → active_handle kind key s ≡ none
      → All (Holds s) hub
      → All (λ h. Map.get h.key (bucket_at h.kind with_new) ≡ some h.handle) hub
  All-new [] fresh a = tt
  All-new (h ∷ hub) fresh a = (new-Holds h fresh a.0, All-new hub fresh a.1)

  subscribe-IsHeld :
      active_handle kind key s ≡ none → IsHeld s → IsHeld (subscribe_acquired kind key s)
  unfolding subscribe_acquired
  subscribe-IsHeld fresh held = by_closed s.closed refl
    where
      by_closed :
          (b : Bool)
          → s.closed ≡ b
          → IsHeld (
              if b then record s { released = (kind, key) ∷ s.released } else record s {
                active = with_new;
                hub = record { handle = s.next_handle; kind = kind; key = key } ∷ s.hub;
                next_handle = s.next_handle + 1;
              })
      by_closed true q = held
      by_closed false q = ((new-own, All-new s.hub fresh held.0), λ c. absurd (ground arith))

  kept-Holds :
      (h : HubSubscription)
      → Holds s h
      → includes (handles_of (active_handle kind key s)) h.handle ≡ false
      → Holds (unsubscribe kind key s) h
  unfolding unsubscribe bucket_at
  kept-Holds h held apart = elim (Option-cases (Map.get kind s.active)) [
    | inl e ↦ rw (e, unsubscribe) held
    | inr (keys, e) ↦
        let bucket = get-set kind h.kind (Map.delete key keys) s.active in
        let slot = get-delete key h.key keys in
        rw (e, unsubscribe) (ground (arith, ==_iff kind h.kind, ==_iff key h.key, ==_refl h.handle))
  ]

  All-kept :
      (hub : List HubSubscription)
      → All (Holds s) hub
      → All
          (Holds (unsubscribe kind key s))
          (unsubscribe_hub (handles_of (active_handle kind key s)) hub)
  unfolding unsubscribe_hub
  All-kept [] a = tt
  All-kept (h ∷ hub) a =
      elim (Bool-cases (includes (handles_of (active_handle kind key s)) h.handle)) [
        | inl e ↦ rw e (All-kept hub a.1)
        | inr e ↦ rw e (kept-Holds h a.0 e, All-kept hub a.1)
      ]

  unsubscribe-IsHeld : IsHeld s → IsHeld (unsubscribe kind key s)
  unfolding unsubscribe
  unsubscribe-IsHeld held = (
    All-kept s.hub held.0,
    λ c.
        ap (unsubscribe_hub (handles_of (active_handle kind key s))) (held.1 c)
        ∙ none_left (handles_of (active_handle kind key s)) [] tt,
  )

abbrev pub run_events : List SocketEvent → SocketSubscriptions → SocketSubscriptions
run_events [] s = s
run_events (e ∷ events) s = run_events events (run_event e s)

-- No key is acquired while the socket has it already.
abbrev pub IsFresh : List SocketEvent → SocketSubscriptions → Type 0
IsFresh [] s = Unit
IsFresh (acquired kind key ∷ events) s =
    (active_handle kind key s ≡ none) × IsFresh events (subscribe_acquired kind key s)
IsFresh (unsubscribed kind key ∷ events) s = IsFresh events (unsubscribe kind key s)
IsFresh (closes ∷ events) s = IsFresh events (cleanup s)

run_events-keeps :
    (events : List SocketEvent) (s : SocketSubscriptions)
    → IsFresh events s
    → IsHeld s
    → IsHeld (run_events events s)
run_events-keeps [] s f h = h
run_events-keeps (acquired kind key ∷ events) s f h =
    run_events-keeps events (subscribe_acquired kind key s) f.1 (subscribe-IsHeld kind key s f.0 h)
run_events-keeps (unsubscribed kind key ∷ events) s f h =
    run_events-keeps events (unsubscribe kind key s) f (unsubscribe-IsHeld kind key s h)
run_events-keeps (closes ∷ events) s f h =
    run_events-keeps events (cleanup s) f (empty-IsHeld (cleanup s) (cleanup-hub s h))

-- Whatever a socket acquires, unsubscribes and closes, in any order, where no key is acquired while
-- the socket has it already: the socket can undo every subscription that it has at a hub, and it
-- has none once it is closed, also where an `acquire` resolves after the close.
pub run_events-IsHeld :
    (events : List SocketEvent)
    → IsFresh events no_subscriptions
    → IsHeld (run_events events no_subscriptions)
run_events-IsHeld events f = run_events-keeps events no_subscriptions f (tt, λ c. refl)
