-- ===== src/Delivery/Subscriptions.antt =====
-- The subscriptions of one socket (`SocketSubscriptions` of
-- packages/backend/src/delivery/subscription-registry.ts). A kind is its subscribe action, and a
-- key is a text. What the socket holds at the hubs is part of the state, each subscription with the
-- number that stands for its unsubscribe function.
pub mod Released
use lametrader.Prelude.{
  ℕ, ◌+◌, Bool, true, false, not, String, Option, none, some, List, [], ◌∷◌, ◌++◌, map, filter,
  includes, if◌then◌else◌, ◌==◌, number_keyed, text_keyed,
}
use lametrader.Prelude.Map
use lametrader.Prelude.Map.{Map, values}
use lametrader.State.Repository.{bucket_at}

pub record HubSubscription : Type 0 where
  pub handle : ℕ
  pub kind : String
  pub key : String

pub record SocketSubscriptions : Type 0 where
  -- kind, key
  pub active : Map String (Map String ℕ)
  pub closed : Bool
  pub hub : List HubSubscription
  pub next_handle : ℕ
  -- the calls of `release`, the newest first
  pub released : List (String × String)

abbrev pub active_handle : String → String → SocketSubscriptions → Option ℕ
active_handle kind key s = Map.get key (bucket_at kind s.active)

-- What an unsubscribe function does.
unfoldable pub unsubscribe_hub : List ℕ → List HubSubscription → List HubSubscription
unsubscribe_hub handles = filter (λ h. not (includes handles h.handle))

-- `runSubscribe` once `acquire` has resolved to a key.
unfoldable pub subscribe_acquired : String → String → SocketSubscriptions → SocketSubscriptions
unfolding bucket_at
subscribe_acquired kind key s =
    if s.closed then record s { released = (kind, key) ∷ s.released } else record s {
      active = Map.set kind (Map.set key s.next_handle (bucket_at kind s.active)) s.active;
      hub = record { handle = s.next_handle; kind = kind; key = key } ∷ s.hub;
      next_handle = s.next_handle + 1;
    }

abbrev pub handles_of : Option ℕ → List ℕ
handles_of none = []
handles_of (some h) = h ∷ []

-- `runUnsubscribe` of a validated key; a kind without a map is left so.
unfoldable pub unsubscribe : String → String → SocketSubscriptions → SocketSubscriptions
unfolding unsubscribe_hub bucket_at
unsubscribe kind key s =
    let active = elim (Map.get kind s.active) as (λ b. Map String (Map String ℕ)) [
      | none ↦ s.active
      | some keys ↦ Map.set kind (Map.delete key keys) s.active
    ] in
    record s {
      active = active;
      hub = unsubscribe_hub (handles_of (active_handle kind key s)) s.hub;
      released = (kind, key) ∷ s.released;
    }

unfoldable pub all_handles : List (String × Map String ℕ) → List ℕ
all_handles [] = []
all_handles ((kind, keys) ∷ rest) = values keys ++ all_handles rest

unfoldable pub released_keys : String → List (String × ℕ) → List (String × String)
released_keys kind [] = []
released_keys kind ((key, h) ∷ rest) = (kind, key) ∷ released_keys kind rest

unfoldable pub release_all : List (String × Map String ℕ) → List (String × String)
unfolding released_keys
release_all [] = []
release_all ((kind, keys) ∷ rest) = released_keys kind keys ++ release_all rest

unfoldable pub cleanup : SocketSubscriptions → SocketSubscriptions
unfolding unsubscribe_hub all_handles release_all
cleanup s = if s.closed then s else record s {
  closed = true;
  active = map (λ e. (e.0, [])) s.active;
  hub = unsubscribe_hub (all_handles s.active) s.hub;
  released = release_all s.active ++ s.released;
}

pub data SocketEvent : Type 0 where
  acquired : String → String → SocketEvent
  unsubscribed : String → String → SocketEvent
  closes : SocketEvent

abbrev pub run_event : SocketEvent → SocketSubscriptions → SocketSubscriptions
run_event (acquired kind key) s = subscribe_acquired kind key s
run_event (unsubscribed kind key) s = unsubscribe kind key s
run_event closes s = cleanup s

abbrev pub no_subscriptions : SocketSubscriptions
no_subscriptions = record { active = []; closed = false; hub = []; next_handle = 0; released = [] }
