-- ===== src/State/Repository/Changes.antt =====
-- The events of a state repository describe its writes.
use lametrader.Prelude.{
  ℕ, String, ◌≡◌, Bool, true, false, ◌&&◌, Option, none, some, if◌then◌else◌, arith, ◌==◌, ==_iff,
  text_keyed,
}
use lametrader.Prelude.Map
use lametrader.Prelude.Map.{Map, get-set, get-delete}
use lametrader.Float.{Float}
use lametrader.State.{StateValue}
use lametrader.State.Repository.{
  StateScopeSpec, one_symbol, everywhere, StateChangedEvent, StateRepository, bucket_at,
  list_symbol_state, get_symbol_state, list_global_state, get_global_state, put_symbol_bucket,
  put_global_bucket, set_symbol_state, remove_symbol_state, set_global_state, remove_global_state,
}

-- The four writes: profile id, symbol id where there is one, key, value where there is one, time.
pub data StateWrite (N : Type 0) : Type 0 where
  set_symbol : String → String → String → StateValue N → ℕ → StateWrite N
  remove_symbol : String → String → String → ℕ → StateWrite N
  set_global : String → String → StateValue N → ℕ → StateWrite N
  remove_global : String → String → ℕ → StateWrite N

abbrev pub scope_beq : StateScopeSpec → StateScopeSpec → Bool
scope_beq (one_symbol y) (one_symbol z) = y == z
scope_beq everywhere everywhere = true
scope_beq _ _ = false

bucket_at-set :
    {A : Type 0} (k j : String) (b : Map String A) (m : Map String (Map String A))
    → bucket_at j (Map.set k b m) ≡ (if k == j then b else bucket_at j m)
unfolding bucket_at
bucket_at-set k j b m = ground (arith, get-set k j b m)

module _ {N : Type 0} where
  abbrev pub read : String → StateScopeSpec → String → StateRepository N → Option (StateValue N)
  read profile_id (one_symbol symbol_id) key repo = get_symbol_state profile_id symbol_id key repo
  read profile_id everywhere key repo = get_global_state profile_id key repo

  -- A slot's value after a change: the event's own where it is the event's slot.
  abbrev pub after_event :
      StateChangedEvent N
      → String
      → StateScopeSpec
      → String
      → Option (StateValue N)
      → Option (StateValue N)
  after_event event profile_id scope key old =
      if event.profile_id == profile_id && (scope_beq event.scope scope && event.key == key)
      then event.current
      else old

  pub read-put_symbol :
      (p y : String) (bucket : Map String (StateValue N)) (repo : StateRepository N)
      (profile_id : String) (scope : StateScopeSpec) (key : String)
      → read profile_id scope key (put_symbol_bucket p y bucket repo) ≡ (
          if p == profile_id && scope_beq (one_symbol y) scope
          then Map.get key bucket
          else read profile_id scope key repo)
  unfolding put_symbol_bucket get_symbol_state list_symbol_state get_global_state list_global_state
  read-put_symbol p y bucket repo profile_id (one_symbol z) key = ground (
    arith,
    bucket_at-set p profile_id (Map.set y bucket (bucket_at p repo.symbol_store)) repo.symbol_store,
    bucket_at-set y z bucket (bucket_at p repo.symbol_store),
    ==_iff p profile_id,
  )
  read-put_symbol p y bucket repo profile_id everywhere key = ground arith

  read-put_global :
      (p : String) (bucket : Map String (StateValue N)) (repo : StateRepository N)
      (profile_id : String) (scope : StateScopeSpec) (key : String)
      → read profile_id scope key (put_global_bucket p bucket repo) ≡ (
          if p == profile_id && scope_beq everywhere scope
          then Map.get key bucket
          else read profile_id scope key repo)
  unfolding put_global_bucket get_symbol_state list_symbol_state get_global_state list_global_state
  read-put_global p bucket repo profile_id (one_symbol z) key = ground arith
  read-put_global p bucket repo profile_id everywhere key =
      ground (arith, bucket_at-set p profile_id bucket repo.global_store)

  abbrev pub after_events :
      Option (StateChangedEvent N)
      → String
      → StateScopeSpec
      → String
      → Option (StateValue N)
      → Option (StateValue N)
  after_events none profile_id scope key old = old
  after_events (some event) profile_id scope key old = after_event event profile_id scope key old

module _ {N : Type 0} ⦃f : Float N⦄ where
  unfoldable pub apply_write :
      StateWrite N → StateRepository N → Option (StateChangedEvent N) × StateRepository N
  apply_write (set_symbol p y k v ts) repo = set_symbol_state p y k v ts repo
  apply_write (remove_symbol p y k ts) repo = remove_symbol_state p y k ts repo
  apply_write (set_global p k v ts) repo = set_global_state p k v ts repo
  apply_write (remove_global p k ts) repo = remove_global_state p k ts repo

  module _ (p y k : String) (repo : StateRepository N) (profile_id key : String) where
    read-set_symbol :
        (v : StateValue N) (ts : ℕ) (scope : StateScopeSpec)
        → read profile_id scope key (set_symbol_state p y k v ts repo).1
          ≡ after_events
              (set_symbol_state p y k v ts repo).0
              profile_id
              scope
              key
              (read profile_id scope key repo)
    unfolding set_symbol_state get_symbol_state
    read-set_symbol v ts (one_symbol z) =
        let bucket = list_symbol_state p y repo in
        ground (
          arith,
          read-put_symbol p y bucket repo profile_id (one_symbol z) key,
          read-put_symbol p y (Map.set k v bucket) repo profile_id (one_symbol z) key,
          get-set k key v bucket,
          ==_iff p profile_id,
          ==_iff y z,
        )
    read-set_symbol v ts everywhere =
        let bucket = list_symbol_state p y repo in
        ground (
          arith,
          read-put_symbol p y bucket repo profile_id everywhere key,
          read-put_symbol p y (Map.set k v bucket) repo profile_id everywhere key,
        )

    read-remove_symbol :
        (ts : ℕ) (scope : StateScopeSpec)
        → read profile_id scope key (remove_symbol_state p y k ts repo).1
          ≡ after_events
              (remove_symbol_state p y k ts repo).0
              profile_id
              scope
              key
              (read profile_id scope key repo)
    unfolding remove_symbol_state get_symbol_state
    read-remove_symbol ts (one_symbol z) =
        let bucket = list_symbol_state p y repo in
        ground (
          arith,
          read-put_symbol p y (Map.delete k bucket) repo profile_id (one_symbol z) key,
          get-delete k key bucket,
          ==_iff p profile_id,
          ==_iff y z,
        )
    read-remove_symbol ts everywhere = ground (
      arith,
      read-put_symbol p y (Map.delete k (list_symbol_state p y repo)) repo profile_id everywhere
          key,
    )

  module _ (p k : String) (repo : StateRepository N) (profile_id key : String) where
    read-set_global :
        (v : StateValue N) (ts : ℕ) (scope : StateScopeSpec)
        → read profile_id scope key (set_global_state p k v ts repo).1
          ≡ after_events
              (set_global_state p k v ts repo).0
              profile_id
              scope
              key
              (read profile_id scope key repo)
    unfolding set_global_state get_global_state
    read-set_global v ts (one_symbol z) =
        let bucket = list_global_state p repo in
        ground (
          arith,
          read-put_global p bucket repo profile_id (one_symbol z) key,
          read-put_global p (Map.set k v bucket) repo profile_id (one_symbol z) key,
        )
    read-set_global v ts everywhere =
        let bucket = list_global_state p repo in
        ground (
          arith,
          read-put_global p bucket repo profile_id everywhere key,
          read-put_global p (Map.set k v bucket) repo profile_id everywhere key,
          get-set k key v bucket,
          ==_iff p profile_id,
        )

    read-remove_global :
        (ts : ℕ) (scope : StateScopeSpec)
        → read profile_id scope key (remove_global_state p k ts repo).1
          ≡ after_events
              (remove_global_state p k ts repo).0
              profile_id
              scope
              key
              (read profile_id scope key repo)
    unfolding remove_global_state get_global_state
    read-remove_global ts (one_symbol z) =
        let bucket = list_global_state p repo in
        ground (arith, read-put_global p (Map.delete k bucket) repo profile_id (one_symbol z) key)
    read-remove_global ts everywhere =
        let bucket = list_global_state p repo in
        ground (
          arith,
          read-put_global p (Map.delete k bucket) repo profile_id everywhere key,
          get-delete k key bucket,
          ==_iff p profile_id,
        )

  pub read-apply_write :
      (write : StateWrite N) (repo : StateRepository N) (profile_id : String)
      (scope : StateScopeSpec) (key : String)
      → read profile_id scope key (apply_write write repo).1
        ≡ after_events
            (apply_write write repo).0
            profile_id
            scope
            key
            (read profile_id scope key repo)
  unfolding apply_write
  read-apply_write (set_symbol p y k v ts) repo profile_id scope key =
      read-set_symbol p y k repo profile_id key v ts scope
  read-apply_write (remove_symbol p y k ts) repo profile_id scope key =
      read-remove_symbol p y k repo profile_id key ts scope
  read-apply_write (set_global p k v ts) repo profile_id scope key =
      read-set_global p k repo profile_id key v ts scope
  read-apply_write (remove_global p k ts) repo profile_id scope key =
      read-remove_global p k repo profile_id key ts scope
