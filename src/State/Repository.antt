-- ===== src/State/Repository.antt =====
-- The in-memory state repository
-- (packages/backend/src/analytics/persistence/in-memory-state.repository.ts, with the events of
-- packages/core/src/types/state/state-repository.types.ts). A write returns the event that it hands
-- to its listeners, if it hands out one.
pub mod Changes
pub mod Replay
use lametrader.Prelude.{
  ℕ, String, Bool, false, Option, none, some, List, [], ◌∷◌, if◌then◌else◌, text_keyed,
}
use lametrader.Prelude.Map
use lametrader.Prelude.Map.{Map}
use lametrader.Float.{Float}
use lametrader.State.{StateValue, state_value_equals}

pub data StateScopeSpec : Type 0 where
  one_symbol : String → StateScopeSpec
  everywhere : StateScopeSpec

pub record StateChangedEvent (N : Type 0) : Type 0 where
  pub profile_id : String
  pub scope : StateScopeSpec
  pub key : String
  pub prev : Option (StateValue N)
  pub current : Option (StateValue N)
  pub ts : ℕ

pub record StateRepository (N : Type 0) : Type 0 where
  -- profile id, symbol id, key
  pub symbol_store : Map String (Map String (Map String (StateValue N)))
  -- profile id, key
  pub global_store : Map String (Map String (StateValue N))

-- The map under a key, empty where there is none.
unfoldable pub bucket_at {ℓ} : {A : Type ℓ} → String → Map String (Map String A) → Map String A
bucket_at key store = elim (Map.get key store) [ none ↦ [] | some bucket ↦ bucket ]

module _ {N : Type 0} where
  unfoldable pub list_symbol_state : String → String → StateRepository N → Map String (StateValue N)
  unfolding bucket_at
  list_symbol_state profile_id symbol_id repo =
      bucket_at symbol_id (bucket_at profile_id repo.symbol_store)

  unfoldable pub get_symbol_state :
      String → String → String → StateRepository N → Option (StateValue N)
  unfolding list_symbol_state
  get_symbol_state profile_id symbol_id key repo =
      Map.get key (list_symbol_state profile_id symbol_id repo)

  unfoldable pub list_global_state : String → StateRepository N → Map String (StateValue N)
  unfolding bucket_at
  list_global_state profile_id repo = bucket_at profile_id repo.global_store

  unfoldable pub get_global_state : String → String → StateRepository N → Option (StateValue N)
  unfolding list_global_state
  get_global_state profile_id key repo = Map.get key (list_global_state profile_id repo)

  -- The repository with a symbol's map in place of the old one, which an open makes where there is
  -- none.
  unfoldable pub put_symbol_bucket :
      String → String → Map String (StateValue N) → StateRepository N → StateRepository N
  unfolding bucket_at
  put_symbol_bucket profile_id symbol_id bucket repo = record repo {
    symbol_store =
        Map.set profile_id (Map.set symbol_id bucket (bucket_at profile_id repo.symbol_store))
          repo.symbol_store;
  }

  unfoldable pub put_global_bucket :
      String → Map String (StateValue N) → StateRepository N → StateRepository N
  put_global_bucket profile_id bucket repo = record repo {
    global_store = Map.set profile_id bucket repo.global_store;
  }

  unfoldable pub remove_symbol_state :
      String
      → String
      → String
      → ℕ
      → StateRepository N
      → Option (StateChangedEvent N) × StateRepository N
  unfolding put_symbol_bucket list_symbol_state
  remove_symbol_state profile_id symbol_id key ts repo =
      let bucket = list_symbol_state profile_id symbol_id repo in
      elim (Map.get key bucket) [
        | none ↦ (none, repo)
        | some prev ↦ (
          some (record {
            profile_id = profile_id;
            scope = one_symbol symbol_id;
            key = key;
            prev = some prev;
            current = none;
            ts = ts;
          }),
          put_symbol_bucket profile_id symbol_id (Map.delete key bucket) repo,
        )
      ]

  unfoldable pub remove_global_state :
      String → String → ℕ → StateRepository N → Option (StateChangedEvent N) × StateRepository N
  unfolding put_global_bucket list_global_state
  remove_global_state profile_id key ts repo =
      let bucket = list_global_state profile_id repo in
      elim (Map.get key bucket) [
        | none ↦ (none, repo)
        | some prev ↦ (
          some (record {
            profile_id = profile_id;
            scope = everywhere;
            key = key;
            prev = some prev;
            current = none;
            ts = ts;
          }),
          put_global_bucket profile_id (Map.delete key bucket) repo,
        )
      ]

module _ {N : Type 0} ⦃f : Float N⦄ where
  -- Whether a write of the value changes nothing.
  unfoldable pub is_unchanged : Option (StateValue N) → StateValue N → Bool
  is_unchanged none value = false
  is_unchanged (some prev) value = state_value_equals prev value

  unfoldable pub set_symbol_state :
      String
      → String
      → String
      → StateValue N
      → ℕ
      → StateRepository N
      → Option (StateChangedEvent N) × StateRepository N
  unfolding put_symbol_bucket list_symbol_state is_unchanged
  set_symbol_state profile_id symbol_id key value ts repo =
      let bucket = list_symbol_state profile_id symbol_id repo in
      let prev = Map.get key bucket in
      if is_unchanged prev value
      then (none, put_symbol_bucket profile_id symbol_id bucket repo)
      else (
        some (record {
          profile_id = profile_id;
          scope = one_symbol symbol_id;
          key = key;
          prev = prev;
          current = some value;
          ts = ts;
        }),
        put_symbol_bucket profile_id symbol_id (Map.set key value bucket) repo,
      )

  unfoldable pub set_global_state :
      String
      → String
      → StateValue N
      → ℕ
      → StateRepository N
      → Option (StateChangedEvent N) × StateRepository N
  unfolding put_global_bucket list_global_state is_unchanged
  set_global_state profile_id key value ts repo =
      let bucket = list_global_state profile_id repo in
      let prev = Map.get key bucket in
      if is_unchanged prev value then (none, put_global_bucket profile_id bucket repo) else (
        some (record {
          profile_id = profile_id;
          scope = everywhere;
          key = key;
          prev = prev;
          current = some value;
          ts = ts;
        }),
        put_global_bucket profile_id (Map.set key value bucket) repo,
      )
