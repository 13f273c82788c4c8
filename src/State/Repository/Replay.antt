-- ===== src/State/Repository/Replay.antt =====
-- The events of a state repository tell every change.
use lametrader.Prelude.{
  ℕ, String, ◌≡◌, refl, ◌∙◌, ap, true, Option, none, List, [], ◌∷◌, arith, ==_refl, text_keyed,
}
use lametrader.Prelude.Map
use lametrader.Prelude.Map.{Map, get-set, get-delete}
use lametrader.Float.{Float}
use lametrader.State.{StateValue, state_value_equals}
use lametrader.State.Repository.{
  StateScopeSpec, one_symbol, StateChangedEvent, StateRepository, list_symbol_state,
  get_symbol_state, is_unchanged, set_symbol_state,
}
use lametrader.State.Repository.Changes.{
  StateWrite, read, after_events, apply_write, read-apply_write, read-put_symbol,
}

module _ {N : Type 0} ⦃f : Float N⦄ where
  -- The writes in order: the events that they emit, and the repository after.
  unfoldable pub apply_writes :
      List (StateWrite N)
      → StateRepository N
      → List (Option (StateChangedEvent N)) × StateRepository N
  apply_writes [] repo = ([], repo)
  apply_writes (write ∷ writes) repo =
      let (event, repo') = apply_write write repo in
      let (events, repo'') = apply_writes writes repo' in (event ∷ events, repo'')

  -- The value of a slot by the events alone.
  abbrev pub replay :
      List (Option (StateChangedEvent N))
      → String
      → StateScopeSpec
      → String
      → Option (StateValue N)
      → Option (StateValue N)
  replay [] profile_id scope key old = old
  replay (event ∷ events) profile_id scope key old =
      replay events profile_id scope key (after_events event profile_id scope key old)

  -- The emitted events tell every change: after any writes, set or removed, of symbols' and global
  -- state, each slot of each profile has the value that replaying the emitted events on its first
  -- value gives.
  pub apply_writes-replay :
      (writes : List (StateWrite N)) (repo : StateRepository N) (profile_id : String)
      (scope : StateScopeSpec) (key : String)
      → read profile_id scope key (apply_writes writes repo).1
        ≡ replay (apply_writes writes repo).0 profile_id scope key (read profile_id scope key repo)
  unfolding apply_writes
  apply_writes-replay [] repo profile_id scope key = refl
  apply_writes-replay (write ∷ writes) repo profile_id scope key =
      apply_writes-replay writes (apply_write write repo).1 profile_id scope key
      ∙ ap (replay (apply_writes writes (apply_write write repo).1).0 profile_id scope key)
          (read-apply_write write repo profile_id scope key)

  -- For a value that equals itself: a second write of it to a symbol's key right after the first
  -- emits nothing.
  pub set_symbol_state-again :
      (p y k : String) (v : StateValue N) (ts ts' : ℕ) (repo : StateRepository N)
      → state_value_equals v v ≡ true
      → (set_symbol_state p y k v ts' (set_symbol_state p y k v ts repo).1).0 ≡ none
  unfolding set_symbol_state get_symbol_state is_unchanged
  set_symbol_state-again p y k v ts ts' repo same =
      let bucket = list_symbol_state p y repo in
      ground (
        arith,
        read-put_symbol p y bucket repo p (one_symbol y) k,
        read-put_symbol p y (Map.set k v bucket) repo p (one_symbol y) k,
        get-set k k v bucket,
        ==_refl p,
        ==_refl y,
        ==_refl k,
      )
