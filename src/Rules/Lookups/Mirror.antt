-- ===== src/Rules/Lookups/Mirror.antt =====
-- The mirror of the state agrees with the repository.
use text.Mathlib.TextLemmas.{nil-append, cons-append}
use lametrader.Prelude.{
  ℕ, ◌≡◌, refl, sym, ap, ◌∙◌, Bool, true, ◌&&◌, String, Option, none, some, List, [], ◌∷◌, All, inl,
  inr, Bool-cases, if◌then◌else◌, ◌==◌, ==_iff, text_keyed, arith,
}
use lametrader.Prelude.Map
use lametrader.Prelude.Map.{Map, get-set, get-delete}
use lametrader.Float.{Float}
use lametrader.Text.{append, bar, no_bar, first_part}
use lametrader.State.{StateValue}
use lametrader.State.Repository.{
  StateRepository, StateChangedEvent, StateScopeSpec, one_symbol, everywhere,
}
use lametrader.State.Repository.Changes.{StateWrite, read, after_event}
use lametrader.State.Repository.Replay.{apply_writes, replay, apply_writes-replay}
use lametrader.Rules.Lookups.{
  LiveEvaluationLookups, symbol_state_key, global_state_key, put_or_delete, mirror_change,
  mirrored_symbol_state, mirrored_global_state,
}

abbrev pub no_bar_scope : StateScopeSpec → Bool
no_bar_scope (one_symbol s) = no_bar s
no_bar_scope everywhere = true

-- `<text>|<rest>`, of which the text has no separator.
abbrev front_key : String → String → String
front_key p k = append p (append "|" k)

front_key-bar : (p k : String) → front_key p k ≡ append p (String.◌∷◌ bar k)
front_key-bar p k = rw (cons-append, nil-append) refl

front_key-eq :
    (p q k j : String)
    → no_bar p ≡ true
    → no_bar q ≡ true
    → (front_key p k == front_key q j) ≡ (p == q && k == j)
front_key-eq p q k j np nq = elim (Bool-cases (front_key p k == front_key q j)) [
  | inl e ↦
      let (front, rest) =
        first_part p q k j np nq (sym (front_key-bar p k) ∙ (==_iff _ _).0 e ∙ front_key-bar q j) in
      ground (arith, ==_iff p q, ==_iff k j)
  | inr e ↦ elim (Bool-cases (p == q && k == j)) [
    | inl r ↦
        let front : p ≡ q = ground (arith, ==_iff p q) in
        let rest : k ≡ j = ground (arith, ==_iff k j) in
        let same : front_key p k ≡ front_key q j =
          ap (λ z. front_key z k) front ∙ ap (front_key q) rest in
        ground (arith, ==_iff (front_key p k) (front_key q j))
    | inr r ↦ e ∙ sym r
  ]
]

module _ {N : Type 0} where
  abbrev pub mirrored :
      String → StateScopeSpec → String → LiveEvaluationLookups N → Option (StateValue N)
  mirrored profile_id (one_symbol symbol_id) key lookups =
      mirrored_symbol_state profile_id symbol_id key lookups
  mirrored profile_id everywhere key lookups = mirrored_global_state profile_id key lookups

  -- The profile and the symbol of an event have no separator.
  abbrev pub IsPlain : Option (StateChangedEvent N) → Type 0
  IsPlain none = Unit
  IsPlain (some event) = (no_bar event.profile_id ≡ true) × (no_bar_scope event.scope ≡ true)

  abbrev pub mirror_all :
      List (Option (StateChangedEvent N)) → LiveEvaluationLookups N → LiveEvaluationLookups N
  mirror_all [] lookups = lookups
  mirror_all (none ∷ events) lookups = mirror_all events lookups
  mirror_all (some event ∷ events) lookups = mirror_all events (mirror_change event lookups)

  get-put_or_delete :
      (k j : String) (v : Option (StateValue N)) (m : Map String (StateValue N))
      → Map.get j (put_or_delete k v m) ≡ (if k == j then v else Map.get j m)
  unfolding put_or_delete
  get-put_or_delete k j none m = get-delete k j m
  get-put_or_delete k j (some v) m = get-set k j v m

  mirrored-change :
      (p key : String) (scope : StateScopeSpec) (prev current : Option (StateValue N)) (ts : ℕ)
      (lookups : LiveEvaluationLookups N) (profile_id : String) (wanted : StateScopeSpec)
      (k : String)
      → no_bar p ≡ true
      → no_bar_scope scope ≡ true
      → no_bar profile_id ≡ true
      → no_bar_scope wanted ≡ true
      → let event : StateChangedEvent N = record {
        profile_id = p;
        scope = scope;
        key = key;
        prev = prev;
        current = current;
        ts = ts;
      } in
        mirrored profile_id wanted k (mirror_change event lookups)
        ≡ after_event event profile_id wanted k (mirrored profile_id wanted k lookups)
  unfolding mirror_change mirrored_symbol_state mirrored_global_state symbol_state_key
      global_state_key
  mirrored-change p key (one_symbol s) prev current ts lookups q (one_symbol t) k np ns nq nt =
      get-put_or_delete (front_key p (front_key s key)) (front_key q (front_key t k)) current
        lookups.symbol_state
      ∙ ap (λ b. if b then current else Map.get (front_key q (front_key t k)) lookups.symbol_state)
          (front_key-eq p q (front_key s key) (front_key t k) np nq
            ∙ ap (λ b. p == q && b) (front_key-eq s t key k ns nt))
  mirrored-change p key (one_symbol s) prev current ts lookups q everywhere k np ns nq nt =
      ground arith
  mirrored-change p key everywhere prev current ts lookups q (one_symbol t) k np ns nq nt =
      ground arith
  mirrored-change p key everywhere prev current ts lookups q everywhere k np ns nq nt =
      get-put_or_delete (front_key p key) (front_key q k) current lookups.global_state
      ∙ ap (λ b. if b then current else Map.get (front_key q k) lookups.global_state)
          (front_key-eq p q key k np nq)

module _ {N : Type 0} ⦃f : Float N⦄ where
  mirrored-replay :
      (events : List (Option (StateChangedEvent N))) (lookups : LiveEvaluationLookups N)
      (profile_id : String) (scope : StateScopeSpec) (key : String)
      → All IsPlain events
      → no_bar profile_id ≡ true
      → no_bar_scope scope ≡ true
      → mirrored profile_id scope key (mirror_all events lookups)
        ≡ replay events profile_id scope key (mirrored profile_id scope key lookups)
  mirrored-replay [] lookups p scope key h np ns = refl
  mirrored-replay (none ∷ events) lookups p scope key h np ns =
      mirrored-replay events lookups p scope key h.1 np ns
  mirrored-replay (some event ∷ events) lookups p scope key h np ns =
      mirrored-replay events (mirror_change event lookups) p scope key h.1 np ns
      ∙ ap (replay events p scope key) (
          mirrored-change event.profile_id event.key event.scope event.prev event.current event.ts
            lookups p scope key h.0.0 h.0.1 np ns)

  -- After any writes to the state repository, the mirror that took the events they emitted gives
  -- for each slot what the repository gives, where it did before them, and where neither a
  -- profile's id nor a symbol's holds the separator of the mirror's keys.
  pub mirrored-read :
      (writes : List (StateWrite N)) (repo : StateRepository N) (lookups : LiveEvaluationLookups N)
      (profile_id : String) (scope : StateScopeSpec) (key : String)
      → All IsPlain (apply_writes writes repo).0
      → no_bar profile_id ≡ true
      → no_bar_scope scope ≡ true
      → mirrored profile_id scope key lookups ≡ read profile_id scope key repo
      → mirrored profile_id scope key (mirror_all (apply_writes writes repo).0 lookups)
        ≡ read profile_id scope key (apply_writes writes repo).1
  mirrored-read writes repo lookups p scope key h np ns same =
      mirrored-replay (apply_writes writes repo).0 lookups p scope key h np ns
      ∙ ap (replay (apply_writes writes repo).0 p scope key) same
      ∙ sym (apply_writes-replay writes repo p scope key)
