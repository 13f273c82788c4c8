-- ===== src/Rules/Bridges/BarLifecycle/InOrder.antt =====
-- Over candles in order, a bar opens at its first candle and closes at its first final one.
use mathlib.Core.Path.{fun_ext, ap₂}
use lametrader.Prelude.{
  ℕ, ◌≤◌, ◌≡◌, refl, ap, ◌∙◌, Bool, true, false, not, ◌&&◌, ◌||◌, String, Option, none, some, List,
  [], ◌∷◌, ◌++◌, ltb, if◌then◌else◌, ◌==◌, ==_iff, number_keyed, text_keyed, Bool-cases, inl, inr,
  arith,
}
use lametrader.Prelude.Map
use lametrader.Prelude.Map.{Map, get-set}
use lametrader.Config.{Period, period_eq}
use lametrader.Config.Keys.{period_key-eq}
use lametrader.Market.Candle.{CandleEvent, time_of}
use lametrader.Rules.Event.{EvaluationTriggerEvent, bar_opened, bar_closed}
use lametrader.Rules.Bridges.BarLifecycle.{
  Lifecycle, lifecycle_key, is_advanced, closed_of, is_some_of, is_closing, handle_candle,
  handle_candles,
}

-- What the bookkeeping of a series knows of the candles before: which bars were seen, and which
-- of them finished.
abbrev Agrees : (ℕ → Bool) → (ℕ → Bool) → Option Lifecycle → Type 0
Agrees seen finished none = (ts : ℕ) → (seen ts ≡ false) × (finished ts ≡ false)
Agrees seen finished (some l) =
    (ts : ℕ)
    → l.last_ts ≤ ts
    → (seen ts ≡ (l.last_ts == ts))
      × (finished ts ≡ is_some_of l.closed_ts ts)
      × (is_some_of l.closed_ts ts ≡ true → ts ≤ l.last_ts)

next : Option Lifecycle → ℕ → Bool → Option Lifecycle
next prior ts final =
    if is_closing prior ts final
    then some (record { last_ts = ts; closed_ts = some ts })
    else if is_advanced prior ts
    then some (record { last_ts = ts; closed_ts = closed_of prior })
    else prior

-- One candle, seen by the bookkeeping of its own series.
next-Agrees :
    (seen finished : ℕ → Bool) (t : ℕ) (final : Bool) (prior : Option Lifecycle)
    → ((ts : ℕ) → seen ts ≡ true → ts ≤ t)
    → Agrees seen finished prior
    → Agrees
        (λ ts. t == ts || seen ts)
        (λ ts. (t == ts && final) || finished ts)
        (next prior t final)
unfolding next is_advanced is_closing
next-Agrees seen finished t true none o h = λ ts le. ground (arith, h ts)
next-Agrees seen finished t false none o h = λ ts le. ground (arith, h ts)
next-Agrees seen finished t true (some l) o h = elim (Bool-cases (is_some_of l.closed_ts t)) [
  | inl e ↦
      let low : l.last_ts ≤ t = ground (arith, o l.last_ts, h l.last_ts) in
      let top : t ≤ l.last_ts = (h t low).2 e in
      let same : ltb l.last_ts t ≡ false = ground arith in
      rw (e, next, is_closing) (rw same (λ ts le. ground (arith, h ts)))
  | inr e ↦
      rw (e, next, is_closing) (λ ts le. let low = o l.last_ts in ground (arith, h l.last_ts, h ts))
]
next-Agrees seen finished t false (some l) o h = elim (Bool-cases (ltb l.last_ts t)) [
  | inl e ↦ rw e (λ ts le. ground (arith, o l.last_ts, h l.last_ts, h ts))
  | inr e ↦ rw e (λ ts le. ground (arith, o l.last_ts, h l.last_ts, h ts))
]

-- What the bookkeeping decides for a candle, by what was seen and what finished.
is_advanced-seen :
    (seen finished : ℕ → Bool) (t : ℕ) (prior : Option Lifecycle)
    → ((ts : ℕ) → seen ts ≡ true → ts ≤ t)
    → Agrees seen finished prior
    → is_advanced prior t ≡ not (seen t)
unfolding is_advanced
is_advanced-seen seen finished t none o h = ground (arith, h t)
is_advanced-seen seen finished t (some l) o h = ground (arith, o l.last_ts, h l.last_ts, h t)

is_closing-finished :
    (seen finished : ℕ → Bool) (t : ℕ) (final : Bool) (prior : Option Lifecycle)
    → ((ts : ℕ) → seen ts ≡ true → ts ≤ t)
    → Agrees seen finished prior
    → is_closing prior t final ≡ (final && not (finished t))
unfolding is_closing
is_closing-finished seen finished t final none o h = ground (arith, h t)
is_closing-finished seen finished t final (some l) o h =
    ground (arith, o l.last_ts, h l.last_ts, h t)

module _ {N : Type 0} where
  -- A candle of the bar, and a final one, among those before.
  unfoldable pub is_seen : String → Period → ℕ → List (CandleEvent N) → Bool
  is_seen id period ts [] = false
  is_seen id period ts (e ∷ past) =
      (e.id == id && e.period == period && time_of e.candle == ts) || is_seen id period ts past

  pub is_finished : String → Period → ℕ → List (CandleEvent N) → Bool
  is_finished id period ts [] = false
  is_finished id period ts (e ∷ past) =
      (e.id == id && e.period == period && time_of e.candle == ts && e.final)
      || is_finished id period ts past

  -- No candle is of an older bar than one of its series before it.
  unfoldable pub InOrder : List (CandleEvent N) → List (CandleEvent N) → Type 0
  InOrder past [] = Unit
  InOrder past (e ∷ events) =
      ((ts : ℕ) → is_seen e.id e.period ts past ≡ true → ts ≤ time_of e.candle)
      × InOrder (e ∷ past) events

  -- What a candle should emit: that its bar opened, where it is the first of the bar, and that it
  -- closed, where it is the first final one.
  abbrev pub candle_events : CandleEvent N → List (CandleEvent N) → List (EvaluationTriggerEvent N)
  candle_events e past =
      let ts = time_of e.candle in
      (if is_seen e.id e.period ts past then [] else bar_opened ts e.id e.period ∷ [])
      ++ (if e.final && not (is_finished e.id e.period ts past)
          then bar_closed ts e.id e.period ∷ []
          else [])

  pub bar_events : List (CandleEvent N) → List (CandleEvent N) → List (EvaluationTriggerEvent N)
  bar_events past [] = []
  bar_events past (e ∷ events) = candle_events e past ++ bar_events (e ∷ past) events

  -- The bookkeeping knows of every series what it should.
  abbrev Knows : Map String Lifecycle → List (CandleEvent N) → Type 0
  Knows m past =
      (id : String) (period : Period)
      → Agrees (λ ts. is_seen id period ts past) (λ ts. is_finished id period ts past)
          (Map.get (lifecycle_key id period) m)

  abbrev is_of : CandleEvent N → String → Period → Bool
  is_of e id period = e.id == id && e.period == period

  key-is_of :
      (e : CandleEvent N) (id : String) (period : Period)
      → (lifecycle_key e.id e.period == lifecycle_key id period) ≡ is_of e id period
  unfolding lifecycle_key
  key-is_of e id period = period_key-eq e.id id e.period period

  get-handle_candle :
      (e : CandleEvent N) (m : Map String Lifecycle) (id : String) (period : Period)
      → Map.get (lifecycle_key id period) (handle_candle e m).1 ≡ (
          if is_of e id period
          then next (Map.get (lifecycle_key e.id e.period) m) (time_of e.candle) e.final
          else Map.get (lifecycle_key id period) m)
  unfolding handle_candle next
  get-handle_candle e m id period =
      let prior = Map.get (lifecycle_key e.id e.period) m in
      let ts = time_of e.candle in
      let key = key-is_of e id period in
      let own = λ (l : Lifecycle).
        get-set (lifecycle_key e.id e.period) (lifecycle_key id period) l m
        ∙ ap (λ b. if b then some l else Map.get (lifecycle_key id period) m) key in
      let same : is_of e id period ≡ true → prior ≡ Map.get (lifecycle_key id period) m =
        λ q. ap (λ k. Map.get k m) ((==_iff _ _).0 (key ∙ q)) in
      ground (
        arith,
        own (record { last_ts = ts; closed_ts = some ts }),
        own (record { last_ts = ts; closed_ts = closed_of prior }),
      )

  seen-own :
      (e : CandleEvent N) (id : String) (period : Period) (past : List (CandleEvent N))
      → is_of e id period ≡ true
      → ◌≡◌ {A = ℕ → Bool}
          (λ ts. is_seen id period ts (e ∷ past))
          (λ ts. time_of e.candle == ts || is_seen id period ts past)
  unfolding is_seen
  seen-own e id period past q = fun_ext (λ ts. ground arith)

  finished-own :
      (e : CandleEvent N) (id : String) (period : Period) (past : List (CandleEvent N))
      → is_of e id period ≡ true
      → ◌≡◌ {A = ℕ → Bool}
          (λ ts. is_finished id period ts (e ∷ past))
          (λ ts. (time_of e.candle == ts && e.final) || is_finished id period ts past)
  unfolding is_finished
  finished-own e id period past q = fun_ext (λ ts. ground arith)

  seen-other :
      (e : CandleEvent N) (id : String) (period : Period) (past : List (CandleEvent N))
      → is_of e id period ≡ false
      → ◌≡◌ {A = ℕ → Bool} (λ ts. is_seen id period ts (e ∷ past)) (λ ts. is_seen id period ts past)
  unfolding is_seen
  seen-other e id period past q = fun_ext (λ ts. ground arith)

  finished-other :
      (e : CandleEvent N) (id : String) (period : Period) (past : List (CandleEvent N))
      → is_of e id period ≡ false
      → ◌≡◌ {A = ℕ → Bool}
          (λ ts. is_finished id period ts (e ∷ past))
          (λ ts. is_finished id period ts past)
  unfolding is_finished
  finished-other e id period past q = fun_ext (λ ts. ground arith)

  handle_candle-Knows :
      (e : CandleEvent N) (m : Map String Lifecycle) (past : List (CandleEvent N))
      → ((ts : ℕ) → is_seen e.id e.period ts past ≡ true → ts ≤ time_of e.candle)
      → Knows m past
      → Knows (handle_candle e m).1 (e ∷ past)
  handle_candle-Knows e m past o h id period = elim (Bool-cases (is_of e id period)) [
    | inl q ↦
        let x : e.id ≡ id = ground (arith, ==_iff e.id id) in
        let y : e.period ≡ period = ground (arith, ==_iff e.period period) in
        let now =
          next-Agrees (λ ts. is_seen e.id e.period ts past)
            (λ ts. is_finished e.id e.period ts past) (time_of e.candle) e.final
            (Map.get (lifecycle_key e.id e.period) m) o (h e.id e.period) in
        rw
          (
            get-handle_candle e m id period,
            q,
            seen-own e id period past q,
            finished-own e id period past q,
          )
          (rw (← x, ← y) now)
    | inr q ↦
        rw
          (
            get-handle_candle e m id period,
            q,
            seen-other e id period past q,
            finished-other e id period past q,
          )
          (h id period)
  ]

  handle_candle-events :
      (e : CandleEvent N) (m : Map String Lifecycle) (past : List (CandleEvent N))
      → ((ts : ℕ) → is_seen e.id e.period ts past ≡ true → ts ≤ time_of e.candle)
      → Knows m past
      → (handle_candle e m).0 ≡ candle_events e past
  unfolding handle_candle
  handle_candle-events e m past o h =
      let prior = Map.get (lifecycle_key e.id e.period) m in
      let ts = time_of e.candle in
      let opens =
        is_advanced-seen (λ t. is_seen e.id e.period t past) (λ t. is_finished e.id e.period t past)
          ts prior o (h e.id e.period) in
      let closes =
        is_closing-finished (λ t. is_seen e.id e.period t past)
          (λ t. is_finished e.id e.period t past) ts e.final prior o (h e.id e.period) in
      ground arith

  handle_candles-from :
      (events past : List (CandleEvent N)) (m : Map String Lifecycle)
      → InOrder past events
      → Knows m past
      → handle_candles events m ≡ bar_events past events
  unfolding handle_candles bar_events InOrder
  handle_candles-from [] past m o h = refl
  handle_candles-from (e ∷ events) past m o h =
      let rest = handle_candles-from events (e ∷ past) _ o.1 (handle_candle-Knows e m past o.0 h) in
      ap₂ ◌++◌ (handle_candle-events e m past o.0 h) rest

  -- Over any candles of any series of which none is of an older bar than one of its series before
  -- it, the bridge emits for each candle, in order: that its bar opened, if no candle of the bar
  -- came before; then that it closed, if the candle is final and no final candle of the bar came
  -- before.
  pub handle_candles-bar_events :
      (events : List (CandleEvent N))
      → InOrder [] events
      → handle_candles events [] ≡ bar_events [] events
  handle_candles-bar_events events o =
      handle_candles-from events [] [] o
        (λ id period. unfold is_seen is_finished Map.get in λ ts. (refl, refl))
