-- ===== src/Market/Candles/InMemory.antt =====
-- The store in memory keeps the laws of a candle store.
use mathlib.Core.List.{reverse, reverse-reverse}
use lametrader.Prelude.{
  ℕ, ◌<◌, ◌≡◌, ◌≢◌, refl, sym, ap, ◌∙◌, String, Option, none, some, List, [], ◌∷◌, filter, take,
  All, leb, ltb, Bool, not, Bool-cases, inl, inr, ◌==◌, ==_iff, number_keyed, text_keyed, arith,
}
use lametrader.Prelude.Map
use lametrader.Prelude.Map.{Map, values}
use lametrader.Prelude.Sort.{Pairwise, sort_by-Pairwise}
use lametrader.Prelude.Timed.{
  OldestFirst, before, Pairwise-reverse, All-filter, filter-reverse, reverse-slice_last,
}
use lametrader.Text.{append, starts_with}
use lametrader.Config.{Period}
use lametrader.Market.Candle.{Candle, time_of}
use lametrader.Market.Candles.{
  CandleLaws, InMemoryCandles, bounded, limited, within, by_time, put_candles, save_candles,
  delete_symbol, sorted, range, latest_n, in_memory_reads, series_key,
}

-- A write to the store.
pub data CandleWrite (N : Type 0) : Type 0 where
  saved : String → Period → List (Candle N) → CandleWrite N
  deleted : String → CandleWrite N

module _ {N : Type 0} where
  abbrev pub run_writes : List (CandleWrite N) → InMemoryCandles N → InMemoryCandles N
  run_writes [] repo = repo
  run_writes (saved s p candles ∷ ws) repo = run_writes ws (save_candles s p candles repo)
  run_writes (deleted s ∷ ws) repo = run_writes ws (delete_symbol s repo)

  -- Each candle stands under its own time, and no time twice.
  abbrev IsKeyed : Map ℕ (Candle N) → Type 0
  IsKeyed [] = Unit
  IsKeyed ((t, c) ∷ m) = (time_of c ≡ t) × All (λ e. e.0 ≢ t) m × IsKeyed m

  All-set :
      (P : ℕ × Candle N → Type 0) (k : ℕ) (c : Candle N) (m : Map ℕ (Candle N))
      → P (k, c)
      → All P m
      → All P (Map.set k c m)
  unfolding Map.set
  All-set P k c [] p h = (p, tt)
  All-set P k c ((j, d) ∷ m) p h = elim (Bool-cases (j == k)) [
    | inl e ↦ rw (e, Map.set) (rw (sym ((==_iff j k).0 e)) at p, h.1)
    | inr e ↦ rw (e, Map.set) (h.0, All-set P k c m p h.1)
  ]

  set-IsKeyed :
      (c : Candle N) (m : Map ℕ (Candle N)) → IsKeyed m → IsKeyed (Map.set (time_of c) c m)
  unfolding Map.set
  set-IsKeyed c [] h = (refl, tt, tt)
  set-IsKeyed c ((t, d) ∷ m) h = elim (Bool-cases (t == time_of c)) [
    | inl e ↦ rw (e, Map.set) (sym ((==_iff t (time_of c)).0 e), h.1, h.2)
    | inr e ↦
        let apart : time_of c ≢ t = λ q. cc ((==_iff t (time_of c)).1 (sym q)) in
        rw (e, Map.set) (h.0, All-set (λ e. e.0 ≢ t) (time_of c) c m apart h.1, set-IsKeyed c m h.2)
  ]

  put_candles-IsKeyed :
      (cs : List (Candle N)) (m : Map ℕ (Candle N)) → IsKeyed m → IsKeyed (put_candles cs m)
  unfolding put_candles
  put_candles-IsKeyed [] m h = h
  put_candles-IsKeyed (c ∷ cs) m h =
      put_candles-IsKeyed cs (Map.set (time_of c) c m) (set-IsKeyed c m h)

  abbrev IsStored : InMemoryCandles N → Type 0
  IsStored repo = All (λ e. IsKeyed e.1) repo.series

  by_time-IsKeyed :
      (key : String) (m : Map String (Map ℕ (Candle N)))
      → All (λ e. IsKeyed e.1) m
      → IsKeyed (by_time (Map.get key m))
  unfolding by_time Map.get
  by_time-IsKeyed key [] h = tt
  by_time-IsKeyed key ((k, b) ∷ m) h = elim (Bool-cases (k == key)) [
    | inl e ↦ rw e h.0
    | inr e ↦ rw e (by_time-IsKeyed key m h.1)
  ]

  put-IsStored :
      (key : String) (b : Map ℕ (Candle N)) (m : Map String (Map ℕ (Candle N)))
      → IsKeyed b
      → All (λ e. IsKeyed e.1) m
      → All (λ e. IsKeyed e.1) (Map.set key b m)
  unfolding Map.set
  put-IsStored key b [] k h = (k, tt)
  put-IsStored key b ((j, d) ∷ m) k h = elim (Bool-cases (j == key)) [
    | inl e ↦ rw e (k, h.1)
    | inr e ↦ rw e (h.0, put-IsStored key b m k h.1)
  ]

  All-put : (P : Candle N → Type 0) (m : Map ℕ (Candle N)) → All (λ e. P e.1) m → All P (values m)
  All-put P [] h = tt
  All-put P ((t, c) ∷ m) h = (h.0, All-put P m h.1)

  times_apart :
      (t : ℕ) (c : Candle N) (m : Map ℕ (Candle N))
      → time_of c ≡ t
      → All (λ e. e.0 ≢ t) m
      → IsKeyed m
      → All (λ d. time_of c ≢ time_of d) (values m)
  times_apart t c [] e a k = tt
  times_apart t c ((u, d) ∷ m) e a k = (λ q. a.0 (sym k.0 ∙ sym q ∙ e), times_apart t c m e a.1 k.2)

  values-apart :
      (m : Map ℕ (Candle N)) → IsKeyed m → Pairwise (λ c d. time_of c ≢ time_of d) (values m)
  values-apart [] h = tt
  values-apart ((t, c) ∷ m) h = (times_apart t c m h.0 h.1 h.2, values-apart m h.2)

  -- A stored series, sorted, has every time once.
  sorted-OldestFirst :
      (s : String) (p : Period) (repo : InMemoryCandles N)
      → IsStored repo
      → OldestFirst time_of (sorted s p repo)
  unfolding sorted series_key
  sorted-OldestFirst s p repo h =
      sort_by-Pairwise (λ a b. leb (time_of a) (time_of b)) (λ a b. time_of a < time_of b)
        (λ a b. time_of a ≢ time_of b) (λ a b d e. ground arith) (λ a b d e. ground arith)
        (λ a b c x y. omega arith) _
        (values-apart _ (by_time-IsKeyed (series_key s p) repo.series h))

  run_writes-IsStored :
      (ws : List (CandleWrite N)) (repo : InMemoryCandles N)
      → IsStored repo
      → IsStored (run_writes ws repo)
  unfolding save_candles delete_symbol
  run_writes-IsStored [] repo h = h
  run_writes-IsStored (saved s p candles ∷ ws) repo h =
      run_writes-IsStored ws (save_candles s p candles repo) (
        put-IsStored (series_key s p) _ repo.series
          (put_candles-IsKeyed candles _ (by_time-IsKeyed (series_key s p) repo.series h)) h)
  run_writes-IsStored (deleted s ∷ ws) repo h =
      run_writes-IsStored ws (delete_symbol s repo)
        (All-filter (λ e. IsKeyed e.1) (λ e. not (starts_with e.0 (append s "|"))) repo.series h)

  -- The candles of a series, newest first.
  abbrev pub stored : InMemoryCandles N → String → Period → List (Candle N)
  stored repo s p = reverse (sorted s p repo)

  latest_n-stored :
      (s : String) (p : Period) (n : ℕ) (b : Option ℕ) (repo : InMemoryCandles N)
      → latest_n s p n b repo ≡ take n (bounded b (stored repo s p))
  unfolding latest_n
  latest_n-stored s p n none repo = reverse-slice_last n (sorted s p repo)
  latest_n-stored s p n (some t) repo =
      reverse-slice_last n (before time_of t (sorted s p repo))
      ∙ ap (take n) (sym (filter-reverse (λ c. ltb (time_of c) t) (sorted s p repo)))

  turned_twice :
      (p : Candle N → Bool) (xs : List (Candle N)) → reverse (filter p (reverse xs)) ≡ filter p xs
  turned_twice p xs = rw (filter-reverse p xs) (reverse-reverse (filter p xs))

  range-stored :
      (s : String) (p : Period) (from to : ℕ) (limit : Option ℕ) (repo : InMemoryCandles N)
      → range s p from to limit repo
        ≡ limited limit (reverse (filter (within from to) (stored repo s p)))
  unfolding range
  range-stored s p from to limit repo =
      elim limit
        as (λ l.
          range s p from to l repo
          ≡ limited l (reverse (filter (within from to) (stored repo s p)))) [
            | none ↦ sym (turned_twice (within from to) (sorted s p repo))
            | some n ↦ ap (take n) (sym (turned_twice (within from to) (sorted s p repo)))
          ]

  -- After any saves and deletes from the empty store, its reads keep the laws of a candle store:
  -- each series has every time at most once, `latestN` is the newest before the bound with the
  -- newest first, and `range` is the window with the oldest first, up to the limit.
  pub run_writes-CandleLaws :
      (ws : List (CandleWrite N))
      → let repo = run_writes ws (record { series = [] }) in
        CandleLaws (in_memory_reads repo) (stored repo)
  unfolding in_memory_reads
  run_writes-CandleLaws ws =
      let repo = run_writes ws (record { series = [] }) in
      let whole = run_writes-IsStored ws (record { series = [] }) tt in
      record {
        newest_first = λ s p.
            Pairwise-reverse (λ a b. time_of a < time_of b) (λ a b. time_of b < time_of a)
              (λ a b h. h) (sorted s p repo) (sorted-OldestFirst s p repo whole);
        latest_n_eq = λ s p n b. latest_n-stored s p n b repo;
        range_eq = λ s p from to limit. range-stored s p from to limit repo;
      }
