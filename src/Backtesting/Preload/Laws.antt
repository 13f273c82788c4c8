-- ===== src/Backtesting/Preload/Laws.antt =====
-- The preloaded window changes no read.
use mathlib.Core.List.{reverse, reverse-reverse}
use lametrader.Prelude.{
  ℕ, ◌-◌, ◌*◌, ◌≤◌, ◌≡◌, refl, sym, ap, ◌∙◌, true, false, not, ◌&&◌, ◌||◌, String, Option, none,
  some, List, [], ◌∷◌, length, filter, take, leb, ltb, ◌==◌, ==_iff, text_keyed, Bool-cases,
  Option-cases, ◌⊎◌, inl, inr, arith,
}
use lametrader.Prelude.Map
use lametrader.Prelude.Map.{Map, get-set}
use lametrader.Prelude.Timed.{
  before, length_of-take, filter-reverse, reverse-slice_last, Pairwise-filter,
}
use lametrader.Config.{Period, period_millis, period_eq}
use lametrader.Market.Candle.{Candle, time_of}
use lametrader.Market.Candles.{CandleReads, CandleLaws, within, limited, series_key}
use lametrader.Backtesting.Preload.{
  ResidentSeries, resident_range, newest_resident, resident_latest_n, preloaded_reads, load_series,
  load_all, preload,
}
use lametrader.Backtesting.Preload.Window.{
  series_key-eq, before-window, take-window, above_all, is_empty-take, within-window,
  within_complete,
}

module _ {N : Type 0} (inner : CandleReads N) (history : String → Period → List (Candle N))
    (laws : CandleLaws inner history) (bars start end : ℕ) where
  abbrev loaded : String → Period → ResidentSeries N
  loaded s p = load_series inner s bars start end p

  abbrev floor_of : Period → ℕ
  floor_of p = start - bars * period_millis p

  loaded-candles :
      (s : String) (p : Period)
      → (loaded s p).candles ≡ reverse (filter (within (floor_of p) end) (history s p))
  unfolding load_series
  loaded-candles s p = laws.range_eq s p (floor_of p) end none

  loaded_complete :
      (s : String) (p : Period)
      → (loaded s p).complete_below ≡ true
      → before time_of (floor_of p) (history s p) ≡ []
  unfolding load_series
  loaded_complete s p h = is_empty-take _ (rw (laws.latest_n_eq s p 1 (some (floor_of p))) at h)

  -- The newest of the window are the newest above the floor.
  newest-loaded :
      (s : String) (p : Period) (n b : ℕ)
      → b ≤ end
      → newest_resident n b (loaded s p)
        ≡ take n (filter (λ c. leb (floor_of p) (time_of c)) (before time_of b (history s p)))
  unfolding newest_resident
  newest-loaded s p n b h =
      let inside = filter (within (floor_of p) end) (history s p) in
      reverse-slice_last n (before time_of b (loaded s p).candles)
      ∙ ap (λ cs. take n (reverse (before time_of b cs))) (loaded-candles s p)
      ∙ ap (λ cs. take n (reverse cs)) (filter-reverse (λ c. ltb (time_of c) b) inside)
      ∙ ap (take n) (reverse-reverse (before time_of b inside))
      ∙ ap (take n) (before-window (floor_of p) end b (history s p) h)

  loaded-end : (s : String) (p : Period) → (loaded s p).end ≡ end
  unfolding load_series
  loaded-end s p = refl

  loaded-floor : (s : String) (p : Period) → (loaded s p).floor ≡ floor_of p
  unfolding load_series
  loaded-floor s p = refl

  -- An answer that is full, or that nothing older can complete, is the store's.
  newest-served :
      (s : String) (p : Period) (n b : ℕ)
      → b ≤ end
      → (leb n (length (newest_resident n b (loaded s p))) || (loaded s p).complete_below) ≡ true
      → newest_resident n b (loaded s p) ≡ inner.latest_n s p n (some b)
  newest-served s p n b h served =
      let older = before time_of b (history s p) in
      let sorted = Pairwise-filter _ _ (history s p) (laws.newest_first s p) in
      let own = newest-loaded s p n b h in
      own
      ∙ elim (Bool-cases ((loaded s p).complete_below)) [
        | inl whole ↦
            ap (take n) (above_all (floor_of p) b (history s p) (loaded_complete s p whole))
        | inr partly ↦
            let size = ap length own in
            let many : n ≤ length (newest_resident n b (loaded s p)) = ground (arith, partly) in
            take-window n (floor_of p) older sorted
              (length_of-take n (filter (λ c. leb (floor_of p) (time_of c)) older) (omega arith))
      ]
      ∙ sym (laws.latest_n_eq s p n (some b))

  none_asked : (s : String) (p : Period) (n b : ℕ) → n ≡ 0 → inner.latest_n s p n (some b) ≡ []
  none_asked s p n b e =
      laws.latest_n_eq s p n (some b) ∙ ap (λ m. take m (before time_of b (history s p))) e

  latest_n-loaded :
      (s : String) (p : Period) (n : ℕ) (b : Option ℕ)
      → resident_latest_n (some (loaded s p)) n b (inner.latest_n s p n b) ≡ inner.latest_n s p n b
  unfolding resident_latest_n
  latest_n-loaded s p n none = refl
  latest_n-loaded s p n (some b) =
      ground (arith, loaded-end s p, newest-served s p n b, none_asked s p n b)

  within-served :
      (s : String) (p : Period) (from to : ℕ)
      → to ≤ end
      → (floor_of p ≤ from) ⊎ ((loaded s p).complete_below ≡ true)
      → filter (within from to) (loaded s p).candles
        ≡ reverse (filter (within from to) (history s p))
  within-served s p from to h served =
      let inside = filter (within (floor_of p) end) (history s p) in
      ap (filter (within from to)) (loaded-candles s p)
      ∙ filter-reverse (within from to) inside
      ∙ elim served [
        | inl above ↦ ap reverse (within-window (floor_of p) end from to (history s p) h above)
        | inr whole ↦
            ap reverse
              (within_complete (floor_of p) end from to (history s p) h (loaded_complete s p whole))
      ]

  range-served :
      (s : String) (p : Period) (from to : ℕ) (limit : Option ℕ)
      → to ≤ end
      → (floor_of p ≤ from) ⊎ ((loaded s p).complete_below ≡ true)
      → limited limit (filter (within from to) (loaded s p).candles) ≡ inner.range s p from to limit
  range-served s p from to limit h served =
      ap (limited limit) (within-served s p from to h served)
      ∙ sym (laws.range_eq s p from to limit)

  covers :
      (s : String) (p : Period) (from : ℕ)
      → (ltb from (loaded s p).floor && not (loaded s p).complete_below) ≡ false
      → (floor_of p ≤ from) ⊎ ((loaded s p).complete_below ≡ true)
  covers s p from e = elim (Bool-cases ((loaded s p).complete_below)) [
    | inl whole ↦ inr whole
    | inr partly ↦ inl (ground (arith, loaded-floor s p))
  ]

  range-loaded :
      (s : String) (p : Period) (from to : ℕ) (limit : Option ℕ)
      → resident_range (some (loaded s p)) from to limit (inner.range s p from to limit)
        ≡ inner.range s p from to limit
  unfolding resident_range
  range-loaded s p from to limit =
      let below = ltb from (loaded s p).floor && not (loaded s p).complete_below in
      elim (Bool-cases (below || ltb (loaded s p).end to)) [
        | inl e ↦ ground arith
        | inr e ↦
            let within_end : to ≤ end = ground (arith, loaded-end s p) in
            rw e (range-served s p from to limit within_end (covers s p from (ground arith)))
      ]

  abbrev IsLoaded : Map String (ResidentSeries N) → Type 0
  IsLoaded series =
      (s : String) (p : Period) (r : ResidentSeries N)
      → Map.get (series_key s p) series ≡ some r
      → r ≡ loaded s p

  set-IsLoaded :
      (s : String) (p : Period) (series : Map String (ResidentSeries N))
      → IsLoaded series
      → IsLoaded (Map.set (series_key s p) (loaded s p) series)
  set-IsLoaded s p series h s' p' r e =
      let q = sym (get-set (series_key s p) (series_key s' p') (loaded s p) series) ∙ e in
      elim (Bool-cases (series_key s p == series_key s' p')) [
        | inl same ↦
            let both = sym (series_key-eq s s' p p') ∙ same in
            let es : s ≡ s' = ground (arith, ==_iff s s') in
            let ep : p ≡ p' = ground (arith, ==_iff p p') in
            let is : loaded s p ≡ r = ground arith in
            sym is ∙ ap (λ x. loaded x p) es ∙ ap (loaded s') ep
        | inr other ↦ h s' p' r (ground arith)
      ]

  load_all-IsLoaded :
      (s : String) (ps : List Period) (series : Map String (ResidentSeries N))
      → IsLoaded series
      → IsLoaded (load_all inner s bars start end ps series)
  unfolding load_all
  load_all-IsLoaded s [] series h = h
  load_all-IsLoaded s (p ∷ ps) series h = load_all-IsLoaded s ps _ (set-IsLoaded s p series h)

  -- Every read of the preloaded candles is the store's own: of any symbol and period, for any
  -- number of candles before any bound, and for any window with any limit, whether or not the
  -- preloaded window is deep enough.
  pub preload-reads :
      (s : String) (periods : List Period) (s' : String) (p : Period)
      → let reads = preloaded_reads (preload inner s periods bars start end) in
        ((n : ℕ) (b : Option ℕ) → reads.latest_n s' p n b ≡ inner.latest_n s' p n b)
        × ((from to : ℕ) (limit : Option ℕ)
            → reads.range s' p from to limit ≡ inner.range s' p from to limit)
  unfolding preloaded_reads preload
  preload-reads s periods s' p =
      let series = load_all inner s bars start end periods [] in
      let each = load_all-IsLoaded s periods [] (λ x q r e. unfold Map.get in cc) in
      elim (Option-cases (Map.get (series_key s' p) series)) [
        | inl e ↦ rw e (λ n b. refl, λ from to limit. refl)
        | inr (r, e) ↦ rw (e ∙ ap some (each s' p r e)) (latest_n-loaded s' p, range-loaded s' p)
      ]
