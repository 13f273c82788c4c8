-- ===== src/Market/Backfill/Chunks.antt =====
-- A backfill in chunks saves what it fetched, once and in order.
use mathlib.Core.List.{append-nil}
use lametrader.Prelude.{
  ℕ, zero, suc, ◌+◌, ◌≤◌, ◌<◌, ◌≡◌, refl, sym, ap, ◌∙◌, String, Option, none, some, List, [], ◌∷◌,
  ◌++◌, length, length-append, take, All, text_keyed, number_keyed, ==_refl, arith,
}
use lametrader.Prelude.Map
use lametrader.Prelude.Map.{Map, get-set, set_over}
use lametrader.Prelude.Timed.{drop, take-append-drop}
use lametrader.Config.{Period}
use lametrader.Market.Candle.{Candle, time_of}
use lametrader.Market.Candles.{InMemoryCandles, put_candles, save_candles, by_time, series_key}
use lametrader.Market.Symbol.{WatchedSymbol, SymbolType, symbol_type, source_for_type}
use lametrader.Market.Backfill.{
  BackfillProgress, BackfillRange, CandleFeed, assert_backfillable, fetch_from, backfill, Saved,
  save_chunks, chunk_size, persist, backfilled, first_time, last_time, saving,
}

module _ {N : Type 0} where
  put_candles-append :
      (xs ys : List (Candle N)) (m : Map ℕ (Candle N))
      → put_candles (xs ++ ys) m ≡ put_candles ys (put_candles xs m)
  unfolding put_candles
  put_candles-append [] ys m = refl
  put_candles-append (x ∷ xs) ys m = put_candles-append xs ys (Map.set (time_of x) x m)

  save_candles-append :
      (id : String) (p : Period) (xs ys : List (Candle N)) (repo : InMemoryCandles N)
      → save_candles id p ys (save_candles id p xs repo) ≡ save_candles id p (xs ++ ys) repo
  unfolding save_candles by_time
  save_candles-append id p xs ys repo =
      let key = series_key id p in
      let xs' = put_candles xs (by_time (Map.get key repo.series)) in
      rw (get-set key key xs' repo.series, ==_refl key)
        (ap (λ m. record { series = m })
          (set_over key (put_candles ys xs') xs' repo.series
            ∙ ap (λ m. Map.set key m repo.series)
                (sym (put_candles-append xs ys (by_time (Map.get key repo.series))))))

  -- Saving at once what there is to save.
  abbrev pub saved_once : String → Period → List (Candle N) → InMemoryCandles N → InMemoryCandles N
  saved_once id p [] repo = repo
  saved_once id p (c ∷ cs) repo = save_candles id p (c ∷ cs) repo

  saved_once-save :
      (id : String) (p : Period) (x : Candle N) (xs ys : List (Candle N)) (repo : InMemoryCandles N)
      → saved_once id p ys (save_candles id p (x ∷ xs) repo) ≡ save_candles id p (x ∷ xs ++ ys) repo
  saved_once-save id p x xs [] repo =
      ap (λ zs. save_candles id p (x ∷ zs) repo) (sym (append-nil xs))
  saved_once-save id p x xs (y ∷ ys) repo = save_candles-append id p (x ∷ xs) (y ∷ ys) repo

  -- What the loop leaves: the count, its frames, and the store.
  record SavesAll (size : ℕ) (id : String) (p : Period) (total saved : ℕ) (cs : List (Candle N))
      (repo : InMemoryCandles N) (out : Option (Saved (InMemoryCandles N))) : Type 0 where
    end : Saved (InMemoryCandles N)
    is_end : out ≡ some end
    count : end.saved ≡ saved + length cs
    frames : All (λ f. f.done ≤ total) end.frames
    store : end.store ≡ saved_once id p cs repo

  save_chunks-SavesAll :
      (size fuel : ℕ) (id : String) (p : Period) (total saved : ℕ) (cs : List (Candle N))
      (repo : InMemoryCandles N)
      → 0 < size
      → length cs < fuel
      → saved + length cs ≤ total
      → SavesAll size id p total saved cs repo
          (save_chunks save_candles size id p total fuel saved cs repo)
  unfolding save_chunks
  save_chunks-SavesAll size zero id p total saved cs repo z h t = absurd (omega arith)
  save_chunks-SavesAll size (suc fuel) id p total saved [] repo z h t = record {
    end = record { saved = saved; frames = []; store = repo };
    is_end = refl;
    count = omega arith;
    frames = tt;
    store = refl;
  }
  save_chunks-SavesAll zero (suc fuel) id p total saved (c ∷ cs) repo z h t = absurd (omega arith)
  save_chunks-SavesAll (suc size) (suc fuel) id p total saved (c ∷ cs) repo z h t =
      let split = take-append-drop size cs in
      let lengths = ap length split ∙ refl in
      let sum = length-append (take size cs) (drop size cs) in
      let saved' = saved + suc (length (take size cs)) in
      let repo' = save_candles id p (c ∷ take size cs) repo in
      let r =
        save_chunks-SavesAll (suc size) fuel id p total saved' (drop size cs) repo' z (omega arith)
          (omega arith) in
      record {
        end = record r.end {
          frames = record { phase = saving; done = saved'; total = total } ∷ r.end.frames;
        };
        is_end = rw r.is_end refl;
        count = omega (arith, r.count);
        frames = (omega arith, r.frames);
        store =
            r.store
            ∙ saved_once-save id p c (take size cs) (drop size cs) repo
            ∙ ap (λ zs. save_candles id p (c ∷ zs) repo) split;
      }

  -- A backfill of a watched period of a symbol whose type a source serves, with more fuel than the
  -- source fetched candles, ends: the store is as after one save of all that was fetched, and
  -- untouched where that is nothing; as many candles are saved as were fetched; the summary tells
  -- the first and the last time; and no frame of the saves reports more than was fetched.
  pub backfill-saved_once :
      (fuel : ℕ) (sources : List (CandleFeed N)) (watched : Option WatchedSymbol) (id : String)
      (period : Period) (range : Option BackfillRange) (repo : InMemoryCandles N)
      (type : SymbolType) (source : CandleFeed N)
      → assert_backfillable watched id period ≡ none
      → symbol_type id ≡ some type
      → source_for_type (λ s. s.types) sources type ≡ some source
      → length (source.fetch_candles id period range).candles < fuel
      → let fetched = source.fetch_candles id period range in
        (frames : List BackfillProgress) × (backfill save_candles fuel sources watched id period
            range repo
          ≡ backfilled
              (record {
                id = id;
                period = period;
                from = first_time fetched.candles;
                to = last_time fetched.candles;
                fetched = length fetched.candles;
                saved = length fetched.candles;
                complete = fetched.complete;
              })
              (fetched.reported ++ frames)
              (saved_once id period fetched.candles repo))
        × All (λ f. f.done ≤ length fetched.candles) frames
  unfolding backfill fetch_from persist
  backfill-saved_once fuel sources watched id period range repo type source w t f h =
      let fetched = source.fetch_candles id period range in
      let r =
        save_chunks-SavesAll chunk_size fuel id period (length fetched.candles) 0 fetched.candles
          repo (omega arith) h (omega arith) in
      let count : r.end.saved ≡ length fetched.candles = omega (arith, r.count) in
      (
        r.end.frames,
        rw (w, backfill, t, fetch_from, f, r.is_end, persist, count, r.store) refl,
        r.frames,
      )
