-- ===== src/Backtesting/Summary/Laws.antt =====
-- The counts of a summary.
use lametrader.Prelude.{
  ◌+◌, ◌≤◌, ◌≡◌, refl, Bool, true, false, List, [], ◌∷◌, filter, length, arith,
}
use lametrader.Float.{Float}
use lametrader.Backtesting.Trade.{BacktestTrade}
use lametrader.Backtesting.Summary.{is_winner, is_loser, summarize_trades}

module _ {A : Type 0} (p q : A → Bool) (apart : (a : A) → p a ≡ true → q a ≡ false) where
  length-filters : (xs : List A) → length (filter p xs) + length (filter q xs) ≤ length xs
  length-filters [] = omega arith
  length-filters (x ∷ xs) = ground (arith, length-filters xs, apart x)

module _ {N : Type 0} ⦃f : Float N⦄ where
  -- Where no number is both above and below 0, the winners and losers of a summary are together at
  -- most its trades, which it counts all.
  pub summarize_trades-counts :
      (trades : List (BacktestTrade N)) (initial_capital : N)
      → ((a : N) → f.lt (f.lit 0) a ≡ true → f.lt a (f.lit 0) ≡ false)
      → ((summarize_trades trades initial_capital).winners
            + (summarize_trades trades initial_capital).losers
          ≤ length trades)
        × ((summarize_trades trades initial_capital).trade_count ≡ length trades)
  unfolding summarize_trades
  summarize_trades-counts trades initial_capital apart =
      (length-filters is_winner is_loser (λ trade. apart trade.pnl) trades, refl)
