-- ===== src/Rules/Dispatch/Latch.antt =====
-- The once-per-bar latch as the dispatcher sees it
-- (packages/backend/src/analytics/rules/dispatch/once-per-bar-latch.types.ts): the operations of a
-- store, and the laws that a store has on ids of a certain form. The TTL is an argument of `latch`
-- that no law reads: it is a backstop against lost re-arms.
pub mod InMemory
use lametrader.Prelude.{ℕ, String, ◌≡◌, Bool, not, ◌&&◌, ◌||◌, ◌==◌, text_keyed}
use lametrader.Config.{Period, period_eq}

-- Arguments: the rule id, the symbol id, the period; for `rearm` the symbol id and the period.
pub record LatchStore (S : Type 0) : Type 0 where
  pub is_latched : S → String → String → Period → Bool
  pub latch : S → String → String → Period → ℕ → S
  pub rearm : S → String → Period → S

pub record LatchLaws {S : Type 0} (store : LatchStore S) (IsSymbolId : String → Type 0)
    : Type 0 where
  pub is_latched-latch :
      (s : S) (r y r' y' : String) (p p' : Period) (ttl : ℕ)
      → IsSymbolId y
      → IsSymbolId y'
      → store.is_latched (store.latch s r y p ttl) r' y' p'
        ≡ ((r == r' && (y == y' && p == p')) || store.is_latched s r' y' p')
  pub is_latched-rearm :
      (s : S) (y r' y' : String) (p p' : Period)
      → IsSymbolId y
      → IsSymbolId y'
      → store.is_latched (store.rearm s y p) r' y' p'
        ≡ (not (y == y' && p == p') && store.is_latched s r' y' p')
