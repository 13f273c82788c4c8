-- ===== src/Rules/Repository/Sorting.antt =====
-- The order of a listing.
use lametrader.Prelude.{◌≤◌, ◌↔◌, List, In, arith, leb}
use lametrader.Prelude.Sort.{Pairwise, sort_by-mem, Pairwise-unit, sort_by-Pairwise}
use lametrader.Rules.Rule.{Rule}
use lametrader.Rules.Repository.{sort_by_order}

module _ {N : Type 0} where
  -- Each rule's order is at most that of every later one.
  abbrev pub IsOrdered : List (Rule N) → Type 0
  IsOrdered = Pairwise (λ r s. r.order ≤ s.order)

  -- Sorting keeps the members.
  pub sort_by_order-mem : (s : Rule N) (xs : List (Rule N)) → In s (sort_by_order xs) ↔ In s xs
  unfolding sort_by_order
  sort_by_order-mem s xs = sort_by-mem _ s xs

  pub sort_by_order-IsOrdered : (xs : List (Rule N)) → IsOrdered (sort_by_order xs)
  unfolding sort_by_order
  sort_by_order-IsOrdered xs =
      sort_by-Pairwise (λ r s. leb r.order s.order) (λ r s. r.order ≤ s.order) (λ r s. Unit {0})
        (λ r s d e. ground arith) (λ r s d e. ground arith) (λ r s t a b. omega arith) xs
        (Pairwise-unit xs)
