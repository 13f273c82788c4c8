-- ===== src/Rules/Service/Paging/Laws.antt =====
-- What a page of an event log holds (`paginate` of
-- packages/backend/src/analytics/rules/rule.service.ts).
use mathlib.Core.List.{reverse, reverse-cons}
use lametrader.Prelude.{
  ℕ, zero, suc, ◌≤◌, ◌<◌, ◌≡◌, refl, ◌↔◌, true, String, Option, none, some, List, [], ◌∷◌, ◌++◌,
  length, filter, take, In, All, leb, ◌⊎◌, inl, inr, text_keyed, arith,
}
use lametrader.Prelude.Members.{All-In, In-filter, filter-In, includes_iff}
use lametrader.Prelude.Sort.{sort_by, sort_by-mem, Pairwise, sort_by-Pairwise, Pairwise-unit}
use lametrader.Prelude.Timed.{take_short}
use lametrader.Rules.EventEntry.{
  RuleEventEntry, fired, notification_sent, state_set, state_removed, error, cycle_overflow,
}
use lametrader.Rules.Service.Paging.{
  EventListOptions, page_limit, entry_ts, is_before, is_from, is_shown, matches_chart_states,
  passes, paginate,
}

module _ {A : Type 0} where
  In-take : (n : ℕ) (a : A) (xs : List A) → In a (take n xs) → In a xs
  In-take zero a xs h = absurd h
  In-take (suc n) a [] h = h
  In-take (suc n) a (x ∷ xs) (inl e) = inl e
  In-take (suc n) a (x ∷ xs) (inr h) = inr (In-take n a xs h)

  In-snoc : (a x : A) (xs : List A) → In a (xs ++ (x ∷ [])) → (a ≡ x) ⊎ In a xs
  In-snoc a x [] h = h
  In-snoc a x (y ∷ xs) (inl q) = inr (inl q)
  In-snoc a x (y ∷ xs) (inr h) = elim (In-snoc a x xs h) [
    | inl q ↦ inl q
    | inr later ↦ inr (inr later)
  ]

  snoc-In : (a x : A) (xs : List A) → (a ≡ x) ⊎ In a xs → In a (xs ++ (x ∷ []))
  snoc-In a x [] h = h
  snoc-In a x (y ∷ xs) (inl q) = inr (snoc-In a x xs (inl q))
  snoc-In a x (y ∷ xs) (inr (inl q)) = inl q
  snoc-In a x (y ∷ xs) (inr (inr h)) = inr (snoc-In a x xs (inr h))

  In-reverse : (a : A) (xs : List A) → In a (reverse xs) → In a xs
  In-reverse a [] h = h
  In-reverse a (x ∷ xs) h = elim (In-snoc a x (reverse xs) (rw (reverse-cons x xs) at h)) [
    | inl q ↦ inl q
    | inr later ↦ inr (In-reverse a xs later)
  ]

  reverse-In : (a : A) (xs : List A) → In a xs → In a (reverse xs)
  reverse-In a [] h = h
  reverse-In a (x ∷ xs) (inl q) = rw (reverse-cons x xs) (snoc-In a x (reverse xs) (inl q))
  reverse-In a (x ∷ xs) (inr h) =
      rw (reverse-cons x xs) (snoc-In a x (reverse xs) (inr (reverse-In a xs h)))

  All-take : (P : A → Type 0) (n : ℕ) (xs : List A) → All P xs → All P (take n xs)
  All-take P zero xs h = tt
  All-take P (suc n) [] h = tt
  All-take P (suc n) (x ∷ xs) h = (h.0, All-take P n xs h.1)

  Pairwise-take :
      (R : A → A → Type 0) (n : ℕ) (xs : List A) → Pairwise R xs → Pairwise R (take n xs)
  Pairwise-take R zero xs h = tt
  Pairwise-take R (suc n) [] h = tt
  Pairwise-take R (suc n) (x ∷ xs) h = (All-take (R x) n xs h.0, Pairwise-take R n xs h.1)

  length-take_bound : (n : ℕ) (xs : List A) → length (take n xs) ≤ n
  length-take_bound zero xs = omega arith
  length-take_bound (suc n) [] = omega arith
  length-take_bound (suc n) (x ∷ xs) = omega (arith, length-take_bound n xs)

  -- What a cut of an ordered list leaves out comes after all that it keeps.
  take-newest :
      (R : A → A → Type 0) (n : ℕ) (xs : List A) (a b : A)
      → Pairwise R xs
      → In a (take n xs)
      → In b xs
      → In b (take n xs) ⊎ R a b
  take-newest R zero xs a b h ha hb = absurd ha
  take-newest R (suc n) [] a b h ha hb = absurd ha
  take-newest R (suc n) (x ∷ xs) a b h ha (inl q) = inl (inl q)
  take-newest R (suc n) (x ∷ xs) a b h (inl p) (inr hb) = inr (rw p (All-In (R x) xs b h.0 hb))
  take-newest R (suc n) (x ∷ xs) a b h (inr ha) (inr hb) = elim (take-newest R n xs a b h.1 ha hb) [
    | inl i ↦ inl (inr i)
    | inr r ↦ inr r
  ]

-- The size of a page: 50 where none is asked for, and never more than 500.
pub data IsLimit : Option ℕ → ℕ → Type 0 where
  not_asked : IsLimit none 50
  as_asked : {n : ℕ} → n ≤ 500 → IsLimit (some n) n
  too_many : {n : ℕ} → 500 < n → IsLimit (some n) 500

page_limit-IsLimit : {limit : Option ℕ} {n : ℕ} → IsLimit limit n → page_limit limit ≡ n
page_limit-IsLimit not_asked = refl
page_limit-IsLimit (as_asked h) = ground arith
page_limit-IsLimit (too_many h) = ground arith

before-bound : (o : Option ℕ) (ts : ℕ) → is_before o ts ≡ true → (t : ℕ) → o ≡ some t → ts < t
before-bound o ts h t e = let k : is_before (some t) ts ≡ true = rw e at h in ground arith

from-bound : (o : Option ℕ) (ts : ℕ) → is_from o ts ≡ true → (t : ℕ) → o ≡ some t → t ≤ ts
from-bound o ts h t e = let k : is_from (some t) ts ≡ true = rw e at h in ground arith

bound-before : (o : Option ℕ) (ts : ℕ) → ((t : ℕ) → o ≡ some t → ts < t) → is_before o ts ≡ true
bound-before none ts h = refl
bound-before (some t) ts h = let b = h t refl in ground arith

bound-from : (o : Option ℕ) (ts : ℕ) → ((t : ℕ) → o ≡ some t → t ≤ ts) → is_from o ts ≡ true
bound-from none ts h = refl
bound-from (some t) ts h = let b = h t refl in ground arith

module _ {N : Type 0} where
  -- An entry that sets or removes the state of one of the keys.
  pub data ChangesOneOf (keys : List String) : RuleEventEntry N → Type 0 where
    sets :
        {b : _} {scope : _} {key : String} {value : _}
        → In key keys
        → ChangesOneOf keys (state_set b scope key value)
    removes :
        {b : _} {scope : _} {key : String}
        → In key keys
        → ChangesOneOf keys (state_removed b scope key)

  -- What the options ask of an entry: older than the cursor, from the start on and before the end
  -- of the window, and a change of one of the keys, each where it is given.
  pub record Matches (options : EventListOptions) (e : RuleEventEntry N) : Type 0 where
    pub cursor : (t : ℕ) → options.before ≡ some t → entry_ts e < t
    pub start : (t : ℕ) → options.from ≡ some t → t ≤ entry_ts e
    pub end : (t : ℕ) → options.to ≡ some t → entry_ts e < t
    pub keys : (ks : List String) → options.chart_states ≡ some ks → ChangesOneOf ks e

  -- A page of a log.
  pub record IsPage (limit : ℕ) (events : List (RuleEventEntry N)) (options : EventListOptions)
      (page : List (RuleEventEntry N)) : Type 0 where
    pub newest_first : Pairwise (λ a b. entry_ts b ≤ entry_ts a) page
    pub bounded : length page ≤ limit
    pub from_log : (e : RuleEventEntry N) → In e page → In e events × Matches options e
    -- a match that the page leaves out is not newer than any entry of it
    pub newest :
        (a b : RuleEventEntry N)
        → In a page
        → In b events
        → Matches options b
        → In b page ⊎ (entry_ts b ≤ entry_ts a)
    pub all_if_short :
        length page < limit → (e : RuleEventEntry N) → In e events → Matches options e → In e page

  shown-changes :
      (ks : List String) (e : RuleEventEntry N)
      → matches_chart_states e ks ≡ true
      → ChangesOneOf ks e
  unfolding matches_chart_states
  shown-changes ks (state_set b scope key value) h = sets ((includes_iff ks key).0 h)
  shown-changes ks (state_removed b scope key) h = removes ((includes_iff ks key).0 h)
  shown-changes ks (fired b event snapshot) h = cc
  shown-changes ks (notification_sent b destination body) h = cc
  shown-changes ks (error b reason) h = cc
  shown-changes ks (cycle_overflow b limit) h = cc

  changes-shown :
      {ks : List String} {e : RuleEventEntry N}
      → ChangesOneOf ks e
      → matches_chart_states e ks ≡ true
  unfolding matches_chart_states
  changes-shown {ks} (sets {key} i) = (includes_iff ks key).1 i
  changes-shown {ks} (removes {key} i) = (includes_iff ks key).1 i

  passes-Matches :
      (options : EventListOptions) (e : RuleEventEntry N)
      → passes options e ≡ true
      → Matches options e
  unfolding passes
  passes-Matches options e h = record {
    cursor = before-bound options.before (entry_ts e) (ground arith);
    start = from-bound options.from (entry_ts e) (ground arith);
    end = before-bound options.to (entry_ts e) (ground arith);
    keys = λ ks q.
        let shown : is_shown options.chart_states e ≡ true = ground arith in
        shown-changes ks e (rw q at shown);
  }

  changes-is_shown :
      (o : Option (List String)) (e : RuleEventEntry N)
      → ((ks : List String) → o ≡ some ks → ChangesOneOf ks e)
      → is_shown o e ≡ true
  changes-is_shown none e h = refl
  changes-is_shown (some ks) e h = changes-shown (h ks refl)

  Matches-passes :
      (options : EventListOptions) (e : RuleEventEntry N)
      → Matches options e
      → passes options e ≡ true
  unfolding passes
  Matches-passes options e m =
      let cursor = bound-before options.before (entry_ts e) m.cursor in
      let start = bound-from options.from (entry_ts e) m.start in
      let end = bound-before options.to (entry_ts e) m.end in
      let keys = changes-is_shown options.chart_states e m.keys in ground arith

module _ {N : Type 0} (events : List (RuleEventEntry N)) (options : EventListOptions) where
  abbrev newest_passing : List (RuleEventEntry N)
  newest_passing =
      sort_by (λ a b. leb (entry_ts b) (entry_ts a)) (reverse (filter (passes options) events))

  newest_passing_order : Pairwise (λ a b. entry_ts b ≤ entry_ts a) newest_passing
  newest_passing_order =
      sort_by-Pairwise (λ a b. leb (entry_ts b) (entry_ts a)) (λ a b. entry_ts b ≤ entry_ts a)
        (λ a b. Unit {0}) (λ a b d e. ground arith) (λ a b d e. ground arith)
        (λ a b c r q. omega arith) (reverse (filter (passes options) events))
        (Pairwise-unit (reverse (filter (passes options) events)))

  newest_passing-In :
      (e : RuleEventEntry N) → In e newest_passing ↔ (In e events × (passes options e ≡ true))
  newest_passing-In e =
      let sorted =
        sort_by-mem (λ a b. leb (entry_ts b) (entry_ts a)) e
          (reverse (filter (passes options) events)) in
      (
        λ h. In-filter (passes options) e events (In-reverse e _ (sorted.0 h)),
        λ h. sorted.1 (reverse-In e _ (filter-In (passes options) e events h.0 h.1)),
      )

  -- A read of a log, with its limit 50 where none is asked for and never more than 500: the newest
  -- entries come first; there are at most as many as the limit; all are entries of the log that
  -- match the options, which is older than the cursor, inside the window, and a set or a removal of
  -- one of the keys, each where it is given; a match that is left out is not newer than any entry of
  -- the page; and where the page has fewer entries than the limit, no match is left out.
  pub paginate_lem :
      (n : ℕ) → IsLimit options.limit n → IsPage n events options (paginate events options)
  unfolding paginate
  paginate_lem n l = rw (page_limit-IsLimit l) (record {
    newest_first =
        Pairwise-take (λ a b. entry_ts b ≤ entry_ts a) n newest_passing newest_passing_order;
    bounded = length-take_bound n newest_passing;
    from_log = λ e h.
        let (i, p) = (newest_passing-In e).0 (In-take n e newest_passing h) in
        (i, passes-Matches options e p);
    newest = λ a b ha hb m.
        take-newest (λ a b. entry_ts b ≤ entry_ts a) n newest_passing a b newest_passing_order ha
          ((newest_passing-In b).1 (hb, Matches-passes options b m));
    all_if_short = λ short e i m.
        rw (take_short n newest_passing short)
          ((newest_passing-In e).1 (i, Matches-passes options e m));
  })
