-- ===== src/Text.antt =====
-- Texts joined by a separator: a part without the separator can be read off the end.
use mathlib.Core.Path.{ap₂}
use Prim.Native.Char.{Char, code}
use Prim.Native.String
use text.Mathlib.TextLemmas.{nil-append, cons-append, tail-eq_of_cons-eq, head-eq_of_cons-eq}
use text.Mathlib.TextEquality.{eq_iff}
use lametrader.Prelude.{
  String, ◌≡◌, refl, sym, ap, ◌∙◌, ◌↔◌, inl, inr, Bool, true, false, arith, nat_beq, if◌then◌else◌,
  Bool-cases, ◌==◌, text_keyed,
}

abbrev pub append : String → String → String
append s t = String.◌++◌ s t

-- `String.prototype.endsWith`.
unfoldable pub ends_with : String → String → Bool
ends_with String.[] suffix = String.[] == suffix
ends_with (String.◌∷◌ c s) suffix =
    let rest = ends_with s suffix in if String.◌∷◌ c s == suffix then true else rest

ends_with_sound :
    (s suffix : String) → ends_with s suffix ≡ true → (before : String) × (s ≡ append before suffix)
unfolding ends_with
ends_with_sound String.[] suffix h =
    (String.[], (eq_iff String.[] suffix).0 h ∙ sym (nil-append suffix))
ends_with_sound (String.◌∷◌ c s) suffix h = elim (Bool-cases (String.◌∷◌ c s == suffix)) [
  | inl e ↦ (String.[], (eq_iff (String.◌∷◌ c s) suffix).0 e ∙ sym (nil-append suffix))
  | inr e ↦
      let (before, q) = ends_with_sound s suffix (rw (e, ends_with) at h) in
      (String.◌∷◌ c before, ap (String.◌∷◌ c) q ∙ sym (cons-append c before suffix))
]

-- A text ends with itself.
ends_with_self : (s : String) → ends_with s s ≡ true
unfolding ends_with
ends_with_self String.[] = (eq_iff String.[] String.[]).1 refl
ends_with_self (String.◌∷◌ c s) = rw ((eq_iff (String.◌∷◌ c s) (String.◌∷◌ c s)).1 refl) refl

ends_with-cons :
    (c : Char) (s suffix : String)
    → ends_with s suffix ≡ true
    → ends_with (String.◌∷◌ c s) suffix ≡ true
unfolding ends_with
ends_with-cons c s suffix h = ground arith

pub ends_with-append : (before suffix : String) → ends_with (append before suffix) suffix ≡ true
ends_with-append String.[] suffix = rw nil-append (ends_with_self suffix)
ends_with-append (String.◌∷◌ c s) suffix =
    rw cons-append (ends_with-cons c (append s suffix) suffix (ends_with-append s suffix))

pub ends_with_iff :
    (s suffix : String)
    → (ends_with s suffix ≡ true) ↔ ((before : String) × (s ≡ append before suffix))
ends_with_iff s suffix = (ends_with_sound s suffix, λ h. rw h.1 (ends_with-append h.0 suffix))

-- `String.prototype.startsWith`.
unfoldable pub starts_with : String → String → Bool
starts_with s String.[] = true
starts_with String.[] (String.◌∷◌ d p) = false
starts_with (String.◌∷◌ c s) (String.◌∷◌ d p) =
    let rest = starts_with s p in if nat_beq (code c) (code d) then rest else false

-- The separator of the composite keys.
abbrev pub bar : Char
bar = "|"

-- The separator does not occur.
unfoldable pub no_bar : String → Bool
no_bar String.[] = true
no_bar (String.◌∷◌ c s) = let rest = no_bar s in if nat_beq (code c) b'|' then false else rest

no_bar-bar : (before rest : String) → no_bar (append before (String.◌∷◌ bar rest)) ≡ false
unfolding no_bar
no_bar-bar String.[] rest = rw nil-append refl
no_bar-bar (String.◌∷◌ c s) rest = rw cons-append (ground (arith, no_bar-bar s rest))

-- What stands behind the last separator is determined, and so is what stands before it.
pub last_part :
    (x z a b : String)
    → no_bar a ≡ true
    → no_bar b ≡ true
    → append x (String.◌∷◌ bar a) ≡ append z (String.◌∷◌ bar b)
    → (x ≡ z) × (a ≡ b)
last_part String.[] String.[] a b na nb e =
    (refl, tail-eq_of_cons-eq (sym (nil-append _) ∙ e ∙ nil-append _))
last_part String.[] (String.◌∷◌ d z) a b na nb e =
    let q : a ≡ append z (String.◌∷◌ bar b) =
      tail-eq_of_cons-eq (sym (nil-append _) ∙ e ∙ cons-append d z _) in
    absurd (ground (arith, no_bar-bar z b))
last_part (String.◌∷◌ c x) String.[] a b na nb e =
    let q : append x (String.◌∷◌ bar a) ≡ b =
      tail-eq_of_cons-eq (sym (cons-append c x _) ∙ e ∙ nil-append _) in
    absurd (ground (arith, no_bar-bar x a))
last_part (String.◌∷◌ c x) (String.◌∷◌ d z) a b na nb e =
    let whole = sym (cons-append c x (String.◌∷◌ bar a)) ∙ e ∙ cons-append d z (String.◌∷◌ bar b) in
    let (same, rest) = last_part x z a b na nb (tail-eq_of_cons-eq whole) in
    (ap₂ String.◌∷◌ (head-eq_of_cons-eq whole) same, rest)

-- What stands before the first separator is determined, and so is what stands behind it.
pub first_part :
    (a b x z : String)
    → no_bar a ≡ true
    → no_bar b ≡ true
    → append a (String.◌∷◌ bar x) ≡ append b (String.◌∷◌ bar z)
    → (a ≡ b) × (x ≡ z)
unfolding no_bar
first_part String.[] String.[] x z na nb e =
    (refl, tail-eq_of_cons-eq (sym (nil-append _) ∙ e ∙ nil-append _))
first_part String.[] (String.◌∷◌ d b) x z na nb e =
    let same : code bar ≡ code d =
      ap code (head-eq_of_cons-eq (sym (nil-append _) ∙ e ∙ cons-append d b _)) in
    absurd (ground arith)
first_part (String.◌∷◌ c a) String.[] x z na nb e =
    let same : code c ≡ code bar =
      ap code (head-eq_of_cons-eq (sym (cons-append c a _) ∙ e ∙ nil-append _)) in
    absurd (ground arith)
first_part (String.◌∷◌ c a) (String.◌∷◌ d b) x z na nb e =
    let whole = sym (cons-append c a (String.◌∷◌ bar x)) ∙ e ∙ cons-append d b (String.◌∷◌ bar z) in
    let (same, rest) =
      first_part a b x z (ground arith) (ground arith) (tail-eq_of_cons-eq whole) in
    (ap₂ String.◌∷◌ (head-eq_of_cons-eq whole) same, rest)
