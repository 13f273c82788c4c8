-- ===== src/Rules/Actions/Template.antt =====
-- Notification templates (the renderTemplate and buildVars of
-- packages/backend/src/analytics/rules/orchestrator/action-runner.ts).
use Prim.Native.Char.{Char, code}
use lametrader.Prelude.{
  ℕ, String, Bool, true, false, ◌&&◌, ◌||◌, not, Option, none, some, List, [], ◌∷◌, leb, nat_beq,
  if◌then◌else◌, ◌==◌, text_keyed,
}
use lametrader.Text.{append}
use lametrader.State.{StateValue, text, num, flag}
use lametrader.Rules.Event.{
  EvaluationTriggerEvent, tick, symbol_state_changed, global_state_changed, indicator_changed,
}

pub record Vars : Type 0 where
  pub symbol_id : String
  pub ts : String
  pub prev : String
  pub current : String

pub data RenderResult : Type 0 where
  body : String → RenderResult
  unknown_token : String → RenderResult

pub data Piece : Type 0 where
  plain : String → Piece
  token : String → Piece

-- `\w`
unfoldable pub is_word : Char → Bool
is_word c =
    (leb 48 (code c) && leb (code c) 57)
    || (leb 65 (code c) && leb (code c) 90)
    || nat_beq (code c) 95
    || (leb 97 (code c) && leb (code c) 122)

abbrev pub one_char : Char → String
one_char c = String.◌∷◌ c String.[]

-- The matches of `\{(\w+)\}` from left to right, with the text between: outside of a brace, or
-- inside of one with the word after it.
unfoldable pub pieces : Option String → String → List Piece
unfolding is_word
pieces none String.[] = []
pieces (some word) String.[] = plain (append "{" word) ∷ []
pieces none (String.◌∷◌ c s) =
    let opened = pieces (some "") s in
    let outside = pieces none s in
    if one_char c == "{" then opened else plain (one_char c) ∷ outside
pieces (some word) (String.◌∷◌ c s) =
    let longer = pieces (some (append word (one_char c))) s in
    let opened = pieces (some "") s in
    let outside = pieces none s in
    if is_word c
    then longer
    else if one_char c == "}" && not (word == "")
    then token word ∷ outside
    else if one_char c == "{"
    then plain (append "{" word) ∷ opened
    else plain (append "{" (append word (one_char c))) ∷ outside

-- `vars[name]`; `inherited` has the members that every object has besides its own.
unfoldable pub lookup_var : (String → Option String) → Vars → String → Option String
lookup_var inherited vars name =
    if name == "symbolId"
    then some vars.symbol_id
    else if name == "ts"
    then some vars.ts
    else if name == "prev"
    then some vars.prev
    else if name == "current"
    then some vars.current
    else inherited name

-- The body, or the first token that is not a variable.
unfoldable pub render_pieces : (String → Option String) → Vars → List Piece → RenderResult
unfolding lookup_var
render_pieces inherited vars [] = body ""
render_pieces inherited vars (plain s ∷ ps) = elim (render_pieces inherited vars ps) [
  | body rest ↦ body (append s rest)
  | unknown_token name ↦ unknown_token name
]
render_pieces inherited vars (token name ∷ ps) =
    let rest = render_pieces inherited vars ps in
    elim (lookup_var inherited vars name) [
      | none ↦ unknown_token name
      | some value ↦ elim rest [
        | body after ↦ body (append value after)
        | unknown_token later ↦ unknown_token later
      ]
    ]

unfoldable pub render_template : (String → Option String) → String → Vars → RenderResult
unfolding pieces render_pieces
render_template inherited template vars = render_pieces inherited vars (pieces none template)

-- `String` of a number or a time is an argument.
pub record ShowNumber (N : Type 0) : Type 0 where
  pub show_value : N → String
  pub show_ts : ℕ → String

module _ {N : Type 0} (shown : ShowNumber N) where
  unfoldable pub stringify_state_value : Option (StateValue N) → String
  stringify_state_value none = ""
  stringify_state_value (some (text s)) = s
  stringify_state_value (some (num x)) = shown.show_value x
  stringify_state_value (some (flag true)) = "true"
  stringify_state_value (some (flag false)) = "false"

  unfoldable pub extract_prev_current :
      EvaluationTriggerEvent N → Option (StateValue N) × Option (StateValue N)
  extract_prev_current (symbol_state_changed ts s p k prev current) = (prev, current)
  extract_prev_current (global_state_changed ts p k prev current) = (prev, current)
  extract_prev_current (indicator_changed ts s p i k prev current) = (prev, some current)
  extract_prev_current (tick ts s price) = (none, some (num price))
  extract_prev_current _ = (none, none)

  unfoldable pub build_vars : EvaluationTriggerEvent N → String → ℕ → Vars
  unfolding stringify_state_value extract_prev_current
  build_vars event firing_symbol_id ts =
      let (prev, current) = extract_prev_current event in
      record {
        symbol_id = firing_symbol_id;
        ts = shown.show_ts ts;
        prev = stringify_state_value prev;
        current = stringify_state_value current;
      }
