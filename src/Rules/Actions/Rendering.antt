-- ===== src/Rules/Actions/Rendering.antt =====
-- What `renderTemplate` of
-- packages/backend/src/analytics/rules/orchestrator/action-runner.ts makes of a written template.
use Prim.Native.Char.{Char, code}
use lametrader.Prelude.{
  ◌≤◌, String, ◌≡◌, ◌⊎◌, false, Option, none, some, List, [], ◌∷◌, ◌==◌, text_keyed,
}
use lametrader.Text.{append}
use lametrader.Rules.Actions.Template.{
  Vars, RenderResult, body, unknown_token, Piece, plain, token, one_char,
}

-- A part of a template as it is written: a character, or a token by its name.
pub data Segment : Type 0 where
  letter : Char → Segment
  placeholder : String → Segment

-- The template: a token's name stands in braces.
pub text_of : List Segment → String
text_of [] = String.[]
text_of (letter c ∷ segments) = String.◌∷◌ c (text_of segments)
text_of (placeholder name ∷ segments) =
    String.◌∷◌ "{" (append name (String.◌∷◌ "}" (text_of segments)))

-- A digit, a letter of the alphabet, or an underscore.
unfoldable pub IsWordChar : Char → Type 0
IsWordChar c =
    ((b'0' ≤ code c) × (code c ≤ b'9'))
    ⊎ ((b'A' ≤ code c) × (code c ≤ b'Z'))
    ⊎ (code c ≡ b'_')
    ⊎ ((b'a' ≤ code c) × (code c ≤ b'z'))

unfoldable pub IsWord : String → Type 0
IsWord String.[] = Unit
IsWord (String.◌∷◌ c s) = IsWordChar c × IsWord s

-- A character other than an opening brace, or a token whose name is a word.
unfoldable pub IsWritten : Segment → Type 0
IsWritten (letter c) = (one_char c == "{") ≡ false
IsWritten (placeholder name) = IsWord name × ((name == "") ≡ false)

-- The names of the variables, with their values.
pub data Value (vars : Vars) : String → String → Type 0 where
  symbol_id_value : Value vars "symbolId" vars.symbol_id
  ts_value : Value vars "ts" vars.ts
  prev_value : Value vars "prev" vars.prev
  current_value : Value vars "current" vars.current

-- The result: each token is replaced by its variable's value, and the first token that is no
-- variable is the error. `inherited` answers for a name that is no variable.
pub data Renders (inherited : String → Option String) (vars : Vars)
    : List Segment → RenderResult → Type 0 where
  renders_end : Renders inherited vars [] (body "")
  renders_letter :
      {segments : List Segment} {rest : String} (c : Char)
      → Renders inherited vars segments (body rest)
      → Renders inherited vars (letter c ∷ segments) (body (String.◌∷◌ c rest))
  fails_after_letter :
      {segments : List Segment} {name : String} (c : Char)
      → Renders inherited vars segments (unknown_token name)
      → Renders inherited vars (letter c ∷ segments) (unknown_token name)
  renders_value :
      {segments : List Segment} {name value rest : String}
      → Value vars name value
        ⊎ (((v : String) → ¬ Value vars name v) × (inherited name ≡ some value))
      → Renders inherited vars segments (body rest)
      → Renders inherited vars (placeholder name ∷ segments) (body (append value rest))
  fails_after_value :
      {segments : List Segment} {name value later : String}
      → Value vars name value
        ⊎ (((v : String) → ¬ Value vars name v) × (inherited name ≡ some value))
      → Renders inherited vars segments (unknown_token later)
      → Renders inherited vars (placeholder name ∷ segments) (unknown_token later)
  fails_here :
      {segments : List Segment} {name : String}
      → ((v : String) → ¬ Value vars name v)
      → inherited name ≡ none
      → Renders inherited vars (placeholder name ∷ segments) (unknown_token name)

-- The scan, as pieces.
piece_of : Segment → Piece
piece_of (letter c) = plain (one_char c)
piece_of (placeholder name) = token name

pieces_of : List Segment → List Piece
pieces_of [] = []
pieces_of (s ∷ segments) = piece_of s ∷ pieces_of segments

module _ (inherited : String → Option String) (vars : Vars) where
  -- What a name stands for.
  abbrev Stands : String → Option String → Type 0
  Stands name none = ((v : String) → ¬ Value vars name v) × (inherited name ≡ none)
  Stands name (some value) =
      Value vars name value ⊎ (((v : String) → ¬ Value vars name v) × (inherited name ≡ some value))
