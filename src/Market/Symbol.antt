-- ===== src/Market/Symbol.antt =====
-- Symbols and the sources that serve them
-- (packages/core/src/types/market-data/symbol.types.ts,
-- packages/backend/src/common/domain/symbol.ts and
-- packages/backend/src/market/market-data/source-registry.ts).
use Prim.Native.Char.{code}
use lametrader.Prelude.{
  ℕ, Bool, true, false, ◌||◌, String, Option, none, some, List, [], ◌∷◌, if◌then◌else◌, nat_beq,
  ◌==◌, text_keyed,
}
use lametrader.Config.{Period}

pub data SymbolType : Type 0 where
  crypto stock fund fx : SymbolType

-- A symbol of the watchlist; its description, exchange and currency are left out.
pub record WatchedSymbol : Type 0 where
  pub id : String
  pub type : SymbolType
  pub periods : List Period

abbrev colon : ℕ
colon = 58

-- `id.split(':')[0]`
unfoldable pub prefix_of : String → String
prefix_of String.[] = ""
prefix_of (String.◌∷◌ c s) = if nat_beq (code c) colon then "" else String.◌∷◌ c (prefix_of s)

-- A type by its value, if it is one (`TYPE_VALUES`).
unfoldable pub type_of_value : String → Option SymbolType
type_of_value s =
    if s == "crypto"
    then some crypto
    else if s == "stock"
    then some stock
    else if s == "fund"
    then some fund
    else if s == "fx"
    then some fx
    else none

-- The asset class in a canonical id; `none` is the error of an unknown type.
unfoldable pub symbol_type : String → Option SymbolType
unfolding prefix_of type_of_value
symbol_type id = type_of_value (prefix_of id)

abbrev pub is_type : SymbolType → SymbolType → Bool
is_type crypto crypto = true
is_type stock stock = true
is_type fund fund = true
is_type fx fx = true
is_type _ _ = false

unfoldable pub serves : List SymbolType → SymbolType → Bool
serves [] type = false
serves (t ∷ types) type = is_type t type || serves types type

-- `sourceForType`: the first source that serves the type; `none` is the error that no source does.
unfoldable pub source_for_type :
    {A : Type 0} → (A → List SymbolType) → List A → SymbolType → Option A
unfolding serves
source_for_type types [] type = none
source_for_type types (a ∷ sources) type =
    let rest = source_for_type types sources type in if serves (types a) type then some a else rest
