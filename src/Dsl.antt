-- ===== src/Dsl.antt =====
-- internal/validation/dsl: the expression language of the recipes. A string is the list of its bytes,
-- as Go's are; a float64 is of a type `F` that is a parameter. An error is `none`, without its message.
-- The types of types.go are here, the strings package is Text, parser.go is Scan and Parser.
pub mod Text
pub mod Scan
pub mod Calls
pub mod Parser
pub mod Filter
pub mod Advanced
pub mod Value
pub mod Runes
pub mod References
pub mod Functions
pub mod Evaluator
pub mod Accumulator
pub mod Validation
mod Tests
use sumpter.Base.{ℕ, Bool, List}
use sumpter.Base.Int.{ℤ}

-- A string: its bytes.
abbrev pub Text : Type 0
Text = List ℕ

-- The values of constants in expressions and filters.
pub data Constant (F : Type 0) : Type 0 where
  bool_value : Bool → Constant F
  int_value : ℤ → Constant F
  float_value : F → Constant F
  string_value : Text → Constant F

-- Expression, with its ExpressionType.
mutual
  pub data Expression (F : Type 0) : Type 0 where
    variable : Text → Expression F
    constant : Constant F → Expression F
    binary : Expression F → Text → Expression F → Expression F
    unary : Text → Expression F → Expression F
    function : Text → Arguments F → Expression F
    ternary : Expression F → Expression F → Expression F → Expression F

  pub data Arguments (F : Type 0) : Type 0 where
    no_more : Arguments F
    argument : Expression F → Arguments F → Arguments F
