-- ===== src/Dsl/Evaluator/Typing.antt =====
-- Which expressions are evaluated with no error, by the kinds of their parts.
use sumpter.Base.{ℕ, ◌≡◌, Bool, true, false, Option, some, List, [], ◌∷◌, map, replicate}
use sumpter.Dsl.{
  Text, bool_value, int_value, float_value, string_value, Expression, variable, constant, binary,
  unary, function, ternary, Arguments, no_more, argument,
}
use sumpter.Dsl.Text.{codes}
use sumpter.Dsl.References.{lower_byte}
use sumpter.Dsl.Value.{Value, null, boolean, int, int64, float64, string, strings, get_field}
use sumpter.Dsl.Functions.{ReferenceLookup, any_empty}
use sumpter.Dsl.Evaluator.{Evaluator}

-- A text may be null, and a list has no empty member.
pub data Kind : Type 0 where
  truth number text list : Kind

pub data HasKind {F : Type 0} : Value F → Kind → Type 0 where
  a_boolean : {b : Bool} → HasKind (boolean b) truth
  an_int : {n : _} → HasKind (int n) number
  an_int64 : {n : _} → HasKind (int64 n) number
  a_float : {x : F} → HasKind (float64 x) number
  a_null : HasKind null text
  a_string : {s : Text} → HasKind (string s) text
  a_list : {ms : List Text} → any_empty ms ≡ false → HasKind (strings ms) list

-- An operator with the kinds of its operands and of what it gives.
pub data Operator : Text → Kind → Kind → Kind → Type 0 where
  plus : Operator (codes "+") number number number
  minus : Operator (codes "-") number number number
  times : Operator (codes "*") number number number
  both : Operator (codes "&&") truth truth truth
  either : Operator (codes "||") truth truth truth
  equal : {j k : Kind} → Operator (codes "==") j k truth
  differs : {j k : Kind} → Operator (codes "!=") j k truth
  above : Operator (codes ">") number number truth
  above_or_equal : Operator (codes ">=") number number truth
  below : Operator (codes "<") number number truth
  below_or_equal : Operator (codes "<=") number number truth

-- The kinds of the variables, and the reference tables of both modes.
pub record Context : Type 0 where
  pub variables : Text → Option Kind
  pub memberships : Text → Bool
  pub lookups : Text → Bool

-- A function in lower case with the kinds of its arguments and of what it gives.
pub data Function (context : Context) : Text → List Kind → Kind → Type 0 where
  abs : Function context (codes "abs") (number ∷ []) number
  round : Function context (codes "round") (number ∷ []) number
  round_at : Function context (codes "round") (number ∷ number ∷ []) number
  min : (n : ℕ) → Function context (codes "min") (number ∷ replicate n number) number
  max : (n : ℕ) → Function context (codes "max") (number ∷ replicate n number) number
  count :
      context.variables (codes "count") ≡ some number → Function context (codes "count") [] number
  sum : context.variables (codes "sum") ≡ some number → Function context (codes "sum") [] number
  lower : Function context (codes "lower") (text ∷ []) text
  upper : Function context (codes "upper") (text ∷ []) text
  normalize_space : Function context (codes "normalize_space") (text ∷ []) text
  string_length : Function context (codes "string_length") (text ∷ []) number
  starts_with_any : Function context (codes "starts_with_any") (text ∷ list ∷ []) truth
  value_in : Function context (codes "value_in") (text ∷ list ∷ []) truth

mutual
  pub data Typed {F : Type 0} (context : Context) : Expression F → Kind → Type 0 where
    reads : {x : Text} {k : Kind} → context.variables x ≡ some k → Typed context (variable x) k
    flag : {b : Bool} → Typed context (constant (bool_value b)) truth
    whole : {n : _} → Typed context (constant (int_value n)) number
    real : {x : F} → Typed context (constant (float_value x)) number
    literal : {s : Text} → Typed context (constant (string_value s)) text
    applies :
        {a b : Expression F} {op : Text} {i j k : Kind}
        → Operator op i j k
        → Typed context a i
        → Typed context b j
        → Typed context (binary a op b) k
    negates : {a : Expression F} → Typed context a truth → Typed context (unary (codes "!") a) truth
    calls :
        {name : Text} {args : Arguments F} {ks : List Kind} {k : Kind}
        → Function context (map lower_byte name) ks k
        → TypedArguments context args ks
        → Typed context (function name args) k
    asks :
        {name table : Text} {key : Expression F}
        → map lower_byte name ≡ codes "in_reference"
        → context.memberships table ≡ true
        → Typed context key text
        → Typed context
            (function name (argument (constant (string_value table)) (argument key no_more)))
            truth
    looks_up :
        {name table : Text} {key default : Expression F}
        → map lower_byte name ≡ codes "lookup_reference"
        → context.lookups table ≡ true
        → Typed context key text
        → Typed context default text
        → Typed context
            (function name
              (argument (constant (string_value table)) (argument key (argument default no_more))))
            text
    chooses :
        {c a b : Expression F} {k : Kind}
        → Typed context c truth
        → Typed context a k
        → Typed context b k
        → Typed context (ternary c a b) k

  pub data TypedArguments {F : Type 0} (context : Context) : Arguments F → List Kind → Type 0 where
    none_left : TypedArguments context no_more []
    one_more :
        {a : Expression F} {args : Arguments F} {k : Kind} {ks : List Kind}
        → Typed context a k
        → TypedArguments context args ks
        → TypedArguments context (argument a args) (k ∷ ks)

-- Each variable that the context declares is there and has its kind, and each table is one that the
-- lookup knows, in its mode.
pub record IsTypedBy {F : Type 0} (context : Context) (e : Evaluator F) : Type 0 where
  pub variable_kinds :
      (x : Text) (k : Kind)
      → context.variables x ≡ some k
      → (v : Value F) × (get_field x e.variables ≡ some v) × HasKind v k
  pub answers_contains :
      (table : Text)
      → context.memberships table ≡ true
      → (refs : ReferenceLookup) × (e.references ≡ some refs)
        × ((key : Text) → (b : Bool) × (refs.contains table key ≡ some b))
  pub answers_lookup :
      (table : Text)
      → context.lookups table ≡ true
      → (refs : ReferenceLookup) × (e.references ≡ some refs)
        × ((key : Text) → (found : Option Text) × (refs.lookup table key ≡ some found))
