-- ===== src/Dsl/Value/Naturals.antt =====
-- An instance of the arithmetic of float64 for the tests: the natural numbers, with 1000 for +Inf.
use sumpter.Base.{ℕ, ◌+◌, ◌-◌, ◌*◌, ◌/◌, ◌^◌, false, ltb, leb, ◌==◌}
use sumpter.Base.Int.{ℤ, pos, negsuc}
use sumpter.Dsl.Value.{Float64}

abbrev from_int : ℤ → ℕ
from_int (pos n) = n
from_int (negsuc n) = 0

abbrev pub naturals : Float64 ℕ
naturals = record {
  of_int = from_int;
  add = λ a b. a + b;
  sub = λ a b. a - b;
  mul = λ a b. a * b;
  div = λ a b. a / b;
  eq = λ a b. a == b;
  lt = ltb;
  le = leb;
  abs = λ a. a;
  round = λ a. a;
  trunc = λ a. a;
  pow10 = λ a. 10 ^ a;
  is_nan = λ a. false;
  is_inf = λ a. a == 1000;
  is_neg_inf = λ a. false;
  inf = 1000;
  neg_inf = 0;
  to_nat = λ a. a;
}
