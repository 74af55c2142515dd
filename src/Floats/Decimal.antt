-- ===== src/Floats/Decimal.antt =====
-- Numbers of three decimals in place of float64 (internal/analysis), to run the models. They have no
-- roots and stop at zero.
use rightsizer.Prelude.{◌+◌, ◌-◌, ◌*◌, ◌/◌, ℕ, false, ltb, leb, max, min}
use rightsizer.Floats.{Floats}

abbrev pub thousandths : Floats
thousandths = record {
  F = ℕ;
  of_int = λ n. 1000 * n;
  add = λ a b. a + b;
  sub = λ a b. a - b;
  mul = λ a b. a * b / 1000;
  div = λ a b. 1000 * a / b;
  sqrt = λ a. a;
  larger = max;
  smaller = min;
  le = leb;
  lt = ltb;
  is_nan = λ x. false;
  trunc = λ x. x / 1000;
  ceil = λ x. (x + 999) / 1000;
  round32 = λ x. x;
}
