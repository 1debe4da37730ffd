-- ===== src/Budget/Usage/Doubles.antt =====
-- IEEE 754 double precision for the floats of src/pf_core/budget: a value from 0 on is a whole number of
-- units of 2^-1074, and a result is rounded to the nearest 53 bits, a tie to the even ones.
use pf_core.Prelude.{
  ℕ, zero, suc, ◌+◌, ◌*◌, ◌/◌, ◌%◌, ◌^◌, Bool, ◌&&◌, ◌||◌, ◌==◌, ltb, if◌then◌else◌,
}
use pf_core.Budget.Usage.{Floats}

-- `d` doubled until the quotient has 53 bits, on fuel
unfoldable grown : ℕ → ℕ → ℕ → ℕ
grown zero n d = d
grown (suc k) n d = let rest = grown k n (d * 2) in if ltb (n / d) (2 ^ 53) then d else rest

abbrev ties : ℕ → ℕ → ℕ → Bool
ties n e q = ltb e (n % e * 2) || e == n % e * 2 && q % 2 == 1

abbrev with_step : ℕ → ℕ → ℕ → ℕ
with_step n d e = (if ties n e (n / e) then n / e + 1 else n / e) * (e / d)

-- The double nearest to n / d. The greatest one is below 2^2098 units, so 2045 doublings are enough.
unfoldable pub nearest : ℕ → ℕ → ℕ
unfolding grown
nearest n d = with_step n d (grown 2045 n d)

abbrev pub doubles : Floats
unfolding nearest
doubles = record {
  of_micros = λ m. nearest (m * 2 ^ 1074) 1000000;
  add = λ a b. nearest (a + b) 1;
  scale = λ a f. nearest (a * nearest (f * 2 ^ 1074) 1000) (2 ^ 1074);
  stored = λ x. (x * 20000 + 2 ^ 1074) / (2 ^ 1074 * 2) * 100;
}
