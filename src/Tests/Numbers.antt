-- ===== src/Tests/Numbers.antt =====
-- Natural numbers in the place of `double`.
use ics_trafficgen.Base.{ℕ, pos, negsuc, not, ◌==◌, if◌then◌else◌}
use ics_trafficgen.Points.{Doubles}

abbrev pub doubles : Doubles ℕ
doubles = record {
  zero_value = 0;
  eq = λ a b. a == b;
  of_int = λ z. elim z [ pos n ↦ n | negsuc n ↦ 0 ];
  of_bool = λ b. if b then 1 else 0;
  of_uint32 = λ n. n;
  to_bool = λ n. not (n == 0);
  to_uint32 = λ n. n;
  round_int = λ n. pos n;
}
