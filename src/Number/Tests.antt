-- ===== src/Number/Tests.antt =====
-- Runs of the arithmetic of doubles.
use tay.Prelude.{◌≡◌, refl, ◌*◌, ◌/◌, ◌^◌, false}
use tay.Number.{finite, unit, times, true_div}

-- 9223372036854775807 / 1000 is 9223372036854776.0
max_seconds : true_div 9223372036854775807 1000 ≡ finite false (9223372036854776 * unit)
unfolding true_div unit
max_seconds = refl

-- 0.1 * 3 is 0.30000000000000004, the double above 0.3
tenth : times (true_div 1 10) 3 ≡ finite false (5404319552844596 * (unit / 2 ^ 54))
unfolding true_div times unit
tenth = refl
