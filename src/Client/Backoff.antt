-- ===== src/Client/Backoff.antt =====
-- The pause between two attempts to connect, in `_connection_supervisor` of
-- clients/python/tay/client.py: arithmetic on floats.
use tay.Prelude.{ℕ, ◌*◌, ◌^◌, Bool, true, false, not, ◌&&◌, ◌||◌, ltb, if◌then◌else◌}
use tay.Number.{Float, nan, inf, finite}

-- `x < y`
unfoldable pub below : Float → Float → Bool
below nan y = false
below (inf s) nan = false
below (inf s) (inf r) = s && not r
below (inf s) (finite r n) = s
below (finite s m) nan = false
below (finite s m) (inf r) = not r
below (finite false m) (finite false n) = ltb m n
below (finite true m) (finite true n) = ltb n m
below (finite true m) (finite false n) = ltb 0 m || ltb 0 n
below (finite false m) (finite true n) = false

-- `min(x, y)`
unfoldable pub lesser : Float → Float → Float
unfolding below
lesser x y = if below y x then y else x

-- Where the doubles end, in units.
unfoldable pub float_end : ℕ
float_end = 2 ^ 2098

-- `x * 2`, which is exact up to the infinity
unfoldable pub doubled : Float → Float
unfolding float_end
doubled nan = nan
doubled (inf s) = inf s
doubled (finite s m) = if ltb (2 * m) float_end then finite s (2 * m) else inf s

-- `delay = min(delay * 2, self.reconnect_max_delay)`
unfoldable pub next_delay : Float → Float → Float
unfolding lesser doubled
next_delay maximum delay = lesser (doubled delay) maximum
