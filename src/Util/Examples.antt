-- ===== src/Util/Examples.antt =====
-- Runs of the code of util/, at one input for each theorem.
use streaming.Prelude.{ℕ}
use streaming.Util.Pool.{Pool, create, get_obj_ptr}

abbrev two : Pool
two = create 2 100

abbrev one_used : ℕ × Pool
one_used = get_obj_ptr two
