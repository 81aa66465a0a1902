-- ===== src/Util/Timer.antt =====
-- include/util/timer.h. `now` is what `current_millis` gives at the call.
use streaming.Prelude.{ℕ, ◌+◌, ◌-◌, ◌*◌, ◌/◌, ◌%◌, ◌^◌, ltb, ◌==◌, if◌then◌else◌}

pub record Ticker : Type 0 where
  pub begin : ℕ
  pub created : ℕ

unfoldable pub new_ticker : ℕ → Ticker
new_ticker now = record { begin = now; created = now }

-- A difference of `uint64_t`.
unfoldable pub elapsed_time : ℕ → Ticker → ℕ
elapsed_time now t = (now + 2 ^ 64 - t.begin) % 2 ^ 64

unfoldable pub created_time : ℕ → Ticker → ℕ
created_time now t = (now + 2 ^ 64 - t.created) % 2 ^ 64

unfoldable pub reset_time : ℕ → Ticker → Ticker
reset_time now t = record t { begin = now }

-- `speed` is an `int`, as its 32 bits.
pub record BytesSpeed : Type 0 where
  pub speed : ℕ
  pub bytes : ℕ
  pub ticker : Ticker

unfoldable pub new_speed : ℕ → BytesSpeed
unfolding new_ticker
new_speed now = record { speed = 0; bytes = 0; ticker = new_ticker now }

unfoldable pub compute_speed : ℕ → BytesSpeed → ℕ × BytesSpeed
unfolding elapsed_time reset_time
compute_speed now s =
    let elapsed = elapsed_time now s.ticker in
    let speed = s.bytes * 1000 % 2 ^ 64 / elapsed % 2 ^ 32 in
    if elapsed == 0
    then (s.speed, s)
    else (speed, record { speed = speed; bytes = 0; ticker = reset_time now s.ticker })

-- `+=`
unfoldable pub add_bytes : ℕ → ℕ → BytesSpeed → BytesSpeed
unfolding compute_speed
add_bytes now n s =
    let sum = record s { bytes = (s.bytes + n) % 2 ^ 64 } in
    if ltb (1024 * 1024) sum.bytes then (compute_speed now sum).1 else sum

unfoldable pub get_speed : ℕ → BytesSpeed → ℕ × BytesSpeed
unfolding compute_speed elapsed_time
get_speed now s = if ltb (elapsed_time now s.ticker) 1000 then (s.speed, s) else compute_speed now s
