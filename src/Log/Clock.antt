-- ===== src/Log/Clock.antt =====
-- `running_time` of breakin.c: the time since the start as hours, minutes and seconds. The clock is
-- taken not to run backwards, so the difference of the two times is a number.
use breakin.Base.{ℕ, ◌+◌, ◌*◌, ◌/◌, ◌%◌, ◌<◌, ◌≡◌, ◌++◌, arith}
use breakin.Text.{Bytes, codes, decimal2}

pub record Hms : Type 0 where
  pub hours : ℕ
  pub mins : ℕ
  pub secs : ℕ

unfoldable pub split_time : ℕ → Hms
split_time run_time =
    let rest : ℕ = run_time % 3600 in
    record { hours = run_time / 3600; mins = rest / 60; secs = rest % 60 }

unfoldable pub running_time : ℕ → Bytes
unfolding split_time decimal2
running_time run_time =
    decimal2 hours
    ++ (codes "h " ++ (decimal2 mins ++ (codes "m " ++ (decimal2 secs ++ codes "s"))))
  where
    open split_time run_time use {hours, mins, secs}

-- The three numbers are the time in mixed radix: they add up to it, and minutes and seconds are
-- below 60.
split_time_lem :
    (t : ℕ)
    → ((split_time t).hours * 3600 + (split_time t).mins * 60 + (split_time t).secs ≡ t)
      × ((split_time t).mins < 60)
      × ((split_time t).secs < 60)
unfolding split_time
split_time_lem t = omega arith
