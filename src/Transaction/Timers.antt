-- ===== src/Transaction/Timers.antt =====
-- rssip/src/transaction/timers.rs: the timer values, in milliseconds.
use rssip.Prelude.{ℕ}

abbrev pub t1 : ℕ
t1 = 500

abbrev pub t2 : ℕ
t2 = 4000

abbrev pub t4 : ℕ
t4 = 5000
