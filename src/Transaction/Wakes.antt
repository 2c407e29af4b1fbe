-- ===== src/Transaction/Wakes.antt =====
-- What the runtime reports to a task that awaits a channel under timers: the outcomes of
-- `time::timeout_at(deadline, time::timeout(interval, channel.recv()))`, in their order.
use rssip.Prelude.{ℕ, List, [], ◌∷◌}
use rssip.Message.Messages.{IncomingMessage}

pub data Wake : Type 0 where
  arrives : IncomingMessage → Wake
  closes interval_elapses deadline_elapses : Wake

-- A result, or a task that still waits when its wakes are used up.
pub data Poll {ℓ} (A : Type ℓ) : Type ℓ where
  ready : A → Poll A
  waiting : Poll A

-- Wakes with the instants, in milliseconds, at which the runtime reports them.
abbrev pub Schedule : Type 0
Schedule = List (ℕ × Wake)

abbrev pub wakes_of : Schedule → List Wake
wakes_of [] = []
wakes_of ((at, w) ∷ es) = w ∷ wakes_of es
