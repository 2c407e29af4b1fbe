-- ===== src/Transaction/Fsm.antt =====
-- rssip/src/transaction/fsm.rs: the states, and the machine that announces their changes. The
-- broadcast channel is the list of the states sent on it, `none` before the first subscription.
use rssip.Prelude.{ℕ, Bool, List, [], ◌∷◌, ◌++◌, Option, none, some, leb}

pub data State : Type 0 where
  calling trying proceeding completed confirmed terminated : State

pub State-discrete : Discrete State
State-discrete = hlevel

-- `derive(PartialOrd)`: the order of declaration.
abbrev rank : State → ℕ
rank calling = 0
rank trying = 1
rank proceeding = 2
rank completed = 3
rank confirmed = 4
rank terminated = 5

-- `s <= State::Proceeding`.
unfoldable pub up_to_proceeding : State → Bool
up_to_proceeding s = leb (rank s) (rank proceeding)

-- `s != State::Proceeding`.
unfoldable pub is_proceeding : State → Bool
is_proceeding proceeding = Bool.true
is_proceeding _ = Bool.false

pub record StateMachine : Type 0 where
  pub state : State
  pub notified : Option (List State)

unfoldable pub new : State → StateMachine
new s = record { state = s; notified = none }

abbrev subscribe : Option (List State) → Option (List State)
subscribe none = some []
subscribe (some sent) = some sent

unfoldable pub subscribe_state : StateMachine → StateMachine
subscribe_state m = record m { notified = subscribe m.notified }

abbrev notify_state_change : State → Option (List State) → Option (List State)
notify_state_change s none = none
notify_state_change s (some sent) = some (sent ++ s ∷ [])

unfoldable pub set_state : State → StateMachine → StateMachine
set_state s m = record { state = s; notified = notify_state_change s m.notified }
