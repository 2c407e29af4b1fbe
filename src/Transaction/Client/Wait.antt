-- ===== src/Transaction/Client/Wait.antt =====
-- rssip/src/transaction/client.rs: `ClientTransaction` and `receive_response_if`, the wait for a
-- response in each state; `recv_if` is that of rssip-utils/src/peekable_receiver.rs.
pub mod Outcome
pub mod Retransmission
use rssip.Prelude.{
  ℕ, ◌*◌, Bool, true, false, Text, List, [], ◌∷◌, Option, none, some, if◌then◌else◌,
}
use rssip.Message.Method.{SipMethod, invite}
use rssip.Message.Messages.{
  Request, IncomingResponse, IncomingMessage, incoming_request, incoming_response, OutgoingRequest,
  is_unreliable,
}
use rssip.Transaction.Fsm.{State, calling, trying, proceeding, terminated, StateMachine, set_state}
use rssip.Transaction.Timers.{t1}
use rssip.Transaction.Key.{TransactionKey}
use rssip.Endpoint.Sending.{send_outgoing_request}
pub use rssip.Transaction.Wakes.{
  Wake, arrives, closes, interval_elapses, deadline_elapses, Poll, ready, waiting,
}
use rssip.Error.{transaction, timeout, Result, ok, err, panic}

-- `peeked` is that of the `PeekableReceiver`; `timeout` is an instant in milliseconds.
pub record ClientTransaction : Type 0 where
  pub key : TransactionKey
  pub state_machine : StateMachine
  pub request : OutgoingRequest
  pub peeked : Option IncomingMessage
  pub timeout : ℕ

pub record Receipt (A : Type 0) : Type 0 where
  pub client : ClientTransaction
  pub sent : List Text
  pub rest : List Wake
  pub result : Poll (Result A)

abbrev pub client_state : ClientTransaction → State
client_state c = c.state_machine.state

abbrev pub set_client_state : State → ClientTransaction → ClientTransaction
set_client_state s c = record c { state_machine = set_state s c.state_machine }

-- A peeked message is ready before anything else is.
abbrev pub front_first : Option IncomingMessage → List Wake → List Wake
front_first none wakes = wakes
front_first (some m) wakes = arrives m ∷ wakes

abbrev pub is_invite : SipMethod → Bool
is_invite invite = true
is_invite _ = false

-- `retrans_interval *= 2`, the interval that is armed after a retransmission.
abbrev pub next_interval : ℕ → ℕ
next_interval interval = interval * 2

module _ (pred : IncomingResponse → Bool) where
  -- `recv_if`: a message that does not match stays in `peeked`.
  abbrev take_if : IncomingMessage → Option IncomingMessage × Option IncomingResponse
  take_if (incoming_request r) = (some (incoming_request r), none)
  take_if (incoming_response r) =
      if pred r then (none, some r) else (some (incoming_response r), none)

  abbrev pub received :
      ClientTransaction
      → List Text
      → List Wake
      → IncomingMessage
      → Receipt (Option IncomingResponse)
  received c sent rest m =
      let (kept, got) = take_if m in
      record {
        client = record c { peeked = kept };
        sent = sent;
        rest = rest;
        result = ready (ok got);
      }

  abbrev pub ended :
      ClientTransaction
      → List Text
      → List Wake
      → Result (Option IncomingResponse)
      → Receipt (Option IncomingResponse)
  ended c sent rest r = record { client = c; sent = sent; rest = rest; result = ready r }

  abbrev pub timed_out :
      ClientTransaction → List Text → List Wake → Receipt (Option IncomingResponse)
  timed_out c sent rest =
      ended (set_client_state terminated c) sent rest (err (transaction timeout))

  abbrev pub still_waiting : ClientTransaction → List Text → Receipt (Option IncomingResponse)
  still_waiting c sent = record { client = c; sent = sent; rest = []; result = waiting }

  -- `Calling | Trying` on an unreliable transport: the loop that retransmits.
  module _ (encode : Request → Option Text) where
    unfoldable pub retransmit_loop :
        ℕ → ClientTransaction → List Text → List Wake → Receipt (Option IncomingResponse)
    retransmit_loop interval c sent [] = still_waiting c sent
    retransmit_loop interval c sent (arrives m ∷ wakes) = received c sent wakes m
    retransmit_loop interval c sent (closes ∷ wakes) = ended c sent wakes (ok none)
    retransmit_loop interval c sent (deadline_elapses ∷ wakes) = timed_out c sent wakes
    retransmit_loop interval c sent (interval_elapses ∷ wakes) =
        elim (send_outgoing_request encode c.request sent) [
          | ok (r, sent') ↦
              retransmit_loop (next_interval interval) (record c { request = r }) sent' wakes
          | err e ↦ ended c sent wakes (err e)
          | panic ↦ ended c sent wakes panic
        ]

  -- `timeout_at(deadline, recv_if(pred))`: no other timer is armed.
  unfoldable pub until_deadline :
      ClientTransaction → List Text → List Wake → Receipt (Option IncomingResponse)
  until_deadline c sent [] = still_waiting c sent
  until_deadline c sent (arrives m ∷ wakes) = received c sent wakes m
  until_deadline c sent (closes ∷ wakes) = ended c sent wakes (ok none)
  until_deadline c sent (deadline_elapses ∷ wakes) = timed_out c sent wakes
  until_deadline c sent (interval_elapses ∷ wakes) = until_deadline c sent wakes

  -- `recv_if(pred)` with no timer at all.
  unfoldable pub without_deadline :
      ClientTransaction → List Text → List Wake → Receipt (Option IncomingResponse)
  without_deadline c sent [] = still_waiting c sent
  without_deadline c sent (arrives m ∷ wakes) = received c sent wakes m
  without_deadline c sent (closes ∷ wakes) = ended c sent wakes (ok none)
  without_deadline c sent (deadline_elapses ∷ wakes) = without_deadline c sent wakes
  without_deadline c sent (interval_elapses ∷ wakes) = without_deadline c sent wakes

  module _ (encode : Request → Option Text) where
    abbrev pub receive_first :
        ClientTransaction → List Text → List Wake → Receipt (Option IncomingResponse)
    receive_first c sent wakes =
        if is_unreliable c.request.target
        then retransmit_loop encode t1 c sent wakes
        else until_deadline c sent wakes

    abbrev pub receive_in :
        State → ClientTransaction → List Text → List Wake → Receipt (Option IncomingResponse)
    receive_in calling c sent wakes = receive_first c sent wakes
    receive_in trying c sent wakes = receive_first c sent wakes
    receive_in proceeding c sent wakes =
        if is_invite c.request.request.method
        then without_deadline c sent wakes
        else until_deadline c sent wakes
    receive_in _ c sent wakes = ended c sent wakes panic

    unfoldable pub receive_response_if :
        ClientTransaction → List Text → List Wake → Receipt (Option IncomingResponse)
    unfolding is_unreliable
    receive_response_if c sent wakes =
        receive_in (client_state c) (record c { peeked = none }) sent (front_first c.peeked wakes)
