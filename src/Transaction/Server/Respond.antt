-- ===== src/Transaction/Server/Respond.antt =====
-- rssip/src/transaction/server.rs: `ServerTransaction`, its creation, provisional responses, and
-- the task that retransmits them. `encode` and `deliver` are the endpoint's (Endpoint/Sending).
use rssip.Prelude.{
  ℕ, Bool, true, false, Text, List, [], ◌∷◌, ◌++◌, Option, none, some, if◌then◌else◌,
}
use rssip.Message.StatusCode.{is_provisional}
use rssip.Message.Messages.{Response, Transport, IncomingRequest, OutgoingResponse}
use rssip.Transaction.Fsm.{State, trying, proceeding, StateMachine, new, set_state, subscribe_state}
use rssip.Transaction.Key.{TransactionKey, from_request}
use rssip.Transaction.Registry.{Table, add_transaction}
use rssip.Transaction.Client.Wait.{is_invite}
use rssip.Transaction.Client.Create.{is_ack}
use rssip.Endpoint.Sending.{send_outgoing_response}
use rssip.Error.{custom, Result, ok, err, panic, ◌>>=◌}

-- The task of `spawn_retransmit_provisional_task`: its response, and the channel `provisional_tx`.
pub record RetransTask : Type 0 where
  pub response : OutgoingResponse
  pub queue : List OutgoingResponse

-- `receiver` tells whether the transaction still holds the receiver of its channel.
pub record ServerTransaction : Type 0 where
  pub key : TransactionKey
  pub state_machine : StateMachine
  pub request : IncomingRequest
  pub target_info : Option Transport
  pub receiver : Bool
  pub task : Option RetransTask

abbrev pub server_state : ServerTransaction → State
server_state s = s.state_machine.state

abbrev pub set_server_state : State → ServerTransaction → ServerTransaction
set_server_state st s = record s { state_machine = set_state st s.state_machine }

unfoldable pub create : IncomingRequest → ℕ → Table → Result (ServerTransaction × Table)
create request channel table = if is_ack request.request.method then panic else (do
  key ← from_request request
  let first = if is_invite request.request.method then proceeding else trying
  let server : ServerTransaction = record {
    key = key;
    state_machine = new first;
    request = request;
    target_info = none;
    receiver = true;
    task = none;
  }
  ok (server, add_transaction table key channel))

pub record Served : Type 0 where
  pub server : ServerTransaction
  pub sent : List Text
  pub result : Result (Unit {0})

abbrev keep_first : Option Transport → Option Transport → Option Transport
keep_first none t = t
keep_first (some u) t = some u

-- `spawn_retransmit_provisional_task`, from `receiver.take().expect(..)` on.
abbrev pub spawn_task : Bool → ServerTransaction → OutgoingResponse → List Text → Served
spawn_task false s r sent = record { server = s; sent = sent; result = panic }
spawn_task true s r sent = record {
  server = record s {
    receiver = false;
    state_machine = subscribe_state (set_state proceeding s.state_machine);
    task = some (record { response = r; queue = [] });
  };
  sent = sent;
  result = ok tt;
}

abbrev pub hand_over :
    Option RetransTask → ServerTransaction → OutgoingResponse → List Text → Served
hand_over (some t) s r sent = record {
  server = record s { task = some (record t { queue = t.queue ++ r ∷ [] }) };
  sent = sent;
  result = ok tt;
}
hand_over none s r sent = spawn_task s.receiver s r sent

-- `send_response`, after `send_outgoing_response`: the first target stays.
abbrev pub keep_target : ServerTransaction → OutgoingResponse → ServerTransaction
keep_target s r = record s { target_info = keep_first s.target_info r.target }

abbrev pub provisional_sent :
    ServerTransaction → List Text → Result (OutgoingResponse × List Text) → Served
provisional_sent s sent (ok (r, sent')) = hand_over s.task (keep_target s r) r sent'
provisional_sent s sent (err e) = record { server = s; sent = sent; result = err e }
provisional_sent s sent panic = record { server = s; sent = sent; result = panic }

-- `select!` with `biased`: the new provisional responses are taken before any message.
abbrev pub latest : OutgoingResponse → List OutgoingResponse → OutgoingResponse
latest r [] = r
latest r (q ∷ queue) = latest q queue

pub data TaskEvent : Type 0 where
  state_changes message_arrives : TaskEvent

module _ (encode : Response → Option Text) (deliver : OutgoingResponse → Result Transport) where
  unfoldable pub send_provisional_response :
      ServerTransaction → OutgoingResponse → List Text → Served
  unfolding is_provisional
  send_provisional_response s r sent =
      if is_provisional r.response.code
      then provisional_sent s sent (send_outgoing_response encode deliver r sent)
      else record { server = s; sent = sent; result = err custom }

  abbrev pub retransmitted_by_task :
      RetransTask → List Text → Result (OutgoingResponse × List Text) → RetransTask × List Text
  retransmitted_by_task t sent (ok (r, sent')) = (record { response = r; queue = [] }, sent')
  retransmitted_by_task t sent (err e) = (t, sent)
  retransmitted_by_task t sent panic = (t, sent)

  -- The loop of the task up to its end, which gives the receiver back. The flag tells that it ended.
  unfoldable pub task_loop :
      RetransTask → List Text → List TaskEvent → RetransTask × List Text × Bool
  task_loop t sent [] = (t, sent, false)
  task_loop t sent (state_changes ∷ events) = (t, sent, true)
  task_loop t sent (message_arrives ∷ events) =
      let current = latest t.response t.queue in
      let (t', sent') =
        retransmitted_by_task (record { response = current; queue = [] }) sent
          (send_outgoing_response encode deliver current sent) in
      task_loop t' sent' events
