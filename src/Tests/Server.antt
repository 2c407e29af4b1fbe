-- ===== src/Tests/Server.antt =====
-- The server transaction on concrete requests.
use rssip.Prelude.{◌≡◌, refl, true, codes, [], ◌∷◌, ◌++◌, none, some}
use rssip.Message.Method.{SipMethod, invite}
use rssip.Message.StatusCode.{StatusCode, as_u16, is_final, is_provisional}
use rssip.Transaction.Key.{uas}
use rssip.Transaction.Fsm.{new, trying, proceeding}
use rssip.Transaction.Key.{new_key_3261}
use rssip.Transaction.Server.Respond.{ServerTransaction, send_provisional_response}
use rssip.Transaction.Server.Final.{send_final_response}
use rssip.Transaction.Server.Validity.{
  Answered, StaysValid, Ended, over_at_once, send_provisional_response-IsValid,
  send_final_response-cases,
}
use rssip.Endpoint.Sending.{send_outgoing_response}
use rssip.Message.Messages.{OutgoingResponse}
use rssip.Transaction.Wakes.{Wake, arrives, interval_elapses}
use rssip.Transaction.Server.Retransmissions.{Accepts, await_ack_loop-resends}
use rssip.Transaction.Server.Final.{await_ack_loop}
use rssip.Transaction.Server.Respond.{RetransTask}
use rssip.Transaction.Fsm.{completed}
use rssip.Message.Messages.{incoming_request}
use rssip.Message.Method.{ack}
use rssip.Prelude.{List, some}
use rssip.Tests.Fixtures.{
  server_in, outgoing_response, encode_response, deliver_over_udp, deliver_over_udp-Delivers,
  arrived_request, some_branch, udp,
}

abbrev sent_response : StatusCode → OutgoingResponse
sent_response code = record (outgoing_response code) {
  target = some udp;
  encoded = codes "response";
}

send_final_response-cases_example :
    ((codes "response" ∷ []) ≡ [] ++ codes "response" ∷ [])
    × Answered
        (over_at_once (server_in proceeding invite) (outgoing_response StatusCode.busy_here))
        (server_in proceeding invite)
        (codes "response" ∷ [])
        (send_final_response encode_response deliver_over_udp
          (server_in proceeding invite)
          (outgoing_response StatusCode.busy_here)
          [])
unfolding as_u16 is_final send_outgoing_response
send_final_response-cases_example =
    send_final_response-cases encode_response deliver_over_udp (server_in proceeding invite)
      (outgoing_response StatusCode.busy_here) (sent_response StatusCode.busy_here) []
      (codes "response" ∷ []) refl refl refl

send_provisional_response-IsValid_example :
    let v =
      send_provisional_response encode_response deliver_over_udp
        (server_in proceeding invite)
        (outgoing_response StatusCode.ringing)
        [] in
    StaysValid v × Ended (is_provisional StatusCode.ringing) (server_in proceeding invite) [] v
send_provisional_response-IsValid_example =
    send_provisional_response-IsValid encode_response deliver_over_udp deliver_over_udp-Delivers
      (server_in proceeding invite) (outgoing_response StatusCode.ringing) [] refl

abbrev server_of : SipMethod → ServerTransaction
server_of m = record {
  key = new_key_3261 uas m some_branch;
  state_machine = new trying;
  request = arrived_request m (some some_branch);
  target_info = none;
  receiver = true;
  task = none;
}

deliver_over_udp-Accepts : Accepts deliver_over_udp
deliver_over_udp-Accepts q = (udp, refl)

-- One interval, a retransmitted INVITE, the ACK, and a request after it.
abbrev acked : List Wake
acked =
    interval_elapses
    ∷ arrives (incoming_request (arrived_request invite (some some_branch)))
    ∷ arrives (incoming_request (arrived_request ack (some some_branch)))
    ∷ arrives (incoming_request (arrived_request invite (some some_branch)))
    ∷ []

await_ack_loop-resends_example :
    (await_ack_loop encode_response deliver_over_udp 500
      (server_in completed invite)
      (sent_response StatusCode.busy_here)
      []
      acked).1
    ≡ codes "response" ∷ codes "response" ∷ []
await_ack_loop-resends_example =
    await_ack_loop-resends encode_response deliver_over_udp deliver_over_udp-Accepts
      (server_in completed invite) (sent_response StatusCode.busy_here) 114 (codes "esponse") []
      acked refl 500

-- A ringing response is queued behind the first one.
abbrev queued : RetransTask
queued = record {
  response = sent_response StatusCode.trying;
  queue = sent_response StatusCode.ringing ∷ [];
}
