-- ===== src/Tests/Client.antt =====
-- The client transaction on concrete schedules.
use rssip.Prelude.{◌≡◌, ◌⊎◌, refl, true, codes, [], ◌∷◌, some, length}
use rssip.Message.Method.{invite}
use rssip.Message.StatusCode.{StatusCode, as_u16, is_final, is_provisional}
use rssip.Message.Messages.{incoming_response, is_unreliable}
use rssip.Transaction.Fsm.{calling, proceeding, completed, terminated, up_to_proceeding}
use rssip.Transaction.Wakes.{Schedule, wakes_of}
use rssip.Transaction.Client.Wait.{
  arrives, deadline_elapses, interval_elapses, ready, client_state, receive_response_if,
  retransmit_loop, until_deadline,
}
use rssip.Transaction.Client.Receive.{final, receive_provisional_response}
use rssip.Transaction.Client.Final.{
  complete, receive_final_response, absorb_loop, create_ack_request,
}
use rssip.Transaction.Client.Ack.{absorb_loop_resends}
use rssip.Transaction.Client.Returned.{receive-Follows, receive_final_response-ok}
use rssip.Transaction.Client.Transitions.{Follows}
use rssip.Transaction.Client.Misuse.{receive_final_response-provisional}
use rssip.Endpoint.Sending.{send_outgoing_request}
use rssip.Error.{err, channel_closed}
use rssip.Tests.Fixtures.{udp, tcp, client_in, arrived_response, encode_request, outgoing_request}

abbrev busy : Schedule
busy = (400, arrives (incoming_response (arrived_response StatusCode.busy_here))) ∷ []

abbrev ringing : Schedule
ringing = (400, arrives (incoming_response (arrived_response StatusCode.ringing))) ∷ []

-- Six retransmissions, at the intervals T1, 2*T1, .., 32*T1, and the deadline.
abbrev silence : Schedule
silence =
    (500, interval_elapses)
    ∷ (1500, interval_elapses)
    ∷ (3500, interval_elapses)
    ∷ (7500, interval_elapses)
    ∷ (15500, interval_elapses)
    ∷ (31500, interval_elapses)
    ∷ (32000, deadline_elapses)
    ∷ []

receive-Follows_example :
    Follows calling (
      client_state
        (receive_provisional_response encode_request
          (client_in calling invite udp)
          []
          (wakes_of ringing)).client)
    × Follows calling (
        client_state
          (receive_final_response encode_request
            (client_in calling invite udp)
            []
            (wakes_of ringing)).client)
receive-Follows_example =
    receive-Follows encode_request (client_in calling invite udp) [] (wakes_of ringing)

receive_final_response-ok_example :
    let f =
      receive_final_response encode_request (client_in calling invite udp) [] (wakes_of busy) in
    (final (arrived_response StatusCode.busy_here) ≡ true)
    × ((client_state f.client ≡ completed) ⊎ (client_state f.client ≡ terminated))
unfolding receive_final_response receive_response_if is_unreliable retransmit_loop complete as_u16
    is_final create_ack_request send_outgoing_request
receive_final_response-ok_example =
    receive_final_response-ok encode_request (client_in calling invite udp) [] (wakes_of busy)
      (arrived_response StatusCode.busy_here) refl

absorb_loop_resends_example :
    let (c', sent', done) =
      absorb_loop encode_request
        (some (outgoing_request invite udp))
        (client_in completed invite udp)
        []
        (wakes_of busy) in
    sent' ≡ codes "request" ∷ []
absorb_loop_resends_example =
    absorb_loop_resends encode_request (outgoing_request invite udp) 114 (codes "equest")
      (client_in completed invite udp) [] (wakes_of busy) refl

receive_final_response-provisional_example :
    (receive_final_response encode_request
      (client_in proceeding invite tcp)
      []
      (wakes_of ringing)).result
    ≡ ready (err channel_closed)
unfolding up_to_proceeding is_provisional as_u16
receive_final_response-provisional_example =
    receive_final_response-provisional encode_request (client_in proceeding invite tcp) [] []
      (arrived_response StatusCode.ringing) refl refl refl

-- On a reliable transport a 486 to an INVITE is not acknowledged.
busy_over_tcp_test :
    (receive_final_response encode_request (client_in calling invite tcp) [] (wakes_of busy)).sent
    ≡ []
unfolding receive_final_response receive_response_if is_unreliable until_deadline complete as_u16
    is_final
busy_over_tcp_test = refl

-- Without an answer all six retransmissions go out.
silence_test :
    length
      (receive_response_if final encode_request
        (client_in calling invite udp)
        []
        (wakes_of silence)).sent
    ≡ 6
unfolding receive_response_if is_unreliable retransmit_loop send_outgoing_request
silence_test = refl
