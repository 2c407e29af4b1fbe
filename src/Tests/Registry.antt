-- ===== src/Tests/Registry.antt =====
-- The routing of concrete messages.
use rssip.Prelude.{◌≡◌, arith, inl, inr, refl, [], ◌∷◌, none, some}
use rssip.Message.Method.{invite, ack, options}
use rssip.Message.StatusCode.{StatusCode}
use rssip.Message.Messages.{incoming_request}
use rssip.Transaction.Key.{uas, TransactionKey, new_key_3261}
use rssip.Transaction.Registry.{add_transaction, sent_to, route_request, route_response}
use rssip.Transaction.Registry.Routing.{SameMethod, route_request-add_transaction}
use rssip.Error.{ok}
use rssip.Transaction.Client.Routes.{start-route_response}
use rssip.Transaction.Client.Create.{Started, start, ensure_branch}
use rssip.Endpoint.Sending.{send_outgoing_request}
use rssip.Transaction.Fsm.{calling, new}
use rssip.Transaction.Timers.{t1}
use rssip.Message.Headers.{Via, via}
use rssip.Message.Messages.{Transport, incoming_response}
use rssip.Transaction.Key.{uac}
use rssip.Prelude.{◌+◌, ◌*◌, Text, codes}
use rssip.Tests.Fixtures.{udp, outgoing_request, request_of, encode_request}
use rssip.Tests.Fixtures.{mandatory, arrived_request, arrived_response, some_branch}

abbrev invite_key : TransactionKey
invite_key = new_key_3261 uas invite some_branch

abbrev options_key : TransactionKey
options_key = new_key_3261 uas options some_branch

-- The ACK of an INVITE reaches the transaction of the INVITE.
route_request-add_transaction_example :
    route_request (add_transaction [] invite_key 7) (arrived_request ack (some some_branch))
    ≡ ok (sent_to 7 (incoming_request (arrived_request ack (some some_branch))))
route_request-add_transaction_example =
    route_request-add_transaction [] invite some_branch 7 (arrived_request ack (some some_branch))
      (some_branch, refl, refl) refl (inr (inl refl, inr refl))

not_same : ¬ (SameMethod invite options)
not_same h = ground arith

abbrev via_of : Transport → Text → Via
via_of t branch = record (mandatory invite none).via {
  transport = t.protocol;
  branch = some branch;
}

abbrev sent_via : Via
sent_via = via_of udp some_branch

-- An INVITE without a Via, sent with a fresh branch.
abbrev started : Started
started = record {
  client = record {
    key = new_key_3261 uac invite some_branch;
    state_machine = new calling;
    request = record (outgoing_request invite udp) {
      request = record (request_of invite) { headers = via sent_via ∷ [] };
    };
    peeked = none;
    timeout = 10 + t1 * 64;
  };
  table = add_transaction ((invite_key, 7) ∷ []) (new_key_3261 uac invite some_branch) 9;
  sent = codes "request" ∷ [];
}

start-route_response_example :
    route_response started.table (arrived_response StatusCode.ringing)
    ≡ ok (sent_to 9 (incoming_response (arrived_response StatusCode.ringing)))
unfolding start send_outgoing_request ensure_branch
start-route_response_example =
    start-route_response encode_request via_of some_branch 9 10 ((invite_key, 7) ∷ []) [] invite
      (outgoing_request invite udp) started sent_via some_branch
      (arrived_response StatusCode.ringing) refl refl refl refl refl (inl refl)
