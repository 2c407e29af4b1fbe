-- ===== src/Tests/Dialog.antt =====
-- Dialogs of concrete requests.
use rssip.Prelude.{ℕ, ◌≡◌, refl, true, false, Text, codes, List, [], ◌∷◌, ◌++◌, Option, none, some}
use rssip.Message.Method.{SipMethod, invite, ack, bye, info}
use rssip.Message.StatusCode.{StatusCode, as_u16}
use rssip.Message.Headers.{Contact}
use rssip.Message.Messages.{
  Response, Transport, IncomingRequest, incoming_request, OutgoingResponse, from_headers,
}
use rssip.Endpoint.Creation.{create_response}
use rssip.Endpoint.Creation.Answers.{from_headers-create_response}
use rssip.Ua.Dialog.{DialogState, Dialog, Dialogs, create_uas, create_uac}
use rssip.Ua.Dialog.Receiving.{
  sent_to, plugin_incoming_request, WaitEvent, arrives, wait_for_ack, elapses,
}
use rssip.Ua.Dialog.Receiving.Ids.{create_uas-InDialog, create_uac-never_found}
use rssip.Ua.Dialog.Receiving.Cseq.{remote_number, process_all, process_all-highest}
use rssip.Ua.Dialog.Receiving.Ack.{Ends, Answers, is_ok, wait_for_ack-Ends, wait_for_ack-returns}
use rssip.Ua.Dialog.Responses.{Settings, dialog_create_response}
use rssip.Ua.Dialog.Responses.Tags.{dialog_create_response-tag}
use rssip.Transaction.Key.{Role}
use rssip.Transaction.Fsm.{State}
use rssip.Error.{Result, ok}
use rssip.Tests.Fixtures.{bob, udp, mandatory, arrived_request, some_branch, server_in}

abbrev invited : IncomingRequest
invited = arrived_request invite (some some_branch)

abbrev own : Contact
own = record { uri = bob; params = [] }

abbrev our_tag : Text
our_tag = codes "314159"

-- A request of the caller within the dialog, with its sequence number.
abbrev in_dialog : SipMethod → ℕ → IncomingRequest
in_dialog m n =
    let r = arrived_request m (some some_branch) in
    let h = r.incoming_info.mandatory_headers in
    record r {
      incoming_info = record r.incoming_info {
        mandatory_headers = record h {
          to = record h.to { tag = some our_tag };
          cseq = record { cseq = n; method = m };
        };
      };
    }

abbrev encode : Response → Option Text
encode r = some (codes "response")

abbrev deliver_udp : OutgoingResponse → Result Transport
deliver_udp q = ok udp

abbrev answering : Dialog
answering = record {
  dialog_id = record {
    call_id = codes "a84b4c76e66710";
    local_tag = our_tag;
    remote_tag = some (codes "1928301774");
  };
  state = DialogState.init;
  remote_cseq = some 1;
  local_cseq = none;
  from = (mandatory invite none).from;
  to = (mandatory invite none).to;
  contact = own;
  secure = false;
  route_set = [];
  role = Role.uas;
}

abbrev table : Dialogs
table = (answering.dialog_id, 4) ∷ []

create_uas-InDialog_example :
    plugin_incoming_request encode deliver_udp table (in_dialog bye 2) []
    ≡ sent_to 4 (in_dialog bye 2)
unfolding create_uas
create_uas-InDialog_example =
    create_uas-InDialog encode deliver_udp invited (in_dialog bye 2) own our_tag 4 [] table
      answering [] refl (refl, refl, refl)

create_uac-never_found_example :
    let (d, after) = create_uac bob bob none our_tag 1 (codes "a84b4c76e66710") 4 [] in
    plugin_incoming_request encode deliver_udp after (in_dialog bye 2) []
    ≡ plugin_incoming_request encode deliver_udp [] (in_dialog bye 2) []
create_uac-never_found_example =
    create_uac-never_found encode deliver_udp bob bob none our_tag 1 (codes "a84b4c76e66710") 4 []
      (in_dialog bye 2) (codes "1928301774") [] refl

abbrev later : List IncomingRequest
later = in_dialog bye 3 ∷ in_dialog info 2 ∷ []

process_all-highest_example : remote_number (process_all encode deliver_udp answering later []) ≡ 3
process_all-highest_example =
    process_all-highest encode deliver_udp answering later [] (refl, (refl, tt))

abbrev events : List WaitEvent
events = arrives (incoming_request (in_dialog info 2)) ∷ []

abbrev acked : List WaitEvent
acked = events ++ arrives (incoming_request (in_dialog ack 1)) ∷ elapses ∷ []

wait_for_ack-Ends_example :
    Ends DialogState.init (wait_for_ack encode deliver_udp answering acked [])
wait_for_ack-Ends_example = wait_for_ack-Ends encode deliver_udp answering acked []

always_answers : Answers encode deliver_udp
always_answers = (λ r. (codes "response", refl), λ q. (udp, refl))

wait_for_ack-returns_example :
    is_ok (wait_for_ack encode deliver_udp answering acked []).result ≡ true
wait_for_ack-returns_example =
    wait_for_ack-returns encode deliver_udp answering events (elapses ∷ []) (in_dialog ack 1) []
      always_answers (refl, tt) refl

abbrev settings : Settings
settings = record { allow = codes "INVITE, ACK, BYE"; supported = codes "timer" }

dialog_create_response-tag_example :
    let m = invited.incoming_info.mandatory_headers in
    (r : OutgoingResponse) × (dialog_create_response settings answering
        (server_in State.proceeding invite)
        StatusCode.ok
        none
      ≡ ok r)
    × (from_headers r.response.headers ≡ ok (record m { to = record m.to { tag = some our_tag } }))
unfolding as_u16
dialog_create_response-tag_example =
    dialog_create_response-tag settings answering (server_in State.proceeding invite) StatusCode.ok
      none refl

from_headers-create_response_example :
    let m = invited.incoming_info.mandatory_headers in
    from_headers (create_response invited StatusCode.ok none).headers
    ≡ ok (record m { to = record m.to { tag = some some_branch } })
unfolding as_u16
from_headers-create_response_example = from_headers-create_response invited StatusCode.ok none

-- An ACK with a lower number takes the dialog's highest number down.
ack_lowers_the_number :
    remote_number
      (process_all encode deliver_udp answering (in_dialog bye 3 ∷ in_dialog ack 1 ∷ []) [])
    ≡ 1
unfolding process_all
ack_lowers_the_number = refl
