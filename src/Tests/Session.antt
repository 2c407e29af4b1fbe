-- ===== src/Tests/Session.antt =====
-- Offers and answers of two concrete sessions.
use rssip.Prelude.{
  ◌≡◌, refl, Bool, true, false, within, Text, codes, List, [], ◌∷◌, Option, none, some, arith,
  decimal,
}
use rssip.Media.Codec.{ulaw, alaw}
use rssip.Media.Sdp.{audio, rtp_avp, v4, v6, IpAddr, send_recv, SessionDescription}
use rssip.Media.Negotiator.{done, Negotiator, with_remote}
use rssip.Media.Negotiator.Answer.{Negotiated}
use rssip.Media.Negotiator.Offering.{SdpOfferParams, offered_media, offered}
use rssip.Media.Negotiator.Offering.{empty_params, add_media_stream, empty_stream, with_codecs}
use rssip.Media.Negotiator.Completed.{answered_by, create_offer-create_answer}
use rssip.Message.Method.{ack, invite}
use rssip.Message.StatusCode.{StatusCode, as_u16, is_final}
use rssip.Message.Messages.{IncomingRequest}
use rssip.Ua.Dialog.Receiving.{WaitEvent, arrives}
use rssip.Message.Messages.{incoming_request, incoming_response}
use rssip.Ua.Session.Negotiating.{Platform, parse_sdp, Established}
use rssip.Ua.Session.Incoming.{Opened, open_session, early_offer, from_invite, accept}
use rssip.Ua.Session.Accepted.{Called, accept-from_invite}
use rssip.Ua.Dialog.Responses.{Settings}
use rssip.Scanner.{next_byte, must_read, scan_while, scan_number, scan_if}
use rssip.Scanner.Strings.{scan_while_as_str}
use rssip.Media.Sdp.Keywords.{addr_type_of, media_type_of, is_token, transport_of, net_type_of}
use rssip.Media.Sdp.Parser.{parse, default_session}
use rssip.Media.Sdp.{in_net, ip4, direction_of, direction_name}
use rssip.Media.Sdp.Setters.{change_last}
use rssip.Message.Headers.{Contact}
use rssip.Media.Negotiator.Offering.{
  create_offer, stream_media, codecs_formats, codecs_attributes, codec_attributes,
}
use rssip.Media.Negotiator.{
  set_remote_offer, set_local_offer, create_answer, answer_all, answer_media, match_formats,
  parse_u8, find_direction, answer_direction, answer_attributes,
}
use rssip.Ua.Session.Negotiating.{negotiation_done}
use rssip.Ua.Session.Incoming.{
  acceptance, answer_invite, established, our_sdp, take_answer, after_final,
}
use rssip.Ua.Dialog.{Dialog, DialogState, create_uas, create_uac, create_request}
use rssip.Ua.Dialog.Receiving.{wait_for_ack, process_incoming_request}
use rssip.Ua.Dialog.Responses.{dialog_create_response}
use rssip.Transaction.Server.Respond.{create}
use rssip.Transaction.Server.Final.{send_final_response}
use rssip.Transaction.Key.{Role, from_request, new_key_3261}
use rssip.Transaction.Fsm.{State, new}
use rssip.Transaction.Registry.{add_transaction}
use rssip.Message.Headers.{Via, via}
use rssip.Message.Messages.{Request, Transport, OutgoingRequest, IncomingResponse}
use rssip.Ua.Session.Calling.{
  acknowledge_2xx, with_offer, InvitationParams, OriginIds, Invited, send_invite, receive_answer,
}
use rssip.Transaction.Client.Create.{send}
use rssip.Transaction.Wakes.{Wake, Poll, waiting, ready}
use rssip.Endpoint.Sending.{send_outgoing_request}
use rssip.Media.Negotiator.{new as nothing_offered}
use rssip.Transaction.Client.Final.{receive_final_response}
use rssip.Ua.Session.LateOffer.{Offered}
use rssip.Ua.Session.Acked.{ack_2xx, SentOne}
use rssip.Ua.Session.CallEstablished.{receive_answer-send_invite}
use rssip.Transaction.Client.Wait.{receive_response_if, retransmit_loop}
use rssip.Transaction.Client.Final.{complete}
use rssip.Ua.Session.Calling.{answer_turn, answered_2xx, negotiated, negotiated_in, answer_late}
use rssip.Error.{Result, ok, err, panic}
use rssip.Tests.Fixtures.{
  udp, encode_request, arrived_response, bob, mandatory, arrived_request, some_branch, key_of,
  server_in, client_in, encode_response, deliver_over_udp,
}

abbrev is_done {ℓ} : {A : Type ℓ} → Result A → Bool
is_done (ok a) = true
is_done (err e) = false
is_done panic = false

value {ℓ} : {A : Type ℓ} (r : Result A) → is_done r ≡ true → (a : A) × (r ≡ ok a)
value (ok a) e = (a, refl)
value (err x) e = cc
value panic e = cc

abbrev written : IpAddr → Text
written (v4 t) = t
written (v6 t) = t

-- Addresses are their own texts.
abbrev platform : Platform
platform = record {
  is_utf8 = λ t. true;
  parse_ip = λ t. some (v4 t);
  show_ip = written;
  local_ip = v4 (codes "h");
}

abbrev offer_text : Text
offer_text = codes "v=0\r\no=- 1 1 IN IP4 h\r\ns=-\r\nm=audio 9 RTP/AVP 8\r\n"

abbrev offering : SdpOfferParams
offering =
    let stream = with_codecs (ulaw ∷ alaw ∷ []) (empty_stream audio rtp_avp 7) in
    add_media_stream stream (empty_params (v4 (codes "i")) (some send_recv))

abbrev invitation : IncomingRequest
invitation =
    let r = arrived_request invite (some some_branch) in
    record r { request = record r.request { body = some offer_text } }

abbrev own : Contact
own = record { uri = bob; params = [] }

abbrev theirs : SessionDescription
theirs = record (default_session (v4 (codes "h"))) {
  origin = record {
    user = codes "-";
    session_id = 1;
    session_version = 1;
    nettype = in_net;
    addrtype = ip4;
    unicast_address = v4 (codes "h");
  };
  session_name = codes "-";
  media =
      record {
        media_type = audio;
        proto = rtp_avp;
        port = 9;
        number_of_ports = none;
        media_formats = codes "8" ∷ [];
        title = none;
        connection_information = none;
        bandwidth_information = [];
        attributes = [];
      }
      ∷ [];
}

abbrev called : Dialog
called =
    let m = mandatory invite (some some_branch) in
    record {
      dialog_id = record { call_id = m.call_id; local_tag = codes "t"; remote_tag = m.from.tag };
      state = DialogState.init;
      remote_cseq = some 1;
      local_cseq = none;
      from = m.from;
      to = m.to;
      contact = own;
      secure = false;
      route_set = [];
      role = Role.uas;
    }

abbrev opened : Opened
opened = record {
  session = record {
    dialog = called;
    server = record (server_in State.proceeding invite) { request = invitation };
    negotiator = with_remote theirs;
  };
  dialogs = (called.dialog_id, 4) ∷ [];
  table = (key_of Role.uas, 5) ∷ [];
}

parsed : parse_sdp platform offer_text ≡ ok theirs
unfolding parse_sdp parse next_byte must_read scan_while scan_while_as_str scan_number addr_type_of
    media_type_of is_token transport_of scan_if default_session net_type_of
parsed = refl

opened_by_invite : from_invite platform invitation own (codes "t") 4 [] 5 [] ≡ ok opened
unfolding from_invite open_session early_offer create_uas create set_remote_offer from_request
    with_remote new_key_3261 new add_transaction
opened_by_invite = rw parsed refl

abbrev events : List WaitEvent
events = arrives (incoming_request (arrived_request ack (some some_branch))) ∷ []

abbrev settings : Settings
settings = record { allow = []; supported = [] }

accepted :
    (x : Established) × ((accept encode_response deliver_over_udp platform settings opened.session
        StatusCode.ok none offering 1 1 events []).result
      ≡ ok x)
unfolding accept acceptance answer_invite established our_sdp take_answer negotiation_done
    with_remote dialog_create_response create_offer offered offered_media stream_media change_last
    codecs_formats codecs_attributes codec_attributes set_local_offer create_answer answer_all
    answer_media match_formats parse_u8 send_final_response wait_for_ack after_final
    process_incoming_request find_direction answer_direction answer_attributes direction_of
    direction_name as_u16 decimal is_final
accepted =
    value
      (accept encode_response deliver_over_udp platform settings opened.session StatusCode.ok none
        offering 1 1 events []).result
      refl

accept-from_invite_example :
    Called encode_response deliver_over_udp platform opened.session
      (some offer_text)
      (offered offering 1 1)
      events
      []
      accepted.0
accept-from_invite_example =
    accept-from_invite encode_response deliver_over_udp platform invitation own (codes "t") 4 [] 5
      [] opened settings StatusCode.ok none offering 1 1 events [] accepted.0 opened_by_invite
      accepted.1

create_offer-create_answer_example :
    (m : Negotiator) × (a : SessionDescription) × (answered_by (with_remote theirs) offering 1 1
      ≡ ok m)
    × (m.state ≡ done)
    × (m.answer ≡ some a)
    × Negotiated (offered_media offering) theirs.media a.media
unfolding with_remote
create_offer-create_answer_example =
    create_offer-create_answer (with_remote theirs) theirs offering 1 1 refl refl
      ((omega arith, (omega arith, tt)), tt) (refl, refl, tt)

abbrev params : InvitationParams
params = record { from_uri = bob; to_uri = bob; contact = none; sdp = none }

abbrev ids : OriginIds
ids = record { session_id = 1; session_version = 2 }

abbrev over_udp : Request → Result OutgoingRequest
over_udp q = ok (record { request = q; target = udp; encoded = [] })

abbrev via_of : Transport → Text → Via
via_of t branch = (mandatory invite (some branch)).via

abbrev picked_up : IncomingResponse
picked_up =
    let r = arrived_response StatusCode.ok in
    record r { response = record r.response { body = some offer_text } }

abbrev dialled : Dialog
dialled = (create_uac bob bob none (codes "t") 7 (codes "c") 4 []).0

abbrev request : Request
request = (create_request dialled invite 7).0

abbrev invited : Invited
invited = record {
  session = record {
    dialog = (create_request dialled invite 7).1;
    client = record (client_in State.calling invite udp) {
      request = record {
        request = record request { headers = via (via_of udp some_branch) ∷ request.headers };
        target = udp;
        encoded = codes "request";
      };
    };
    negotiator = nothing_offered;
  };
  dialogs = (dialled.dialog_id, 4) ∷ [];
  table = (key_of Role.uac, 5) ∷ [];
  sent = codes "request" ∷ [];
}

invited_by_call :
    send_invite encode_request platform settings params ids via_of over_udp
      (codes "t")
      7
      (codes "c")
      4
      []
      some_branch
      5
      0
      []
      []
    ≡ ok invited
unfolding send_invite with_offer send create_uac create_request send_outgoing_request new_key_3261
    new add_transaction
invited_by_call = refl

abbrev wakes : List Wake
wakes = Wake.arrives (incoming_response picked_up) ∷ []

abbrev is_ready {ℓ} : {A : Type ℓ} → Poll (Result A) → Bool
is_ready (ready r) = is_done r
is_ready waiting = false

ready_value {ℓ} :
    {A : Type ℓ} (p : Poll (Result A)) → is_ready p ≡ true → (a : A) × (p ≡ ready (ok a))
ready_value (ready (ok a)) e = (a, refl)
ready_value (ready (err x)) e = cc
ready_value (ready panic) e = cc
ready_value waiting e = cc

established_call :
    (x : Established) × ((receive_answer encode_request platform
        (some offering)
        ids
        over_udp
        invited.session
        7
        invited.sent
        wakes).result
      ≡ ready (ok x))
unfolding receive_answer answer_turn receive_final_response receive_response_if retransmit_loop
    is_final as_u16 answered_2xx negotiated negotiated_in answer_late create_offer offered
    offered_media stream_media change_last codecs_formats codecs_attributes codec_attributes
    set_local_offer set_remote_offer create_answer answer_all answer_media match_formats parse_u8
    decimal find_direction answer_direction answer_attributes direction_of direction_name
    negotiation_done acknowledge_2xx create_request send_outgoing_request complete create_uac
established_call =
    ready_value
      (receive_answer encode_request platform (some offering) ids over_udp invited.session 7
        invited.sent wakes).result
      (rw parsed refl)

receive_answer-send_invite_example :
    (params.sdp ≡ none)
    × (response : IncomingResponse) × (reply : Option Text) × ((receive_final_response
          encode_request invited.session.client invited.sent wakes).result
        ≡ ready (ok response))
    × (within 200 299 (as_u16 response.response.code) ≡ true)
    × Offered platform (some offering) ids response.response.body reply established_call.0.event
    × SentOne encode_request over_udp
        (ack_2xx params (codes "t") 7 (codes "c") reply)
        (receive_final_response encode_request invited.session.client invited.sent wakes).sent
        (receive_answer encode_request platform
          (some offering)
          ids
          over_udp
          invited.session
          7
          invited.sent
          wakes).sent
    × (established_call.0.dialog ≡ invited.session.dialog)
receive_answer-send_invite_example =
    receive_answer-send_invite encode_request platform settings params ids via_of over_udp
      (codes "t") 7 (codes "c") 4 [] some_branch 5 0 [] [] invited (some offering) ids over_udp 7
      wakes established_call.0 invited_by_call established_call.1
