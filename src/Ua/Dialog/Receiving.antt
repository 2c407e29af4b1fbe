-- ===== src/Ua/Dialog/Receiving.antt =====
-- rssip/src/ua/dialog.rs: what a dialog does with the messages of its channel, and how the plugin
-- puts a request there. The events of a wait are the messages and the end of its timer.
pub mod Ids
pub mod Cseq
pub mod Ack
use rssip.Prelude.{
  ℕ, leb, Bool, true, false, not, ◌&&◌, ◌||◌, Text, codes, List, [], ◌∷◌, Option, none, some,
  if◌then◌else◌,
}
use rssip.Message.Method.{SipMethod, invite, ack, cancel}
use rssip.Message.StatusCode.{server_internal_error, call_or_transaction_does_not_exist}
use rssip.Message.Headers.{Contact, Header, contact}
use rssip.Message.Messages.{
  Response, Transport, IncomingRequest, IncomingMessage, incoming_request, incoming_response,
  OutgoingResponse,
}
use rssip.Transaction.Client.Wait.{is_invite}
use rssip.Transaction.Client.Create.{is_ack}
use rssip.Endpoint.Creation.{create_outgoing_response}
use rssip.Endpoint.Sending.{send_outgoing_response}
use rssip.Ua.Dialog.{
  DialogState, established, DialogId, Dialog, Dialogs, get_dialog, from_incoming_request,
  get_or_insert,
}
use rssip.Error.{channel_closed, custom, Result, ok, err, panic}

abbrev pub is_cancel : SipMethod → Bool
is_cancel cancel = true
is_cancel _ = false

abbrev pub keeps_cseq : SipMethod → Bool
keeps_cseq m = is_cancel m || is_ack m

-- `find_map_header!(headers, Contact)`.
unfoldable pub find_contact : List Header → Option Contact
find_contact [] = none
find_contact (contact c ∷ hs) = some c
find_contact (h ∷ hs) = find_contact hs

abbrev pub refreshed : Bool → Option Contact → Contact → Contact
refreshed true (some c) old = c
refreshed _ _ old = old

pub record Processed : Type 0 where
  pub dialog : Dialog
  pub sent : List Text
  pub result : Result (Unit {0})

pub data WaitEvent : Type 0 where
  arrives : IncomingMessage → WaitEvent
  elapses : WaitEvent

pub record Received : Type 0 where
  pub dialog : Dialog
  pub sent : List Text
  pub result : Result IncomingRequest

-- A request behind its processing: it is returned, or what failed is.
abbrev pub returned : Processed → IncomingRequest → Received
returned p r = record {
  dialog = p.dialog;
  sent = p.sent;
  result = elim p.result [ ok done ↦ ok r | err e ↦ err e | panic ↦ panic ];
}

-- `wait_for_ack` behind `receive_request`: an ACK ends the wait, any other request is left out.
abbrev pub awaited : Result (Unit {0}) → Processed → IncomingRequest → Received → Received
awaited (ok done) p r rest =
    if is_ack r.request.method
    then record { dialog = record p.dialog { state = established }; sent = p.sent; result = ok r }
    else rest
awaited (err e) p r rest = returned p r
awaited panic p r rest = returned p r

-- What the plugin has done with a request: it leaves it, it answers it or drops it, or it sends it
-- to a channel.
pub data Plugged : Type 0 where
  left : Plugged
  taken : List Text → Plugged
  sent_to : ℕ → IncomingRequest → Plugged

module _ (encode : Response → Option Text) (deliver : OutgoingResponse → Result Transport) where
  abbrev answered : Dialog → List Text → Result (OutgoingResponse × List Text) → Processed
  answered d sent (ok (r, more)) = record { dialog = d; sent = more; result = ok tt }
  answered d sent (err e) = record { dialog = d; sent = sent; result = err e }
  answered d sent panic = record { dialog = d; sent = sent; result = panic }

  -- `process_incoming_request`.
  unfoldable pub process_incoming_request : Dialog → IncomingRequest → List Text → Processed
  unfolding find_contact create_outgoing_response send_outgoing_response
  process_incoming_request d r sent =
      let number = r.incoming_info.mandatory_headers.cseq.cseq in
      let method = r.request.method in
      if not (keeps_cseq method) && leb number (get_or_insert d.remote_cseq 0)
      then answered d sent (
          send_outgoing_response encode deliver
            (create_outgoing_response r server_internal_error (some (codes "Invalid Cseq"))) sent)
      else record {
        dialog = record d {
          remote_cseq = some number;
          contact = refreshed (is_invite method) (find_contact r.request.headers) d.contact;
        };
        sent = sent;
        result = ok tt;
      }

  -- `receive_request`: responses are skipped.
  unfoldable pub receive_request : Dialog → List IncomingMessage → List Text → Received
  unfolding process_incoming_request
  receive_request d [] sent = record { dialog = d; sent = sent; result = err channel_closed }
  receive_request d (incoming_response r ∷ more) sent = receive_request d more sent
  receive_request d (incoming_request r ∷ more) sent =
      returned (process_incoming_request d r sent) r

  -- `wait_for_ack`. The timer starts anew for each request.
  unfoldable pub wait_for_ack : Dialog → List WaitEvent → List Text → Received
  unfolding process_incoming_request
  wait_for_ack d [] sent = record { dialog = d; sent = sent; result = err channel_closed }
  wait_for_ack d (elapses ∷ more) sent = record { dialog = d; sent = sent; result = err custom }
  wait_for_ack d (arrives (incoming_response r) ∷ more) sent = wait_for_ack d more sent
  wait_for_ack d (arrives (incoming_request r) ∷ more) sent =
      let p = process_incoming_request d r sent in
      let rest = wait_for_ack p.dialog more p.sent in awaited p.result p r rest

  -- The response 481, whose failure is logged.
  abbrev refused : Result (OutgoingResponse × List Text) → List Text → Plugged
  refused (ok (r, more)) sent = taken more
  refused (err e) sent = taken sent
  refused panic sent = taken sent

  abbrev plugged : Option ℕ → IncomingRequest → List Text → Plugged
  unfolding create_outgoing_response send_outgoing_response
  plugged (some channel) r sent = sent_to channel r
  plugged none r sent =
      if is_ack r.request.method
      then taken sent
      else refused
          (send_outgoing_response encode deliver
            (create_outgoing_response r call_or_transaction_does_not_exist none) sent)
          sent

  abbrev found_id : Dialogs → Option DialogId → IncomingRequest → List Text → Plugged
  unfolding get_dialog plugged
  found_id dialogs none r sent = left
  found_id dialogs (some id) r sent = plugged (get_dialog dialogs id) r sent

  -- `incoming_request` of the plugin.
  unfoldable pub plugin_incoming_request : Dialogs → IncomingRequest → List Text → Plugged
  unfolding from_incoming_request found_id
  plugin_incoming_request dialogs r sent = found_id dialogs (from_incoming_request r) r sent
