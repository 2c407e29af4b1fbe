-- ===== src/Ua/Session/CallEstablished.antt =====
-- A call is only established where its INVITE has no offer and the response brings one.
use rssip.Prelude.{
  ℕ, within, ◌≡◌, refl, ap, ◌∙◌, true, Text, List, Option, none, Bool-cases, inl, inr,
}
use mathlib.Core.Path.{subst}
use rssip.Media.Negotiator.Offering.{SdpOfferParams}
use rssip.Message.StatusCode.{as_u16}
use rssip.Message.Method.{invite}
use rssip.Message.Headers.{Via}
use rssip.Message.Messages.{Request, Transport, IncomingResponse, OutgoingRequest}
use rssip.Transaction.Registry.{Table}
use rssip.Transaction.Client.Wait.{Wake, Poll, ready, waiting}
use rssip.Transaction.Client.Create.{send}
use rssip.Transaction.Client.Final.{Finish, receive_final_response}
use rssip.Ua.Dialog.{Dialog, Dialogs, create_uac, create_request}
use rssip.Ua.Dialog.Responses.{Settings}
use rssip.Ua.Session.Negotiating.{Established, Platform, NegotiationDone, negotiation_done}
use rssip.Ua.Session.Calling.{
  InvitationParams, Calling, Invited, OriginIds, with_offer, with_settings, negotiated, send_invite,
  acknowledge_2xx, answered_2xx, receive_answer, ended, answer_turn,
}
use rssip.Ua.Session.Acked.{ack_2xx, SentOne, send_invite-dialog, acknowledge_2xx-ack_2xx}
use rssip.Ua.Session.Answered.{Starts, with_offer-Starts}
use rssip.Error.{Result, ok, err, panic, >>=-eq-ok}
use rssip.Ua.Session.LateOffer.{Offered, negotiated-Offered}

ended-ok :
    (f : Finish) (r : Result (Established × List Text)) (x : Established)
    → (ended f r).result ≡ ready (ok x)
    → r ≡ ok (x, (ended f r).sent)
ended-ok f (ok (y, sent)) x e = let same : y ≡ x = cc in ap (λ (x : Established). ok (x, sent)) same
ended-ok f (err e) x h = cc
ended-ok f panic x h = cc

-- A response that is awaited and is a 2xx, and what was done for it.
answer_turn-ok :
    (on_2xx : Option Text → List Text → Result (Established × List Text)) (f : Finish)
    (p : Poll (Result IncomingResponse)) (x : Established)
    → (answer_turn on_2xx f p).result ≡ ready (ok x)
    → (response : IncomingResponse) × (p ≡ ready (ok response))
      × (within 200 299 (as_u16 response.response.code) ≡ true)
      × (on_2xx response.response.body f.sent ≡ ok (x, (answer_turn on_2xx f p).sent))
unfolding answer_turn
answer_turn-ok on_2xx f waiting x e = cc
answer_turn-ok on_2xx f (ready (err e)) x h = cc
answer_turn-ok on_2xx f (ready panic) x h = cc
answer_turn-ok on_2xx f (ready (ok response)) x e =
    elim (Bool-cases (within 200 299 (as_u16 response.response.code))) [
      | inl success ↦ (
        response,
        refl,
        success,
        rw success (ended-ok f (on_2xx response.response.body f.sent) x (rw success at e)),
      )
      | inr other ↦ let never = rw other at e in cc
    ]

established_by :
    (d : Dialog) (event : NegotiationDone) (x : Established) (sent left : List Text)
    → ◌≡◌ {A = Result (Established × List Text)}
        (ok (record { dialog = d; event = event }, sent))
        (ok (x, left))
    → (event ≡ x.event) × (d ≡ x.dialog) × (sent ≡ left)
established_by d event x sent left e = (cc, cc, cc)

module _ (encode : Request → Option Text) (o : Platform) where
  answered_2xx-Offered :
      (first p : Option SdpOfferParams) (ids : OriginIds)
      (create : Request → Result OutgoingRequest) (c : Calling) (random : ℕ) (body : Option Text)
      (sent left : List Text) (x : Established)
      → Starts first c.negotiator
      → answered_2xx encode o p ids create c random body sent ≡ ok (x, left)
      → (first ≡ none)
        × (reply : Option Text) × Offered o p ids body reply x.event
        × (acknowledge_2xx encode create c.dialog random reply sent ≡ ok (x.dialog, left))
  unfolding answered_2xx
  answered_2xx-Offered first p ids create c random body sent left x starts e =
      let ((m, reply), h1, e1) = >>=-eq-ok (negotiated o p ids c.negotiator body) _ e in
      let (event, h2, e2) = >>=-eq-ok (negotiation_done m) _ e1 in
      let ((d, more), h3, e3) =
        >>=-eq-ok (acknowledge_2xx encode create c.dialog random reply sent) _ e2 in
      let (same, dialogs, logs) = established_by d event x more left e3 in
      let (no_first, done) =
        negotiated-Offered o first p ids c.negotiator m body reply event starts h1 h2 in
      (
        no_first,
        reply,
        subst (λ (v : NegotiationDone). Offered o p ids body reply v) same done,
        h3
            ∙ ap (λ (d : Dialog). ok (d, more)) dialogs
            ∙ ap (λ (more : List Text). ok (x.dialog, more)) logs,
      )

  send_invite-Starts :
      (e : Settings) (p : InvitationParams) (ids : OriginIds) (via_of : Transport → Text → Via)
      (create : Request → Result OutgoingRequest) (tag : Text) (number : ℕ) (call : Text)
      (channel : ℕ) (dialogs : Dialogs) (fresh : Text) (tsx_channel now : ℕ) (table : Table)
      (sent : List Text) (invited : Invited)
      → send_invite encode o e p ids via_of create tag number call channel dialogs fresh tsx_channel
          now table sent
        ≡ ok invited
      → Starts p.sdp invited.session.negotiator
  unfolding send_invite
  send_invite-Starts e p ids via_of create tag number call channel dialogs fresh tsx_channel now
        table sent invited h =
      let made = create_uac p.from_uri p.to_uri p.contact tag number call channel dialogs in
      let q = with_settings e (create_request made.0 invite number).0 in
      let ((n, r), h1, e1) = >>=-eq-ok (with_offer o p.sdp ids q) _ h in
      let (started, h2, e2) =
        >>=-eq-ok (send encode via_of create fresh tsx_channel now table sent r) _ e1 in
      let same : n ≡ invited.session.negotiator = cc in
      subst (Starts p.sdp) same (with_offer-Starts o p.sdp ids q r n h1)

  -- A call that `send_invite` opens is established only if its INVITE carries no offer. Where
  -- `receive_answer` succeeds, the final response is a 2xx, its body parses as the remote description
  -- that the handler is told of, there are parameters for the local one, and the media of the answer
  -- are negotiated between them. Behind what the wait for the response has sent stands exactly one
  -- message: the bytes of the request made from the ACK, which has the From, To, Call-ID and number
  -- of the INVITE, the caller's contact, or else its From URI, as URI, and the answer as its body.
  -- The dialog stays the one of the INVITE.
  pub receive_answer-send_invite :
      (e : Settings) (p : InvitationParams) (ids : OriginIds) (via_of : Transport → Text → Via)
      (create : Request → Result OutgoingRequest) (tag : Text) (number : ℕ) (call : Text)
      (channel : ℕ) (dialogs : Dialogs) (fresh : Text) (tsx_channel now : ℕ) (table : Table)
      (sent : List Text) (invited : Invited) (params : Option SdpOfferParams) (later : OriginIds)
      (create_ack : Request → Result OutgoingRequest) (random : ℕ) (wakes : List Wake)
      (x : Established)
      → send_invite encode o e p ids via_of create tag number call channel dialogs fresh tsx_channel
          now table sent
        ≡ ok invited
      → (receive_answer encode o params later create_ack invited.session random invited.sent
          wakes).result
        ≡ ready (ok x)
      → (p.sdp ≡ none)
        × (response : IncomingResponse) × (reply : Option Text) × ((receive_final_response encode
              invited.session.client invited.sent wakes).result
            ≡ ready (ok response))
        × (within 200 299 (as_u16 response.response.code) ≡ true)
        × Offered o params later response.response.body reply x.event
        × SentOne encode create_ack
            (ack_2xx p tag number call reply)
            (receive_final_response encode invited.session.client invited.sent wakes).sent
            (receive_answer encode o params later create_ack invited.session random invited.sent
              wakes).sent
        × (x.dialog ≡ invited.session.dialog)
  unfolding receive_answer
  receive_answer-send_invite e p ids via_of create tag number call channel dialogs fresh tsx_channel
        now table sent invited params later create_ack random wakes x h established =
      let c = invited.session in
      let f = receive_final_response encode c.client invited.sent wakes in
      let (response, final, success, done) =
        answer_turn-ok
          (λ body sent. answered_2xx encode o params later create_ack c random body sent) f f.result
          x established in
      let starts =
        send_invite-Starts e p ids via_of create tag number call channel dialogs fresh tsx_channel
          now table sent invited h in
      let (no_first, reply, negotiation, acked) =
        answered_2xx-Offered p.sdp params later create_ack c random response.response.body f.sent _
          x starts done in
      let dialog =
        send_invite-dialog encode o e p ids via_of create tag number call channel dialogs fresh
          tsx_channel now table sent invited h in
      let (one, kept) =
        acknowledge_2xx-ack_2xx encode create_ack p tag number call channel dialogs c.dialog
          x.dialog random reply f.sent _ dialog acked in
      (no_first, response, reply, final, success, negotiation, one, kept)
