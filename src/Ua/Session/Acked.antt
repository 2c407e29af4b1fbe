-- ===== src/Ua/Session/Acked.antt =====
-- rssip/src/ua/session/mod.rs: the ACK that `receive_answer` sends for a 2xx.
use rssip.Prelude.{ℕ, ◌≡◌, refl, sym, ap, ◌∙◌, Text, List, [], ◌∷◌, ◌++◌, Option, none, some}
use mathlib.Core.Path.{subst}
use rssip.Message.Method.{invite, ack}
use rssip.Message.Headers.{Uri, Via, from_header, to, call_id, cseq, max_forwards}
use rssip.Message.Messages.{Request, Transport, OutgoingRequest}
use rssip.Transaction.Registry.{Table}
use rssip.Transaction.Client.Create.{send}
use rssip.Endpoint.Sending.{send_outgoing_request}
use rssip.Endpoint.Sending.Encoded.{bytes_of, send_outgoing_request-bytes}
use rssip.Ua.Dialog.{Dialog, Dialogs, unwrap_uri, create_uac, create_request}
use rssip.Ua.Dialog.Responses.{Settings}
use rssip.Ua.Session.Negotiating.{Platform}
use rssip.Ua.Session.Calling.{
  InvitationParams, Invited, OriginIds, with_offer, with_settings, send_invite, acknowledge_2xx,
}
use rssip.Error.{Result, ok, >>=-eq-ok}

-- The ACK of a call that was opened with `p`, the From tag, the number of the INVITE and the
-- Call-ID: it has the same From, To, Call-ID and number, and the caller's contact, or else its From
-- URI, as URI.
abbrev pub ack_2xx : InvitationParams → Text → ℕ → Text → Option Text → Request
ack_2xx p tag number call body = record {
  method = ack;
  uri = elim p.contact [ none ↦ p.from_uri | some u ↦ u ];
  headers =
      from_header (record { uri = p.from_uri; tag = some tag; params = [] })
      ∷ to (record { uri = p.to_uri; tag = none; params = [] })
      ∷ call_id call
      ∷ cseq (record { cseq = number; method = ack })
      ∷ max_forwards 70
      ∷ [];
  body = body;
}

-- Behind `before` stands one message more: the bytes of what `create` makes of the request `q`.
abbrev pub SentOne :
    (Request → Option Text)
    → (Request → Result OutgoingRequest)
    → Request
    → List Text
    → List Text
    → Type 0
SentOne encode create q before after =
    (a : OutgoingRequest) × (bytes : Text) × (create q ≡ ok a)
    × (bytes_of encode a ≡ some bytes)
    × (after ≡ before ++ bytes ∷ [])

unwrap_uri-elim :
    (given : Option Uri) (u : Uri) → unwrap_uri given u ≡ (elim given [ none ↦ u | some v ↦ v ])
unwrap_uri-elim none u = refl
unwrap_uri-elim (some v) u = refl

module _ (encode : Request → Option Text) (create : Request → Result OutgoingRequest) where
  acknowledge_2xx-SentOne :
      (d after : Dialog) (random : ℕ) (body : Option Text) (sent left : List Text)
      → acknowledge_2xx encode create d random body sent ≡ ok (after, left)
      → let (q, d') = create_request d ack random in
        SentOne encode create (record q { body = body }) sent left × (d' ≡ after)
  unfolding acknowledge_2xx
  acknowledge_2xx-SentOne d after random body sent left e =
      let q = record (create_request d ack random).0 { body = body } in
      let (a, made, e1) = >>=-eq-ok (create q) _ e in
      let ((k, more), got, e2) = >>=-eq-ok (send_outgoing_request encode a sent) _ e1 in
      let (bytes, same, longer) = send_outgoing_request-bytes encode a sent got in
      let all : more ≡ left = cc in ((a, bytes, made, same, sym all ∙ longer), cc)

  -- Within the dialog that `create_uac` makes and the INVITE has numbered.
  pub acknowledge_2xx-ack_2xx :
      (p : InvitationParams) (tag : Text) (number : ℕ) (call : Text) (channel : ℕ)
      (dialogs : Dialogs) (d after : Dialog) (random : ℕ) (body : Option Text)
      (sent left : List Text)
      → (create_request
          (create_uac p.from_uri p.to_uri p.contact tag number call channel dialogs).0
          invite
          number).1
        ≡ d
      → acknowledge_2xx encode create d random body sent ≡ ok (after, left)
      → SentOne encode create (ack_2xx p tag number call body) sent left × (after ≡ d)
  unfolding create_uac create_request
  acknowledge_2xx-ack_2xx p tag number call channel dialogs d after random body sent left same e =
      let first =
        (create_request (create_uac p.from_uri p.to_uri p.contact tag number call channel dialogs).0
          invite number).1 in
      let (one, kept) =
        acknowledge_2xx-SentOne first after random body sent left
          (ap (λ d. acknowledge_2xx encode create d random body sent) same ∙ e) in
      (
        subst
            (λ u.
              SentOne encode create (record (ack_2xx p tag number call body) { uri = u }) sent left)
            (unwrap_uri-elim p.contact p.from_uri) one,
        sym kept ∙ same,
      )

module _ (encode : Request → Option Text) (o : Platform) where
  pub send_invite-dialog :
      (e : Settings) (p : InvitationParams) (ids : OriginIds) (via_of : Transport → Text → Via)
      (create : Request → Result OutgoingRequest) (tag : Text) (number : ℕ) (call : Text)
      (channel : ℕ) (dialogs : Dialogs) (fresh : Text) (tsx_channel now : ℕ) (table : Table)
      (sent : List Text) (invited : Invited)
      → send_invite encode o e p ids via_of create tag number call channel dialogs fresh tsx_channel
          now table sent
        ≡ ok invited
      → (create_request
          (create_uac p.from_uri p.to_uri p.contact tag number call channel dialogs).0
          invite
          number).1
        ≡ invited.session.dialog
  unfolding send_invite
  send_invite-dialog e p ids via_of create tag number call channel dialogs fresh tsx_channel now
        table sent invited h =
      let made = create_uac p.from_uri p.to_uri p.contact tag number call channel dialogs in
      let q = with_settings e (create_request made.0 invite number).0 in
      let ((n, r), h1, e1) = >>=-eq-ok (with_offer o p.sdp ids q) _ h in
      let (started, h2, e2) =
        >>=-eq-ok (send encode via_of create fresh tsx_channel now table sent r) _ e1 in
      cc
