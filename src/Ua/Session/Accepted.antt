-- ===== src/Ua/Session/Accepted.antt =====
-- An INVITE is only accepted where it carries an offer.
use rssip.Prelude.{ℕ, ◌≡◌, refl, sym, ap, ◌∙◌, Text, List, Option, none, some}
use mathlib.Core.Path.{subst}
use rssip.Media.Sdp.{SessionDescription}
use rssip.Media.Negotiator.{
  initial, local_offered, remote_offered, ready_to_answer, Negotiator, new, with_remote,
  set_local_offer, create_answer,
}
use rssip.Media.Negotiator.Answer.{Negotiated}
use rssip.Media.Negotiator.Kept.{Concluded, create_answer-Concluded}
use rssip.Media.Negotiator.Offering.{SdpOfferParams, offered, create_offer}
use rssip.Message.StatusCode.{StatusCode}
use rssip.Message.Headers.{Contact}
use rssip.Message.Messages.{Response, Transport, IncomingRequest, OutgoingResponse}
use rssip.Transaction.Registry.{Table}
use rssip.Transaction.Server.Final.{send_final_response}
use rssip.Ua.Dialog.{Dialogs}
use rssip.Ua.Dialog.Receiving.{WaitEvent, wait_for_ack}
use rssip.Ua.Dialog.Responses.{Settings, dialog_create_response}
use rssip.Ua.Session.Negotiating.{Established, Platform, parse_sdp, encode_sdp}
use rssip.Ua.Session.Incoming.{
  Incoming, Opened, from_invite, our_sdp, answer_text, with_sdp, acceptance, established, accept,
}
use rssip.Ua.Session.Established.{
  Offered, from_invite-Offered, established-remote, established-done, answer_invite-established,
}
use rssip.Error.{Result, ok, >>=-eq-ok}

answer_text-ok :
    (o : Platform) (n m : Negotiator) (a : Option SessionDescription) (answer : SessionDescription)
    (sdp : Text)
    → a ≡ some answer
    → answer_text o n a ≡ ok (m, sdp)
    → (n ≡ m) × (sdp ≡ encode_sdp o answer)
answer_text-ok o n m none answer sdp held e = cc
answer_text-ok o n m (some a) answer sdp held e = (cc, cc)

our_sdp-Concluded :
    (o : Platform) (remote offer : SessionDescription) (n : Negotiator) (sdp : Text)
    → our_sdp o remote_offered (with_remote remote) offer ≡ ok (n, sdp)
    → (c : Concluded remote offer n) × (sdp ≡ encode_sdp o c.answer)
unfolding our_sdp with_remote set_local_offer
our_sdp-Concluded o remote offer n sdp e =
    let ready : Negotiator = record (with_remote remote) {
      state = ready_to_answer;
      local_offer = some offer;
    } in
    let (m, h, e1) = >>=-eq-ok (create_answer ready) _ e in
    let c = create_answer-Concluded remote offer ready m refl refl h in
    let (same, written) = answer_text-ok o m n m.answer c.answer sdp c.held e1 in
    subst (λ (n : Negotiator). (c : Concluded remote offer n) × (sdp ≡ encode_sdp o c.answer)) same
      (c, written)

our_sdp-new :
    (o : Platform) (offer : SessionDescription) (n : Negotiator) (sdp : Text)
    → our_sdp o initial new offer ≡ ok (n, sdp)
    → (n.state ≡ local_offered) × (n.remote_offer ≡ none)
unfolding our_sdp set_local_offer
our_sdp-new o offer n sdp e = (cc, cc)

some-injective {ℓ} : {A : Type ℓ} {a b : A} → some a ≡ some b → a ≡ b
some-injective e = cc

-- What `accept` sends for each of the two negotiators of `from_invite`.
abbrev Sends :
    Platform → SdpOfferParams → ℕ → ℕ → Option Text → Negotiator → OutgoingResponse → Type 0
Sends o p session_id session_version none n r = (n.state ≡ local_offered) × (n.remote_offer ≡ none)
Sends o p session_id session_version (some body) n r =
    (remote : SessionDescription) × (parse_sdp o body ≡ ok remote)
    × (c : Concluded remote (offered p session_id session_version) n) × (r.response.body
        ≡ some (encode_sdp o c.answer))

with_sdp-body :
    (base r : OutgoingResponse) (sdp : Text) (m n : Negotiator)
    → ◌≡◌ {A = Result (Negotiator × OutgoingResponse)} (ok (m, with_sdp base sdp)) (ok (n, r))
    → (m ≡ n) × (r.response.body ≡ some sdp)
with_sdp-body base r sdp m n e =
    let same : with_sdp base sdp ≡ r = cc in
    (cc, ap (λ (r : OutgoingResponse). r.response.body) (sym same))

acceptance-parts :
    (o : Platform) (e : Settings) (i : Incoming) (code : StatusCode) (reason : Option Text)
    (p : SdpOfferParams) (session_id session_version : ℕ) (n : Negotiator) (r : OutgoingResponse)
    → acceptance o e i code reason p session_id session_version ≡ ok (n, r)
    → (offer : SessionDescription) × (sdp : Text) × (create_offer i.negotiator p session_id
          session_version
        ≡ ok offer)
      × (our_sdp o i.negotiator.state i.negotiator offer ≡ ok (n, sdp))
      × (r.response.body ≡ some sdp)
unfolding acceptance
acceptance-parts o e i code reason p session_id session_version n r h =
    let (base, h1, e1) = >>=-eq-ok (dialog_create_response e i.dialog i.server code reason) _ h in
    let (offer, h2, e2) = >>=-eq-ok (create_offer i.negotiator p session_id session_version) _ e1 in
    let ((m, sdp), h3, e3) = >>=-eq-ok (our_sdp o i.negotiator.state i.negotiator offer) _ e2 in
    let (same, written) = with_sdp-body base r sdp m n e3 in
    (
      offer,
      sdp,
      h2,
      subst (λ (n : Negotiator). our_sdp o i.negotiator.state i.negotiator offer ≡ ok (n, sdp)) same
          h3,
      written,
    )

new_offer :
    (n : Negotiator) (remote : SessionDescription) (p : SdpOfferParams)
    (session_id session_version : ℕ) (offer : SessionDescription)
    → n ≡ with_remote remote
    → create_offer n p session_id session_version ≡ ok offer
    → offer ≡ offered p session_id session_version
unfolding create_offer with_remote
new_offer n remote p session_id session_version offer held e = let h = rw held at e in cc

our_sdp-held :
    (o : Platform) (k : Negotiator) (remote offer mine : SessionDescription) (n : Negotiator)
    (sdp : Text)
    → k ≡ with_remote remote
    → offer ≡ mine
    → our_sdp o k.state k offer ≡ ok (n, sdp)
    → (c : Concluded remote mine n) × (sdp ≡ encode_sdp o c.answer)
unfolding with_remote
our_sdp-held o k remote offer mine n sdp held same e = our_sdp-Concluded o remote mine n sdp (
    subst
      (λ (offer : SessionDescription).
        our_sdp o remote_offered (with_remote remote) offer ≡ ok (n, sdp))
      same (subst (λ (k : Negotiator). our_sdp o k.state k offer ≡ ok (n, sdp)) held e))

acceptance-Sends :
    (o : Platform) (e : Settings) (i : Incoming) (code : StatusCode) (reason : Option Text)
    (p : SdpOfferParams) (session_id session_version : ℕ) (body : Option Text) (n : Negotiator)
    (r : OutgoingResponse)
    → Offered o body i.negotiator
    → acceptance o e i code reason p session_id session_version ≡ ok (n, r)
    → Sends o p session_id session_version body n r
acceptance-Sends o e i code reason p session_id session_version none n r is_new h =
    let (offer, sdp, made, our, written) =
      acceptance-parts o e i code reason p session_id session_version n r h in
    our_sdp-new o offer n sdp
      (subst (λ (k : Negotiator). our_sdp o k.state k offer ≡ ok (n, sdp)) is_new our)
acceptance-Sends o e i code reason p session_id session_version (some body) n r
      (remote, parsed, held) h =
    let (offer, sdp, made, our, written) =
      acceptance-parts o e i code reason p session_id session_version n r h in
    let mine = new_offer i.negotiator remote p session_id session_version offer held made in
    let (c, same) =
      our_sdp-held o i.negotiator remote offer (offered p session_id session_version) n sdp held
        mine our in
    (remote, parsed, c, written ∙ ap some same)

module _ (encode : Response → Option Text) (deliver : OutgoingResponse → Result Transport)
    (o : Platform) where
  -- What an INVITE with this body and its session are, once it is accepted.
  pub record Called (i : Incoming) (body : Option Text) (own : SessionDescription)
      (events : List WaitEvent) (sent : List Text) (x : Established) : Type 0 where
    pub offer : Text
    pub carried : body ≡ some offer
    pub parsed : parse_sdp o offer ≡ ok x.event.remote_sdp
    pub own_offer : x.event.local_sdp ≡ own
    pub media : Negotiated own.media x.event.remote_sdp.media x.event.answer.media
    pub response : OutgoingResponse
    pub answered : response.response.body ≡ some (encode_sdp o x.event.answer)
    pub sending : (send_final_response encode deliver i.server response sent).result ≡ ok tt
    pub ack : IncomingRequest
    pub acknowledged :
        (wait_for_ack encode deliver i.dialog events
          (send_final_response encode deliver i.server response sent).sent).result
        ≡ ok ack

  sent-Called :
      (i : Incoming) (body : Option Text) (p : SdpOfferParams) (session_id session_version : ℕ)
      (events : List WaitEvent) (sent : List Text) (x : Established) (n : Negotiator)
      (r : OutgoingResponse)
      → Sends o p session_id session_version body n r
      → (send_final_response encode deliver i.server r sent).result ≡ ok tt
      → established o n (
          wait_for_ack encode deliver i.dialog events
            (send_final_response encode deliver i.server r sent).sent)
        ≡ ok x
      → Called i body (offered p session_id session_version) events sent x
  sent-Called i none p session_id session_version events sent x n r (at_local, alone) went e =
      elim (established-remote o n _ x at_local alone e) [ ]
  sent-Called i (some body) p session_id session_version events sent x n r
        (remote, parsed, c, written) went e =
      let (ack, arrived, l, rem, a) = established-done o n _ x c.state e in
      let own : x.event.local_sdp ≡ offered p session_id session_version =
        some-injective (sym l ∙ c.local) in
      let theirs : remote ≡ x.event.remote_sdp = some-injective (sym c.remote_kept ∙ rem) in
      let answer : c.answer ≡ x.event.answer = some-injective (sym c.held ∙ a) in
      record {
        offer = body;
        carried = refl;
        parsed = parsed ∙ ap ok theirs;
        own_offer = own;
        media =
            subst
              (λ (a : SessionDescription).
                Negotiated (offered p session_id session_version).media x.event.remote_sdp.media
                  a.media)
              answer
              (subst
                (λ (d : SessionDescription).
                  Negotiated (offered p session_id session_version).media d.media c.answer.media)
                theirs c.media);
        response = r;
        answered = written ∙ ap (λ d. some (encode_sdp o d)) answer;
        sending = went;
        ack = ack;
        acknowledged = arrived;
      }

  -- A session that `from_invite` opens is accepted only if its INVITE carries an offer. Where `accept`
  -- succeeds, the body of the INVITE parses as the remote description that the handler is told of,
  -- the local one is made of our parameters, and the media of the answer are negotiated between them;
  -- the final response that was sent has the answer as its body, and an ACK has arrived.
  pub accept-from_invite :
      (r : IncomingRequest) (own : Contact) (tag : Text) (channel : ℕ) (dialogs : Dialogs)
      (tsx_channel : ℕ) (table : Table) (opened : Opened) (e : Settings) (code : StatusCode)
      (reason : Option Text) (p : SdpOfferParams) (session_id session_version : ℕ)
      (events : List WaitEvent) (sent : List Text) (x : Established)
      → from_invite o r own tag channel dialogs tsx_channel table ≡ ok opened
      → (accept encode deliver o e opened.session code reason p session_id session_version events
          sent).result
        ≡ ok x
      → Called opened.session r.request.body (offered p session_id session_version) events sent x
  unfolding accept
  accept-from_invite r own tag channel dialogs tsx_channel table opened e code reason p session_id
        session_version events sent x invited accepted =
      let i = opened.session in
      let (n, response, made, went, held) =
        answer_invite-established encode deliver o i events sent
          (acceptance o e i code reason p session_id session_version) x accepted in
      sent-Called i r.request.body p session_id session_version events sent x n response
        (acceptance-Sends o e i code reason p session_id session_version r.request.body n response
          (from_invite-Offered o r own tag channel dialogs tsx_channel table opened invited) made)
        went held
