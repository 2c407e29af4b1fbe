-- ===== src/Ua/Session/Established.antt =====
-- What it takes to accept an INVITE.
use rssip.Prelude.{
  Bool, ℕ, ◌≡◌, refl, ◌∙◌, Text, List, Option, none, some, true, false, if◌then◌else◌,
}
use mathlib.Core.Path.{subst}
use rssip.Media.Sdp.{SessionDescription}
use rssip.Media.Negotiator.{
  NegotiatorState, local_offered, done, Negotiator, new, with_remote, set_remote_offer,
  process_answer,
}
use rssip.Media.Negotiator.Kept.{process_answer-keeps}
use rssip.Message.Headers.{Contact}
use rssip.Message.Messages.{Response, Transport, IncomingRequest, OutgoingResponse}
use rssip.Transaction.Client.Wait.{is_invite}
use rssip.Transaction.Registry.{Table}
use rssip.Transaction.Server.Respond.{create}
use rssip.Transaction.Server.Final.{Finished, send_final_response}
use rssip.Ua.Dialog.{Dialog, Dialogs, create_uas}
use rssip.Ua.Dialog.Receiving.{WaitEvent, Received, wait_for_ack}
use rssip.Ua.Session.Negotiating.{
  Established, Platform, parse_sdp, NegotiationDone, expected, negotiation_done,
}
use rssip.Ua.Session.Incoming.{
  Incoming, Opened, early_offer, open_session, from_invite, established, answer_invite, take_answer,
  after_final,
}
use rssip.Error.{custom, Result, ok, err, panic, >>=-eq-ok}

-- The negotiator that an INVITE with this body leaves.
abbrev pub Offered : Platform → Option Text → Negotiator → Type 0
Offered o none n = n ≡ new
Offered o (some body) n =
    (remote : SessionDescription) × (parse_sdp o body ≡ ok remote) × (n ≡ with_remote remote)

early_offer-Offered :
    (o : Platform) (body : Option Text) (n : Negotiator)
    → early_offer o body ≡ ok n
    → Offered o body n
unfolding early_offer
early_offer-Offered o none n e = cc
early_offer-Offered o (some body) n e =
    let (remote, h, same) =
      >>=-eq-ok (parse_sdp o body) (λ remote. set_remote_offer new remote) e in
    (remote, h, unfold set_remote_offer with_remote in cc)

open_session-Offered :
    (o : Platform) (r : IncomingRequest) (own : Contact) (tag : Text) (channel : ℕ)
    (dialogs : Dialogs) (tsx_channel : ℕ) (table : Table) (opened : Opened)
    → open_session o r own tag channel dialogs tsx_channel table ≡ ok opened
    → Offered o r.request.body opened.session.negotiator
unfolding open_session
open_session-Offered o r own tag channel dialogs tsx_channel table opened e =
    let ((d, ds), h1, e1) = >>=-eq-ok (create_uas r own tag channel dialogs) _ e in
    let (n, h2, e2) = >>=-eq-ok (early_offer o r.request.body) _ e1 in
    let ((s, t), h3, e3) = >>=-eq-ok (create r tsx_channel table) _ e2 in
    let same : n ≡ opened.session.negotiator = cc in
    subst (Offered o r.request.body) same (early_offer-Offered o r.request.body n h2)

if-ok :
    (b : Bool) (m : Result Opened) (x : Opened) → (if b then m else err custom) ≡ ok x → m ≡ ok x
if-ok true m x e = e
if-ok false m x e = cc

pub from_invite-Offered :
    (o : Platform) (r : IncomingRequest) (own : Contact) (tag : Text) (channel : ℕ)
    (dialogs : Dialogs) (tsx_channel : ℕ) (table : Table) (opened : Opened)
    → from_invite o r own tag channel dialogs tsx_channel table ≡ ok opened
    → Offered o r.request.body opened.session.negotiator
unfolding from_invite
from_invite-Offered o r own tag channel dialogs tsx_channel table opened e =
    open_session-Offered o r own tag channel dialogs tsx_channel table opened (
      if-ok (is_invite r.request.method)
        (open_session o r own tag channel dialogs tsx_channel table) opened e)

expected_complete :
    (l r a : Option SessionDescription) (x : NegotiationDone)
    → expected l r a ≡ ok x
    → (l ≡ some x.local_sdp) × (r ≡ some x.remote_sdp) × (a ≡ some x.answer)
expected_complete (some l) (some r) (some a) x e = (cc, cc, cc)
expected_complete (some l) (some r) none x e = cc
expected_complete (some l) none a x e = cc
expected_complete none r a x e = cc

-- The handler is only told of a negotiation that has all three descriptions.
pub negotiation_done_complete :
    (n : Negotiator) (x : NegotiationDone)
    → negotiation_done n ≡ ok x
    → (n.local_offer ≡ some x.local_sdp)
      × (n.remote_offer ≡ some x.remote_sdp)
      × (n.answer ≡ some x.answer)
unfolding negotiation_done
negotiation_done_complete n x e = expected_complete n.local_offer n.remote_offer n.answer x e

-- Behind an offer of our own no negotiation is ever done: the answer is not a remote offer.
take_answer-no_remote :
    (o : Platform) (n m : Negotiator) (state : NegotiatorState) (body : Option Text)
    → state ≡ local_offered
    → n.remote_offer ≡ none
    → take_answer o state n body ≡ ok m
    → m.remote_offer ≡ none
unfolding take_answer
take_answer-no_remote o n m local_offered none at_local alone e = cc
take_answer-no_remote o n m local_offered (some body) at_local alone e =
    let (answer, h, same) = >>=-eq-ok (parse_sdp o body) (λ answer. process_answer n answer) e in
    process_answer-keeps n m answer same ∙ alone
take_answer-no_remote o n m _ body at_local alone e = cc

pub established-remote :
    (o : Platform) (n : Negotiator) (w : Received) (x : Established)
    → n.state ≡ local_offered
    → n.remote_offer ≡ none
    → established o n w ≡ ok x
    → ⊥
unfolding established
established-remote o n w x at_local alone e =
    let (ack, h, e1) = >>=-eq-ok w.result _ e in
    let (m, h1, e2) = >>=-eq-ok (take_answer o n.state n ack.request.body) _ e1 in
    let (event, h2, e3) = >>=-eq-ok (negotiation_done m) _ e2 in
    let none_left = take_answer-no_remote o n m n.state ack.request.body at_local alone h1 in
    let complete = negotiation_done_complete m event h2 in cc

take_answer-done :
    (o : Platform) (n : Negotiator) (state : NegotiatorState) (body : Option Text)
    → state ≡ done
    → take_answer o state n body ≡ ok n
unfolding take_answer
take_answer-done o n done body at_done = refl
take_answer-done o n _ body at_done = cc

-- What is established behind an answer of ours.
pub established-done :
    (o : Platform) (n : Negotiator) (w : Received) (x : Established)
    → n.state ≡ done
    → established o n w ≡ ok x
    → (ack : IncomingRequest) × (w.result ≡ ok ack)
      × (n.local_offer ≡ some x.event.local_sdp)
      × (n.remote_offer ≡ some x.event.remote_sdp)
      × (n.answer ≡ some x.event.answer)
unfolding established
established-done o n w x at_done e =
    let (ack, h, e1) = >>=-eq-ok w.result _ e in
    let (event, h2, e3) =
      >>=-eq-ok (negotiation_done n) _
        (rw (take_answer-done o n n.state ack.request.body at_done) at e1) in
    let (l, r, a) = negotiation_done_complete n event h2 in
    let same : event ≡ x.event = cc in
    (
      ack,
      h,
      subst (λ (v : NegotiationDone). n.local_offer ≡ some v.local_sdp) same l,
      subst (λ (v : NegotiationDone). n.remote_offer ≡ some v.remote_sdp) same r,
      subst (λ (v : NegotiationDone). n.answer ≡ some v.answer) same a,
    )

module _ (encode : Response → Option Text) (deliver : OutgoingResponse → Result Transport)
    (o : Platform) where
  after_final-established :
      (n : Negotiator) (d : Dialog) (events : List WaitEvent) (f : Finished)
      (result : Result (Unit {0})) (x : Established)
      → (after_final encode deliver o n d events f result).result ≡ ok x
      → (result ≡ ok tt) × (established o n (wait_for_ack encode deliver d events f.sent) ≡ ok x)
  unfolding after_final
  after_final-established n d events f (ok u) x e = (refl, e)
  after_final-established n d events f (err e) x h = cc
  after_final-established n d events f panic x h = cc

  -- The events of a call that is accepted: the response was sent, and what came behind it.
  pub answer_invite-established :
      (i : Incoming) (events : List WaitEvent) (sent : List Text)
      (m : Result (Negotiator × OutgoingResponse)) (x : Established)
      → (answer_invite encode deliver o i events sent m).result ≡ ok x
      → (n : Negotiator) × (r : OutgoingResponse) × (m ≡ ok (n, r))
        × ((send_final_response encode deliver i.server r sent).result ≡ ok tt)
        × (established o n (
              wait_for_ack encode deliver i.dialog events
                (send_final_response encode deliver i.server r sent).sent)
            ≡ ok x)
  unfolding answer_invite
  answer_invite-established i events sent (ok (n, r)) x e =
      let (h, later) =
        after_final-established n i.dialog events
          (send_final_response encode deliver i.server r sent)
          (send_final_response encode deliver i.server r sent).result x e in
      (n, r, refl, h, later)
  answer_invite-established i events sent (err e) x h = cc
  answer_invite-established i events sent panic x h = cc
