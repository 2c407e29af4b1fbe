-- ===== src/Ua/Session/Answered.antt =====
-- A call is only established where the response brings the first offer.
use rssip.Prelude.{◌≡◌, refl, sym, ap, ◌∙◌, Text, Option, none, some}
use mathlib.Core.Path.{subst}
use rssip.Media.Sdp.{SessionDescription}
use rssip.Media.Negotiator.{
  NegotiatorState, initial, local_offered, ready_to_answer, Negotiator, new, set_remote_offer,
  set_local_offer, create_answer, process_answer,
}
use rssip.Media.Negotiator.Kept.{process_answer-keeps, Concluded, create_answer-Concluded}
use rssip.Media.Negotiator.Offering.{SdpOfferParams, offered, create_offer}
use rssip.Message.Messages.{Request}
use rssip.Ua.Session.Negotiating.{Platform, parse_sdp, encode_sdp}
use rssip.Ua.Session.Calling.{
  OriginIds, with_offer, with_answer, answer_late, negotiated_in, negotiated,
}
use rssip.Error.{Result, ok, >>=-eq-ok}

-- The negotiator of a call, by the offer in its INVITE.
abbrev pub Starts : Option SdpOfferParams → Negotiator → Type 0
Starts none n = n ≡ new
Starts (some p) n = (n.state ≡ local_offered) × (n.remote_offer ≡ none)

same_negotiator :
    (n m : Negotiator) (a b : Option Text)
    → ◌≡◌ {A = Result (Negotiator × Option Text)} (ok (n, a)) (ok (m, b))
    → n ≡ m
same_negotiator n m a b e = cc

same_reply :
    (n m : Negotiator) (a b : Option Text)
    → ◌≡◌ {A = Result (Negotiator × Option Text)} (ok (n, a)) (ok (m, b))
    → b ≡ a
same_reply n m a b e = cc

set_new :
    (offer : SessionDescription) (n : Negotiator)
    → set_local_offer new offer ≡ ok n
    → (n.state ≡ local_offered) × (n.remote_offer ≡ none)
unfolding set_local_offer
set_new offer n e = (cc, cc)

pub with_offer-Starts :
    (o : Platform) (p : Option SdpOfferParams) (ids : OriginIds) (q r : Request) (n : Negotiator)
    → ◌≡◌ {A = Result (Negotiator × Request)} (with_offer o p ids q) (ok (n, r))
    → Starts p n
unfolding with_offer
with_offer-Starts o none ids q r n e = cc
with_offer-Starts o (some p) ids q r n e =
    let (offer, h, e1) = >>=-eq-ok (create_offer new p ids.session_id ids.session_version) _ e in
    let (m, h1, e2) = >>=-eq-ok (set_local_offer new offer) _ e1 in
    let same : m ≡ n = cc in
    subst (λ (n : Negotiator). (n.state ≡ local_offered) × (n.remote_offer ≡ none)) same
      (set_new offer m h1)

-- Nothing is negotiated behind an offer of our own.
negotiated_in-no_remote :
    (o : Platform) (p : Option SdpOfferParams) (ids : OriginIds) (s : NegotiatorState)
    (n m : Negotiator) (remote : SessionDescription) (body : Option Text)
    → s ≡ local_offered
    → n.remote_offer ≡ none
    → ◌≡◌ {A = Result (Negotiator × Option Text)} (negotiated_in o p ids s n remote) (ok (m, body))
    → m.remote_offer ≡ none
unfolding negotiated_in
negotiated_in-no_remote o p ids local_offered n m remote body at_local alone e =
    let (k, h, same) = >>=-eq-ok (process_answer n remote) _ e in
    let kept = process_answer-keeps n k remote h in
    let one : k ≡ m = cc in ap (λ (m : Negotiator). m.remote_offer) (sym one) ∙ kept ∙ alone
negotiated_in-no_remote o p ids _ n m remote body at_local alone e = cc

pub negotiated-no_remote :
    (o : Platform) (p : Option SdpOfferParams) (ids : OriginIds) (n m : Negotiator)
    (body reply : Option Text)
    → n.state ≡ local_offered
    → n.remote_offer ≡ none
    → ◌≡◌ {A = Result (Negotiator × Option Text)} (negotiated o p ids n body) (ok (m, reply))
    → m.remote_offer ≡ none
unfolding negotiated
negotiated-no_remote o p ids n m none reply at_local alone e =
    ap (λ (m : Negotiator). m.remote_offer) (sym (same_negotiator n m none reply e)) ∙ alone
negotiated-no_remote o p ids n m (some body) reply at_local alone e =
    let (remote, h, e1) = >>=-eq-ok (parse_sdp o body) _ e in
    negotiated_in-no_remote o p ids n.state n m remote reply at_local alone e1

with_answer-ok :
    (n m : Negotiator) (held : Option SessionDescription) (a answer : SessionDescription)
    → held ≡ some a
    → ◌≡◌ {A = Result (Negotiator × SessionDescription)} (with_answer n held) (ok (m, answer))
    → (n ≡ m) × (a ≡ answer)
with_answer-ok n m none a answer held e = cc
with_answer-ok n m (some b) a answer held e = (cc, cc)

-- What an answer to the offer of a response needs, and what it leaves.
abbrev pub Late :
    Option SdpOfferParams
    → OriginIds
    → SessionDescription
    → Negotiator
    → SessionDescription
    → Type 0
Late none ids remote m answer = ⊥
Late (some p) ids remote m answer =
    (c : Concluded remote (offered p ids.session_id ids.session_version) m) × (c.answer ≡ answer)

answer_late-Late :
    (o : Platform) (p : Option SdpOfferParams) (ids : OriginIds)
    (remote answer : SessionDescription) (m : Negotiator)
    → ◌≡◌ {A = Result (Negotiator × SessionDescription)}
        (answer_late o p ids new remote)
        (ok (m, answer))
    → Late p ids remote m answer
unfolding answer_late create_offer set_local_offer set_remote_offer
answer_late-Late o none ids remote answer m e = cc
answer_late-Late o (some p) ids remote answer m e =
    let mine = offered p ids.session_id ids.session_version in
    let ready_one : Negotiator = record new {
      state = ready_to_answer;
      local_offer = some mine;
      remote_offer = some remote;
    } in
    let (k, h, e1) = >>=-eq-ok (create_answer ready_one) _ e in
    let c = create_answer-Concluded remote mine ready_one k refl refl h in
    let (same, answers) = with_answer-ok k m k.answer c.answer answer c.held e1 in
    subst (λ (m : Negotiator). (c : Concluded remote mine m) × (c.answer ≡ answer)) same
      (c, answers)

-- A response without a body leaves a call that has offered nothing without an answer.
abbrev pub LateBody :
    Platform → Option SdpOfferParams → OriginIds → Option Text → Negotiator → Option Text → Type 0
LateBody o p ids none m reply = m ≡ new
LateBody o p ids (some body) m reply =
    (remote : SessionDescription) × (answer : SessionDescription) × (parse_sdp o body ≡ ok remote)
    × (reply ≡ some (encode_sdp o answer))
    × Late p ids remote m answer

negotiated_in-Late :
    (o : Platform) (p : Option SdpOfferParams) (ids : OriginIds) (m : Negotiator)
    (remote : SessionDescription) (reply : Option Text)
    → ◌≡◌ {A = Result (Negotiator × Option Text)}
        (negotiated_in o p ids initial new remote)
        (ok (m, reply))
    → (answer : SessionDescription) × (reply ≡ some (encode_sdp o answer))
      × Late p ids remote m answer
unfolding negotiated_in
negotiated_in-Late o p ids m remote reply e =
    let ((k, answer), h, e1) = >>=-eq-ok (answer_late o p ids new remote) _ e in
    let same = same_negotiator k m (some (encode_sdp o answer)) reply e1 in
    (
      answer,
      same_reply k m (some (encode_sdp o answer)) reply e1,
      subst (λ (m : Negotiator). Late p ids remote m answer) same
          (answer_late-Late o p ids remote answer k h),
    )

pub negotiated-LateBody :
    (o : Platform) (p : Option SdpOfferParams) (ids : OriginIds) (m : Negotiator)
    (body reply : Option Text)
    → ◌≡◌ {A = Result (Negotiator × Option Text)} (negotiated o p ids new body) (ok (m, reply))
    → LateBody o p ids body m reply
unfolding negotiated
negotiated-LateBody o p ids m none reply e = sym (same_negotiator new m none reply e)
negotiated-LateBody o p ids m (some body) reply e =
    let (remote, h, e1) = >>=-eq-ok (parse_sdp o body) _ e in
    let (answer, replied, late) = negotiated_in-Late o p ids m remote reply e1 in
    (remote, answer, h, replied, late)
