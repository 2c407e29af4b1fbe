-- ===== src/Ua/Session/LateOffer.antt =====
-- What it takes to establish a call.
use rssip.Prelude.{◌≡◌, refl, sym, ap, ◌∙◌, Text, Option, none, some}
use mathlib.Core.Path.{subst}
use rssip.Media.Sdp.{SessionDescription}
use rssip.Media.Negotiator.{Negotiator, new}
use rssip.Media.Negotiator.Answer.{Negotiated}
use rssip.Media.Negotiator.Offering.{SdpOfferParams, offered}
use rssip.Ua.Session.Negotiating.{
  Platform, parse_sdp, encode_sdp, NegotiationDone, negotiation_done,
}
use rssip.Ua.Session.Established.{negotiation_done_complete}
use rssip.Ua.Session.Calling.{OriginIds, negotiated}
use rssip.Ua.Session.Answered.{Starts, negotiated-no_remote, LateBody, negotiated-LateBody}
use rssip.Error.{Result, ok}

-- What has been negotiated by a call that is established: the offer came with the response, and
-- the answer goes with the ACK.
pub record Offered (o : Platform) (p : Option SdpOfferParams) (ids : OriginIds)
    (body reply : Option Text) (event : NegotiationDone) : Type 0 where
  pub offer : Text
  pub carried : body ≡ some offer
  pub parsed : parse_sdp o offer ≡ ok event.remote_sdp
  pub params : SdpOfferParams
  pub given : p ≡ some params
  pub own_offer : event.local_sdp ≡ offered params ids.session_id ids.session_version
  pub media : Negotiated event.local_sdp.media event.remote_sdp.media event.answer.media
  pub answered : reply ≡ some (encode_sdp o event.answer)

some-injective {ℓ} : {A : Type ℓ} {a b : A} → some a ≡ some b → a ≡ b
some-injective e = cc

agreed :
    (l l' r r' a a' : SessionDescription)
    → l ≡ l'
    → r ≡ r'
    → a ≡ a'
    → Negotiated l.media r.media a.media
    → Negotiated l'.media r'.media a'.media
agreed l l' r r' a a' el er ea h =
    subst (λ (l : SessionDescription). Negotiated l.media r'.media a'.media) el
      (subst (λ (r : SessionDescription). Negotiated l.media r.media a'.media) er
        (subst (λ (a : SessionDescription). Negotiated l.media r.media a.media) ea h))

new_not_done : (event : NegotiationDone) → negotiation_done new ≡ ok event → ⊥
unfolding negotiation_done
new_not_done event e = cc

late-Offered :
    (o : Platform) (p : Option SdpOfferParams) (ids : OriginIds) (body reply : Option Text)
    (m : Negotiator) (event : NegotiationDone)
    → LateBody o p ids body m reply
    → negotiation_done m ≡ ok event
    → Offered o p ids body reply event
late-Offered o p ids none reply m event late e = elim (new_not_done event (rw late at e)) [ ]
late-Offered o none ids (some body) reply m event (remote, answer, h, replied, late) e =
    elim late [ ]
late-Offered o (some p) ids (some body) reply m event (remote, answer, h, replied, (c, answers)) e =
    let (l, r, a) = negotiation_done_complete m event e in
    let mine : offered p ids.session_id ids.session_version ≡ event.local_sdp =
      some-injective (sym c.local ∙ l) in
    let theirs : remote ≡ event.remote_sdp = some-injective (sym c.remote_kept ∙ r) in
    let both : c.answer ≡ event.answer = some-injective (sym c.held ∙ a) in
    record {
      offer = body;
      carried = refl;
      parsed = h ∙ ap ok theirs;
      params = p;
      given = refl;
      own_offer = sym mine;
      media =
          agreed (offered p ids.session_id ids.session_version) event.local_sdp remote
            event.remote_sdp c.answer event.answer mine theirs both c.media;
      answered = replied ∙ ap (λ d. some (encode_sdp o d)) (sym answers ∙ both);
    }

never_done :
    (m : Negotiator) (event : NegotiationDone)
    → m.remote_offer ≡ none
    → negotiation_done m ≡ ok event
    → ⊥
never_done m event alone e = let (l, r, a) = negotiation_done_complete m event e in cc

-- By the offer in the INVITE: with one of our own there is no end of the negotiation.
pub negotiated-Offered :
    (o : Platform) (first p : Option SdpOfferParams) (ids : OriginIds) (n m : Negotiator)
    (body reply : Option Text) (event : NegotiationDone)
    → Starts first n
    → ◌≡◌ {A = Result (Negotiator × Option Text)} (negotiated o p ids n body) (ok (m, reply))
    → negotiation_done m ≡ ok event
    → (first ≡ none) × Offered o p ids body reply event
negotiated-Offered o none p ids n m body reply event is_new e h = (
  refl,
  late-Offered o p ids body reply m event
      (negotiated-LateBody o p ids m body reply (
        subst
          (λ (n : Negotiator).
            ◌≡◌ {A = Result (Negotiator × Option Text)} (negotiated o p ids n body) (ok (m, reply)))
          is_new e))
      h,
)
negotiated-Offered o (some q) p ids n m body reply event (at_local, alone) e h =
    elim (never_done m event (negotiated-no_remote o p ids n m body reply at_local alone e) h) [ ]
