-- ===== src/Media/Negotiator/Kept.antt =====
-- What making and processing an answer leaves of the offers of a negotiator.
use rssip.Prelude.{◌≡◌, ◌∙◌, List, Option, none, some}
use mathlib.Core.Path.{subst}
use rssip.Media.Sdp.{MediaDescription, SessionDescription}
use rssip.Media.Negotiator.{
  NegotiatorState, local_offered, ready_to_answer, done, Negotiator, create_answer, process_answer,
  answer_all, answer_offers, answer_in, check_all, check_offer, process_in,
}
use rssip.Media.Negotiator.Answer.{create_answer-Agreed, Negotiated}
use rssip.Error.{ok, >>=-eq-ok}

answer_offers-keeps :
    (n m : Negotiator) (r l : Option SessionDescription)
    → answer_offers n r l ≡ ok m
    → (m.local_offer ≡ n.local_offer) × (m.remote_offer ≡ n.remote_offer)
answer_offers-keeps n m (some r) (some l) e =
    let (ms, h, same) = >>=-eq-ok (answer_all l.media r.media) _ e in (cc, cc)
answer_offers-keeps n m (some r) none e = cc
answer_offers-keeps n m none l e = cc

answer_in-keeps :
    (s : NegotiatorState) (n m : Negotiator)
    → answer_in s n ≡ ok m
    → (m.local_offer ≡ n.local_offer) × (m.remote_offer ≡ n.remote_offer)
answer_in-keeps ready_to_answer n m e = answer_offers-keeps n m n.remote_offer n.local_offer e
answer_in-keeps _ n m e = cc

-- An answer that is made leaves both offers as they are.
pub create_answer-keeps :
    (n m : Negotiator)
    → create_answer n ≡ ok m
    → (m.local_offer ≡ n.local_offer) × (m.remote_offer ≡ n.remote_offer)
unfolding create_answer
create_answer-keeps n m e = answer_in-keeps n.state n m e

check_offer-keeps :
    (n m : Negotiator) (l : Option SessionDescription) (a : SessionDescription)
    → check_offer n l a ≡ ok m
    → m.remote_offer ≡ n.remote_offer
check_offer-keeps n m (some l) a e =
    let (u, h, same) = >>=-eq-ok (check_all l.media a.media) _ e in cc
check_offer-keeps n m none a e = cc

process_in-keeps :
    (s : NegotiatorState) (n m : Negotiator) (a : SessionDescription)
    → process_in s n a ≡ ok m
    → m.remote_offer ≡ n.remote_offer
process_in-keeps local_offered n m a e = check_offer-keeps n m n.local_offer a e
process_in-keeps _ n m a e = cc

-- An answer that is processed is not stored as the remote offer.
pub process_answer-keeps :
    (n m : Negotiator) (a : SessionDescription)
    → process_answer n a ≡ ok m
    → m.remote_offer ≡ n.remote_offer
unfolding process_answer
process_answer-keeps n m a e = process_in-keeps n.state n m a e

between :
    (l offer r remote : SessionDescription) (ms : List MediaDescription)
    → l ≡ offer
    → r ≡ remote
    → Negotiated l.media r.media ms
    → Negotiated offer.media remote.media ms
between l offer r remote ms same_local same_remote h =
    subst (λ (l : SessionDescription). Negotiated l.media remote.media ms) same_local
      (subst (λ (r : SessionDescription). Negotiated l.media r.media ms) same_remote h)

-- A negotiation that is over, with its two offers and its answer.
pub record Concluded (remote offer : SessionDescription) (n : Negotiator) : Type 0 where
  pub state : n.state ≡ done
  pub local : n.local_offer ≡ some offer
  pub remote_kept : n.remote_offer ≡ some remote
  pub answer : SessionDescription
  pub held : n.answer ≡ some answer
  pub media : Negotiated offer.media remote.media answer.media

pub create_answer-Concluded :
    (remote offer : SessionDescription) (n m : Negotiator)
    → n.remote_offer ≡ some remote
    → n.local_offer ≡ some offer
    → create_answer n ≡ ok m
    → Concluded remote offer m
create_answer-Concluded remote offer n m has_remote has_local e =
    let (r, l, a, er, el, state, held, time, origin, name, connection, attributes, media) =
      create_answer-Agreed n m e in
    let (kept_local, kept_remote) = create_answer-keeps n m e in
    let same_local : l ≡ offer = cc in
    let same_remote : r ≡ remote = cc in
    record {
      state = state;
      local = kept_local ∙ has_local;
      remote_kept = kept_remote ∙ has_remote;
      answer = a;
      held = held;
      media = between l offer r remote a.media same_local same_remote media;
    }
