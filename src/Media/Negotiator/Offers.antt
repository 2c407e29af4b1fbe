-- ===== src/Media/Negotiator/Offers.antt =====
-- Which offers a negotiator holds in each of its states.
use rssip.Prelude.{◌≡◌, inl, inr, refl, Bool, true, false, Option, none, some, arith}
use rssip.Media.Sdp.{SessionDescription}
use rssip.Media.Negotiator.{
  NegotiatorState, initial, local_offered, remote_offered, ready_to_answer, done, Negotiator, new,
  with_local, with_remote, set_remote_offer, set_local_offer, create_answer, process_answer,
  answer_all, answer_offers, check_offer, answer_in, process_in,
}
use rssip.Error.{ok, panic, ◌>>=◌, >>=-eq-panic}

abbrev present : Option SessionDescription → Bool
present none = false
present (some s) = true

abbrev Holds : NegotiatorState → Negotiator → Type 0
Holds initial n = Unit
Holds local_offered n = present n.local_offer ≡ true
Holds remote_offered n = present n.remote_offer ≡ true
Holds ready_to_answer n = (present n.local_offer ≡ true) × (present n.remote_offer ≡ true)
Holds done n = present n.answer ≡ true

-- The offers that the state announces are there, and so is the answer once it is done.
abbrev pub IsValid : Negotiator → Type 0
IsValid n = Holds n.state n

-- The negotiators that the constructors and the operations that succeed lead to.
pub data Reachable : Negotiator → Type 0 where
  starts : Reachable new
  starts_with_local : (s : SessionDescription) → Reachable (with_local s)
  starts_with_remote : (s : SessionDescription) → Reachable (with_remote s)
  sets_remote :
      {n m : Negotiator} (s : SessionDescription)
      → Reachable n
      → set_remote_offer n s ≡ ok m
      → Reachable m
  sets_local :
      {n m : Negotiator} (s : SessionDescription)
      → Reachable n
      → set_local_offer n s ≡ ok m
      → Reachable m
  answers : {n m : Negotiator} → Reachable n → create_answer n ≡ ok m → Reachable m
  processes :
      {n m : Negotiator} (s : SessionDescription)
      → Reachable n
      → process_answer n s ≡ ok m
      → Reachable m

set_remote_offer-IsValid :
    (n m : Negotiator) (s : SessionDescription)
    → IsValid n
    → set_remote_offer n s ≡ ok m
    → IsValid m
unfolding set_remote_offer
set_remote_offer-IsValid n m s v e = ground arith

set_local_offer-IsValid :
    (n m : Negotiator) (s : SessionDescription) → IsValid n → set_local_offer n s ≡ ok m → IsValid m
unfolding set_local_offer
set_local_offer-IsValid n m s v e = ground arith

answer_offers-answered :
    (n m : Negotiator) (r l : Option SessionDescription)
    → answer_offers n r l ≡ ok m
    → (m.state ≡ done) × (present m.answer ≡ true)
answer_offers-answered n m (some r) (some l) e = ground arith
answer_offers-answered n m (some r) none e = cc
answer_offers-answered n m none l e = cc

check_offer-answered :
    (n m : Negotiator) (l : Option SessionDescription) (s : SessionDescription)
    → check_offer n l s ≡ ok m
    → (m.state ≡ done) × (present m.answer ≡ true)
check_offer-answered n m (some l) s e = ground arith
check_offer-answered n m none s e = cc

done-IsValid : (m : Negotiator) → (m.state ≡ done) × (present m.answer ≡ true) → IsValid m
done-IsValid m (e, p) = rw e p

answer_in-answered :
    (s : NegotiatorState) (n m : Negotiator)
    → answer_in s n ≡ ok m
    → (m.state ≡ done) × (present m.answer ≡ true)
answer_in-answered ready_to_answer n m e = answer_offers-answered n m n.remote_offer n.local_offer e
answer_in-answered _ n m e = cc

process_in-answered :
    (s : NegotiatorState) (n m : Negotiator) (a : SessionDescription)
    → process_in s n a ≡ ok m
    → (m.state ≡ done) × (present m.answer ≡ true)
process_in-answered local_offered n m a e = check_offer-answered n m n.local_offer a e
process_in-answered _ n m a e = cc

create_answer-IsValid : (n m : Negotiator) → create_answer n ≡ ok m → IsValid m
unfolding create_answer
create_answer-IsValid n m e = done-IsValid m (answer_in-answered n.state n m e)

process_answer-IsValid :
    (n m : Negotiator) (s : SessionDescription) → process_answer n s ≡ ok m → IsValid m
unfolding process_answer
process_answer-IsValid n m s e = done-IsValid m (process_in-answered n.state n m s e)

-- A negotiator that the constructors and the operations lead to holds the offers, or the answer,
-- that its state announces.
pub Reachable-IsValid : (n : Negotiator) → Reachable n → IsValid n
unfolding with_local with_remote
Reachable-IsValid n starts = tt
Reachable-IsValid n (starts_with_local s) = refl
Reachable-IsValid n (starts_with_remote s) = refl
Reachable-IsValid m (sets_remote {n} s h e) =
    set_remote_offer-IsValid n m s (Reachable-IsValid n h) e
Reachable-IsValid m (sets_local {n} s h e) = set_local_offer-IsValid n m s (Reachable-IsValid n h) e
Reachable-IsValid m (answers {n} h e) = create_answer-IsValid n m e
Reachable-IsValid m (processes {n} s h e) = process_answer-IsValid n m s e

-- The two offers can be set in either order, with the same negotiator in the end: Ready, with both.
pub set_offers_commute :
    (remote local : SessionDescription)
    → ((set_remote_offer new remote >>= λ n. set_local_offer n local)
        ≡ (set_local_offer new local >>= λ n. set_remote_offer n remote))
unfolding set_remote_offer set_local_offer
set_offers_commute remote local = refl

answer_offers-panic :
    (n : Negotiator) (r l : Option SessionDescription)
    → present l ≡ true
    → present r ≡ true
    → answer_offers n r l ≡ panic
    → (remote : SessionDescription) × (local : SessionDescription) × (r ≡ some remote)
      × (l ≡ some local)
      × (answer_all local.media remote.media ≡ panic)
answer_offers-panic n (some remote) (some local) p q e =
    elim (>>=-eq-panic (answer_all local.media remote.media) _ e) [
      | inl h ↦ (remote, local, refl, refl, h)
      | inr (ms, h, f) ↦ cc
    ]
answer_offers-panic n (some remote) none p q e = cc
answer_offers-panic n none l p q e = cc

-- The panic of an answer is that of the loop over the media of its two offers.
abbrev pub LoopPanics : Negotiator → Type 0
LoopPanics n =
    (remote : SessionDescription) × (local : SessionDescription) × (n.remote_offer ≡ some remote)
    × (n.local_offer ≡ some local)
    × (answer_all local.media remote.media ≡ panic)

answer_in-panic :
    (s : NegotiatorState) (n : Negotiator) → Holds s n → answer_in s n ≡ panic → LoopPanics n
answer_in-panic ready_to_answer n v e = answer_offers-panic n n.remote_offer n.local_offer v.0 v.1 e
answer_in-panic _ n v e = cc

-- If making the answer of a reachable negotiator panics, then both offers are there and it is the
-- loop over their media that panics: no `expect` of an offer fails.
pub create_answer-panic : (n : Negotiator) → Reachable n → create_answer n ≡ panic → LoopPanics n
unfolding create_answer
create_answer-panic n h e = answer_in-panic n.state n (Reachable-IsValid n h) e
