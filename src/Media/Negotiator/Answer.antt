-- ===== src/Media/Negotiator/Answer.antt =====
-- What an answer contains: its formats, its directions, and which media it keeps.
use rssip.Prelude.{
  ℕ, ◌≡◌, inl, inr, refl, Bool, true, false, ◌||◌, ◌==◌, ltb, Text, text_eq, List, [], ◌∷◌, Option,
  none, some, keep, any, if◌then◌else◌, Bool-cases, arith,
}
use mathlib.Core.Path.{subst}
use rssip.Media.Sdp.{same_type, same_proto, MediaDescription, SessionDescription, Direction}
use rssip.Media.Negotiator.{
  NegotiatorState, ready_to_answer, done, Negotiator, create_answer, answer_in, answer_offers,
  find_direction, answer_direction, answer_attributes, parse_u8, take_format, match_formats,
  answer_media, answer_all, push,
}
use rssip.Error.{Result, ok, ◌>>=◌, >>=-eq-ok}
use rssip.Media.Negotiator.Directions.{Fits, answer_direction-Fits, answer_attributes-direction}

take_format-common :
    (f : Text) (common : Bool) (n : ℕ) (rest : Result (List Text)) (fs kept : List Text)
    → ((gs : List Text) → rest ≡ ok gs → gs ≡ kept)
    → take_format f common n rest ≡ ok fs
    → fs ≡ (if common then f ∷ kept else kept)
take_format-common f true n rest fs kept later e = elim (Bool-cases (ltb n 96)) [
  | inl low ↦
      let (gs, h, same) = >>=-eq-ok rest (λ gs. ok (f ∷ gs)) (rw low at e) in
      let kept_same = later gs h in ground arith
  | inr high ↦ let same = rw high at e in cc
]
take_format-common f false n rest fs kept later e = elim (Bool-cases (ltb n 96)) [
  | inl low ↦ later fs (rw low at e)
  | inr high ↦ let same = rw high at e in cc
]

-- The formats of an answered medium are the local ones that the remote side has too, in the local
-- order, if the loop over them ends without an error.
pub match_formats-common :
    (local remote fs : List Text)
    → match_formats local remote ≡ ok fs
    → fs ≡ keep (λ f. any (text_eq f) remote) local
unfolding match_formats
match_formats-common [] remote fs e = ground arith
match_formats-common (f ∷ local) remote fs e =
    let (n, h, more) =
      >>=-eq-ok (parse_u8 f)
        (λ n. take_format f (any (text_eq f) remote) n (match_formats local remote)) e in
    let same =
      take_format-common f (any (text_eq f) remote) n (match_formats local remote) fs
        (keep (λ g. any (text_eq g) remote) local) (match_formats-common local remote) more in
    elim (Bool-cases (any (text_eq f) remote)) [
      | inl common ↦ rw common (rw common at same)
      | inr alone ↦ rw alone (rw alone at same)
    ]

-- What a medium of an answer has to do with the two media that it answers.
pub record Answers (local remote m : MediaDescription) : Type 0 where
  pub enabled : ((remote.port == 0) || (local.port == 0)) ≡ false
  pub agree :
      (same_type local.media_type remote.media_type ≡ true)
      × (same_proto local.proto remote.proto ≡ true)
  pub kept : (m.media_type ≡ local.media_type) × (m.proto ≡ local.proto) × (m.port ≡ local.port)
  pub common :
      m.media_formats ≡ keep (λ f. any (text_eq f) remote.media_formats) local.media_formats
  pub attributes :
      m.attributes
      ≡ answer_attributes local.attributes
          (answer_direction (find_direction remote.attributes) (find_direction local.attributes))

abbrev pub answered : MediaDescription → MediaDescription → List Text → Option MediaDescription
answered local remote fs = some (record local {
  media_formats = fs;
  attributes =
      answer_attributes local.attributes
        (answer_direction (find_direction remote.attributes) (find_direction local.attributes));
})

-- A medium is answered, or left out because a port is zero.
abbrev Turn : MediaDescription → MediaDescription → Option MediaDescription → Type 0
Turn local remote none = ((remote.port == 0) || (local.port == 0)) ≡ true
Turn local remote (some m) = Answers local remote m

ok-injective {ℓ} : {A : Type ℓ} {a b : A} → ok a ≡ ok b → a ≡ b
ok-injective e = cc

answer_media-Turn :
    (local remote : MediaDescription) (o : Option MediaDescription)
    → answer_media local remote ≡ ok o
    → Turn local remote o
unfolding answer_media
answer_media-Turn local remote o e =
    elim (Bool-cases (same_type local.media_type remote.media_type)) [
      | inr h ↦ let never = rw h at e in cc
      | inl t ↦ elim (Bool-cases (same_proto local.proto remote.proto)) [
        | inr h ↦ let never = rw (t, h) at e in cc
        | inl p ↦ elim (Bool-cases ((remote.port == 0) || (local.port == 0))) [
          | inl z ↦ let same = rw (t, p, z) at e in subst (Turn local remote) (ok-injective same) z
          | inr z ↦
              let (fs, h, same) =
                >>=-eq-ok (match_formats local.media_formats remote.media_formats)
                  (λ fs. ok (answered local remote fs)) (rw (t, p, z) at e) in
              subst (Turn local remote) (ok-injective same) (record {
                enabled = z;
                agree = (t, p);
                kept = (refl, refl, refl);
                common = match_formats-common local.media_formats remote.media_formats fs h;
                attributes = refl;
              })
        ]
      ]
    ]

-- The media of an answer, against the two lists that it is made from: pair by pair, a pair with a
-- zero port left out, the longer list cut off.
pub data Negotiated
    : List MediaDescription → List MediaDescription → List MediaDescription → Type 0 where
  no_local : (remotes : List MediaDescription) → Negotiated [] remotes []
  no_remote : (locals : List MediaDescription) → Negotiated locals [] []
  disabled :
      {local remote : MediaDescription} {locals remotes ms : List MediaDescription}
      → ((remote.port == 0) || (local.port == 0)) ≡ true
      → Negotiated locals remotes ms
      → Negotiated (local ∷ locals) (remote ∷ remotes) ms
  accepted :
      {local remote m : MediaDescription} {locals remotes ms : List MediaDescription}
      → Answers local remote m
      → Negotiated locals remotes ms
      → Negotiated (local ∷ locals) (remote ∷ remotes) (m ∷ ms)

push-Negotiated :
    (local remote : MediaDescription) (o : Option MediaDescription)
    (locals remotes ms : List MediaDescription)
    → Turn local remote o
    → Negotiated locals remotes ms
    → Negotiated (local ∷ locals) (remote ∷ remotes) (push o ms)
push-Negotiated local remote none locals remotes ms t rest = disabled t rest
push-Negotiated local remote (some m) locals remotes ms t rest = accepted t rest

pub answer_all-Negotiated :
    (locals remotes ms : List MediaDescription)
    → answer_all locals remotes ≡ ok ms
    → Negotiated locals remotes ms
unfolding answer_all
answer_all-Negotiated [] remotes ms e =
    subst (Negotiated [] remotes) (ok-injective e) (no_local remotes)
answer_all-Negotiated (local ∷ locals) [] ms e =
    subst (Negotiated (local ∷ locals) []) (ok-injective e) (no_remote (local ∷ locals))
answer_all-Negotiated (local ∷ locals) (remote ∷ remotes) ms e =
    let (o, h, more) =
      >>=-eq-ok (answer_media local remote)
        (λ o. answer_all locals remotes >>= λ rest. ok (push o rest)) e in
    let (rest, k, same) = >>=-eq-ok (answer_all locals remotes) (λ rest. ok (push o rest)) more in
    subst (Negotiated (local ∷ locals) (remote ∷ remotes)) (ok-injective same) (
      push-Negotiated local remote o locals remotes rest (answer_media-Turn local remote o h)
        (answer_all-Negotiated locals remotes rest k))

-- What an answered negotiator has done with its two offers.
abbrev pub Agreed : Negotiator → Negotiator → Type 0
Agreed n m =
    (remote : SessionDescription) × (local : SessionDescription) × (a : SessionDescription)
    × (n.remote_offer ≡ some remote)
    × (n.local_offer ≡ some local)
    × (m.state ≡ done)
    × (m.answer ≡ some a)
    × (a.time ≡ remote.time)
    × (a.origin ≡ local.origin)
    × (a.session_name ≡ local.session_name)
    × (a.connection_information ≡ local.connection_information)
    × (a.attributes ≡ local.attributes)
    × Negotiated local.media remote.media a.media

answer_offers-Agreed :
    (n m : Negotiator) (r l : Option SessionDescription)
    → n.remote_offer ≡ r
    → n.local_offer ≡ l
    → answer_offers n r l ≡ ok m
    → Agreed n m
answer_offers-Agreed n m (some remote) (some local) er el e =
    let (ms, h, same) = >>=-eq-ok (answer_all local.media remote.media) _ e in
    (
      remote,
      local,
      record local { media = ms; time = remote.time },
      er,
      el,
      ground arith,
      ground arith,
      refl,
      refl,
      refl,
      refl,
      refl,
      answer_all-Negotiated local.media remote.media ms h,
    )
answer_offers-Agreed n m (some remote) none er el e = cc
answer_offers-Agreed n m none l er el e = cc

answer_in-Agreed : (s : NegotiatorState) (n m : Negotiator) → answer_in s n ≡ ok m → Agreed n m
answer_in-Agreed ready_to_answer n m e =
    answer_offers-Agreed n m n.remote_offer n.local_offer refl refl e
answer_in-Agreed _ n m e = cc

-- An answer that is made stands for both offers: the negotiator is Done, the answer has the times
-- of the remote offer and the origin, the name, the connection and the attributes of the local one, and its media are those of the
-- local offer pair by pair, without the pairs that have a zero port. Each medium keeps the local
-- type, protocol and port, which agree with the remote type and protocol, and lists the local
-- formats that the remote medium has too.
pub create_answer-Agreed : (n m : Negotiator) → create_answer n ≡ ok m → Agreed n m
unfolding create_answer
create_answer-Agreed n m e = answer_in-Agreed n.state n m e

-- A medium that answers a remote one with a direction announces a direction that fits it: it sends
-- only if the remote side receives, and receives only if the remote side sends.
pub Answers-Fits :
    (local remote m : MediaDescription) (r : Direction)
    → Answers local remote m
    → find_direction remote.attributes ≡ some r
    → (d : Direction) × (find_direction m.attributes ≡ some d) × Fits r d
Answers-Fits local remote m r a e =
    let (d, chosen, fits) = answer_direction-Fits r (find_direction local.attributes) in
    (d, rw (a.attributes, e, chosen) (answer_attributes-direction local.attributes d), fits)
