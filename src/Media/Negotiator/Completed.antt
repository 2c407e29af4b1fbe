-- ===== src/Media/Negotiator/Completed.antt =====
-- An offer of static codecs can be answered with: the answer is made.
use rssip.Prelude.{
  ℕ, ◌<◌, ◌||◌, ◌==◌, ltb, ◌≡◌, refl, inl, inr, Bool, true, false, Text, text_eq, List, [], ◌∷◌,
  Option, none, some, any, map, All, parse_unsigned-decimal, Bool-cases, arith,
}
use rssip.Media.Codec.{Codec}
use rssip.Media.Sdp.{same_type, same_proto, MediaDescription, SessionDescription, Direction}
use rssip.Media.Sdp.Setters.{change_last}
use rssip.Media.Negotiator.{
  remote_offered, done, Negotiator, set_local_offer, create_answer, answer_media, answer_all,
  parse_u8, take_format, match_formats, push,
}
use rssip.Media.Negotiator.Answer.{Negotiated, answered, answer_all-Negotiated}
use rssip.Media.Negotiator.Offering.{
  SdpMediaStream, SdpOfferParams, stream_media, add_attributes, offered_media, offered,
  create_offer, codecs_formats,
}
use rssip.Error.{Result, ok, ◌>>=◌}

-- A format that is a static payload type.
abbrev IsStatic : Text → Type 0
IsStatic f = (n : ℕ) × (parse_u8 f ≡ ok n) × (ltb n 96 ≡ true)

take_format_ok :
    (f : Text) (common : Bool) (n : ℕ) (gs : List Text)
    → ltb n 96 ≡ true
    → (fs : List Text) × (take_format f common n (ok gs) ≡ ok fs)
take_format_ok f true n gs e = (f ∷ gs, rw e refl)
take_format_ok f false n gs e = (gs, rw e refl)

match_formats_ok :
    (local remote : List Text)
    → All IsStatic local
    → (fs : List Text) × (match_formats local remote ≡ ok fs)
unfolding match_formats
match_formats_ok [] remote statics = ([], refl)
match_formats_ok (f ∷ local) remote ((n, e, low), statics) =
    let (gs, same) = match_formats_ok local remote statics in
    let (fs, taken) = take_format_ok f (any (text_eq f) remote) n gs low in (fs, rw (e, same) taken)

-- Media that agree in type and protocol, pair by pair.
abbrev Alike : List MediaDescription → List MediaDescription → Type 0
Alike [] remotes = Unit
Alike (l ∷ locals) [] = Unit
Alike (l ∷ locals) (r ∷ remotes) =
    (same_type l.media_type r.media_type ≡ true)
    × (same_proto l.proto r.proto ≡ true)
    × Alike locals remotes

answer_media_ok :
    (l r : MediaDescription)
    → same_type l.media_type r.media_type ≡ true
    → same_proto l.proto r.proto ≡ true
    → All IsStatic l.media_formats
    → (o : Option MediaDescription) × (answer_media l r ≡ ok o)
unfolding answer_media
answer_media_ok l r t p statics = elim (Bool-cases ((r.port == 0) || (l.port == 0))) [
  | inl off ↦ (none, rw (t, p, off) refl)
  | inr on ↦
      let (fs, e) = match_formats_ok l.media_formats r.media_formats statics in
      (answered l r fs, rw (t, p, on, e) refl)
]

answer_all_ok :
    (locals remotes : List MediaDescription)
    → Alike locals remotes
    → All (λ m. All IsStatic m.media_formats) locals
    → (ms : List MediaDescription) × (answer_all locals remotes ≡ ok ms)
unfolding answer_all
answer_all_ok [] remotes alike statics = ([], refl)
answer_all_ok (l ∷ locals) [] alike statics = ([], refl)
answer_all_ok (l ∷ locals) (r ∷ remotes) (t, p, alike) (first, statics) =
    let (o, e) = answer_media_ok l r t p first in
    let (ms, more) = answer_all_ok locals remotes alike statics in (push o ms, rw (e, more) refl)

-- The three attributes change neither types, protocols nor formats.
change_last-Alike :
    (d : Option Direction) (locals remotes : List MediaDescription)
    → Alike locals remotes
    → Alike (change_last (add_attributes d) locals) remotes
unfolding change_last
change_last-Alike d [] remotes alike = tt
change_last-Alike d (l ∷ []) [] alike = tt
change_last-Alike d (l ∷ []) (r ∷ remotes) alike = alike
change_last-Alike d (l ∷ m ∷ locals) [] alike = tt
change_last-Alike d (l ∷ m ∷ locals) (r ∷ remotes) (t, p, alike) =
    (t, p, change_last-Alike d (m ∷ locals) remotes alike)

change_last-IsStatic :
    (d : Option Direction) (locals : List MediaDescription)
    → All (λ m. All IsStatic m.media_formats) locals
    → All (λ m. All IsStatic m.media_formats) (change_last (add_attributes d) locals)
unfolding change_last
change_last-IsStatic d [] statics = tt
change_last-IsStatic d (l ∷ []) statics = statics
change_last-IsStatic d (l ∷ m ∷ locals) (first, statics) =
    (first, change_last-IsStatic d (m ∷ locals) statics)

codecs-IsStatic :
    (cs : List Codec) → All (λ c. c.payload_type < 96) cs → All IsStatic (codecs_formats cs)
unfolding codecs_formats parse_u8
codecs-IsStatic [] low = tt
codecs-IsStatic (c ∷ cs) (low, more) = (
  (c.payload_type, rw (parse_unsigned-decimal c.payload_type 255 (omega arith)) refl, ground arith),
  codecs-IsStatic cs more,
)

-- The streams to offer have static codecs only.
abbrev pub StaticStreams : List SdpMediaStream → Type 0
StaticStreams = All (λ s. All (λ c. c.payload_type < 96) s.codecs)

streams-IsStatic :
    (ss : List SdpMediaStream)
    → StaticStreams ss
    → All (λ m. All IsStatic m.media_formats) (map stream_media ss)
unfolding stream_media
streams-IsStatic [] low = tt
streams-IsStatic (s ∷ ss) (low, more) = (codecs-IsStatic s.codecs low, streams-IsStatic ss more)

-- The streams to offer agree in type and protocol with the media of the other side.
abbrev pub StreamsFit : List SdpMediaStream → List MediaDescription → Type 0
StreamsFit [] remotes = Unit
StreamsFit (s ∷ ss) [] = Unit
StreamsFit (s ∷ ss) (r ∷ remotes) =
    (same_type s.media_type r.media_type ≡ true)
    × (same_proto s.transport r.proto ≡ true)
    × StreamsFit ss remotes

streams-Alike :
    (ss : List SdpMediaStream) (remotes : List MediaDescription)
    → StreamsFit ss remotes
    → Alike (map stream_media ss) remotes
unfolding stream_media
streams-Alike [] remotes fit = tt
streams-Alike (s ∷ ss) [] fit = tt
streams-Alike (s ∷ ss) (r ∷ remotes) (t, p, fit) = (t, p, streams-Alike ss remotes fit)

-- How a callee's negotiator answers the offer that it holds.
abbrev pub answered_by : Negotiator → SdpOfferParams → ℕ → ℕ → Result Negotiator
answered_by n p session_id session_version = do
  offer ← create_offer n p session_id session_version
  n ← set_local_offer n offer
  create_answer n

-- A negotiator that holds only a remote offer makes an answer to it from its own streams, if these
-- have static codecs (payload types below 96) and agree in type and protocol, pair by pair, with
-- the media of the remote offer. It is Done then, and the media of the answer are those of its own
-- offer pair by pair, without the pairs that have a zero port, each with the formats that both
-- sides have.
pub create_offer-create_answer :
    (n : Negotiator) (remote : SessionDescription) (p : SdpOfferParams)
    (session_id session_version : ℕ)
    → n.state ≡ remote_offered
    → n.remote_offer ≡ some remote
    → StaticStreams p.media_streams
    → StreamsFit p.media_streams remote.media
    → (m : Negotiator) × (a : SessionDescription) × (answered_by n p session_id session_version
        ≡ ok m)
      × (m.state ≡ done)
      × (m.answer ≡ some a)
      × Negotiated (offered_media p) remote.media a.media
unfolding create_offer offered set_local_offer create_answer offered_media
create_offer-create_answer n remote p session_id session_version at_remote held statics fit =
    let locals = map stream_media p.media_streams in
    let (ms, e) =
      answer_all_ok (offered_media p) remote.media
        (change_last-Alike p.direction locals remote.media
          (streams-Alike p.media_streams remote.media fit))
        (change_last-IsStatic p.direction locals (streams-IsStatic p.media_streams statics)) in
    let local = offered p session_id session_version in
    let a = record local { media = ms; time = remote.time } in
    (
      record n { state = done; local_offer = some local; answer = some a },
      a,
      rw (at_remote, held, e) refl,
      refl,
      refl,
      answer_all-Negotiated (offered_media p) remote.media ms e,
    )
