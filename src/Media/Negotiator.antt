-- ===== src/Media/Negotiator.antt =====
-- rssip-media/src/sdp/negotiator.rs: the state of an offer/answer exchange and its operations. An
-- operation that returns an error leaves the negotiator as it is, so `err` carries no state.
pub mod Offers
pub mod Offering
pub mod Completed
pub mod Kept
pub mod Directions
pub mod Answer
use rssip.Prelude.{
  ℕ, ◌+◌, ◌*◌, ◌-◌, Bool, true, false, not, parse_unsigned, ◌&&◌, ◌||◌, ltb, leb, within, ◌==◌,
  Text, codes, text_eq, List, [], ◌∷◌, ◌++◌, Option, none, some, keep, any, if◌then◌else◌,
}
use rssip.Media.Error.{err_invalid_nego_state, parse_int}
use rssip.Media.Sdp.{
  same_type, same_proto, Attribute, MediaDescription, SessionDescription, Direction, send_recv,
  recv_only, send_only, inactive, direction_name, direction_of,
}
use rssip.Error.{media_error, Result, ok, err, panic, ◌>>=◌}

pub data NegotiatorState : Type 0 where
  initial local_offered remote_offered ready_to_answer done : NegotiatorState

pub record Negotiator : Type 0 where
  pub remote_offer : Option SessionDescription
  pub local_offer : Option SessionDescription
  pub answer : Option SessionDescription
  pub state : NegotiatorState

abbrev pub new : Negotiator
new = record { remote_offer = none; local_offer = none; answer = none; state = initial }

unfoldable pub with_local : SessionDescription → Negotiator
with_local local = record {
  remote_offer = none;
  local_offer = some local;
  answer = none;
  state = local_offered;
}

unfoldable pub with_remote : SessionDescription → Negotiator
with_remote remote = record {
  remote_offer = some remote;
  local_offer = none;
  answer = none;
  state = remote_offered;
}

abbrev remote_next : NegotiatorState → Result NegotiatorState
remote_next initial = ok remote_offered
remote_next local_offered = ok ready_to_answer
remote_next _ = err (media_error err_invalid_nego_state)

abbrev local_next : NegotiatorState → Result NegotiatorState
local_next initial = ok local_offered
local_next remote_offered = ok ready_to_answer
local_next _ = err (media_error err_invalid_nego_state)

unfoldable pub set_remote_offer : Negotiator → SessionDescription → Result Negotiator
set_remote_offer n remote = do
  s ← remote_next n.state
  ok (record n { state = s; remote_offer = some remote })

unfoldable pub set_local_offer : Negotiator → SessionDescription → Result Negotiator
set_local_offer n local = do
  s ← local_next n.state
  ok (record n { state = s; local_offer = some local })

-- `iter().find(..)` for the first attribute that names a direction.
abbrev first_direction : Option Direction → Option Direction → Option Direction
first_direction none later = later
first_direction (some d) later = some d

unfoldable pub find_direction : List Attribute → Option Direction
find_direction [] = none
find_direction (a ∷ attributes) = first_direction (direction_of a.name) (find_direction attributes)

-- The two inner matches on `local_dir`.
abbrev pub answer_to_send : Option Direction → Direction
answer_to_send (some send_recv) = recv_only
answer_to_send (some recv_only) = recv_only
answer_to_send _ = inactive

abbrev pub answer_to_recv : Option Direction → Direction
answer_to_recv (some send_recv) = send_only
answer_to_recv (some send_only) = send_only
answer_to_recv _ = inactive

-- `remote_dir` first, then `local_dir`.
unfoldable pub answer_direction : Option Direction → Option Direction → Option Direction
answer_direction (some send_only) local = some (answer_to_send local)
answer_direction (some inactive) local = some inactive
answer_direction (some recv_only) local = some (answer_to_recv local)
answer_direction (some send_recv) local = some send_recv
answer_direction none local = none

abbrev names_no_direction : Option Direction → Bool
names_no_direction none = true
names_no_direction (some d) = false

unfoldable pub answer_attributes : List Attribute → Option Direction → List Attribute
answer_attributes local none = local
answer_attributes local (some d) =
    keep (λ a. names_no_direction (direction_of a.name)) local
    ++ record { name = direction_name d; value = none } ∷ []

-- `str::parse::<u8>`, with its error.
abbrev pub read_u8 : Option ℕ → Result ℕ
read_u8 none = err (media_error parse_int)
read_u8 (some n) = ok n

unfoldable pub parse_u8 : Text → Result ℕ
parse_u8 f = read_u8 (parse_unsigned 255 f)

-- The loop over the local formats: static types that the remote side has too.
abbrev pub take_format : Text → Bool → ℕ → Result (List Text) → Result (List Text)
take_format f common payload_type rest =
    if ltb payload_type 96 then (if common then (rest >>= λ fs. ok (f ∷ fs)) else rest) else panic

unfoldable pub match_formats : List Text → List Text → Result (List Text)
match_formats [] remote = ok []
match_formats (f ∷ local) remote =
    let rest = match_formats local remote in
    parse_u8 f >>= λ payload_type. take_format f (any (text_eq f) remote) payload_type rest

-- One turn of the loop over the pairs of media; `none` is the `continue` of a disabled one.
unfoldable pub answer_media : MediaDescription → MediaDescription → Result (Option MediaDescription)
unfolding answer_attributes
answer_media local remote =
    if not (same_type local.media_type remote.media_type)
    then panic
    else if not (same_proto local.proto remote.proto)
    then panic
    else if (remote.port == 0) || (local.port == 0)
    then ok none
    else (do
      fs ← match_formats local.media_formats remote.media_formats
      let d = answer_direction (find_direction remote.attributes) (find_direction local.attributes)
      ok (
          some (record local {
            media_formats = fs;
            attributes = answer_attributes local.attributes d;
          })))

abbrev pub push : Option MediaDescription → List MediaDescription → List MediaDescription
push none media = media
push (some m) media = m ∷ media

-- The loop over `local_offer.media.zip(remote_offer.media)`.
unfoldable pub answer_all :
    List MediaDescription → List MediaDescription → Result (List MediaDescription)
answer_all [] remotes = ok []
answer_all (local ∷ locals) [] = ok []
answer_all (local ∷ locals) (remote ∷ remotes) = do
  m ← answer_media local remote
  ms ← answer_all locals remotes
  ok (push m ms)

abbrev pub answer_offers :
    Negotiator → Option SessionDescription → Option SessionDescription → Result Negotiator
answer_offers n (some remote) (some local) = do
  media ← answer_all local.media remote.media
  ok (record n { answer = some (record local { media = media; time = remote.time }); state = done })
answer_offers n _ _ = panic

-- Behind the test of the state.
abbrev pub answer_in : NegotiatorState → Negotiator → Result Negotiator
answer_in ready_to_answer n = answer_offers n n.remote_offer n.local_offer
answer_in _ n = err (media_error err_invalid_nego_state)

unfoldable pub create_answer : Negotiator → Result Negotiator
unfolding answer_all
create_answer n = answer_in n.state n

-- The loop of `process_answer` only looks for media that do not fit.
unfoldable pub check_all : List MediaDescription → List MediaDescription → Result (Unit {0})
check_all [] remotes = ok tt
check_all (local ∷ locals) [] = ok tt
check_all (local ∷ locals) (remote ∷ remotes) =
    let rest = check_all locals remotes in
    if not (same_type local.media_type remote.media_type)
    then panic
    else if not (same_proto local.proto remote.proto)
    then panic
    else rest

abbrev pub check_offer :
    Negotiator → Option SessionDescription → SessionDescription → Result Negotiator
check_offer n none answer = panic
check_offer n (some local) answer = do
  u ← check_all local.media answer.media
  ok (record n { answer = some answer; state = done })

abbrev pub process_in : NegotiatorState → Negotiator → SessionDescription → Result Negotiator
process_in local_offered n answer = check_offer n n.local_offer answer
process_in _ n answer = err (media_error err_invalid_nego_state)

unfoldable pub process_answer : Negotiator → SessionDescription → Result Negotiator
unfolding check_all
process_answer n answer = process_in n.state n answer
