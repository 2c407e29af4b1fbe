-- ===== src/Tests/Media.antt =====
-- A concrete offer and its answer.
use rssip.Prelude.{◌≡◌, refl, Text, codes, List, [], ◌∷◌, none, some}
use rssip.Media.Sdp.{
  audio, rtp_avp, v4, Attribute, MediaDescription, SessionDescription, Direction, send_only,
  direction_of, direction_name,
}
use rssip.Media.Sdp.Parser.{default_session}
use rssip.Media.Negotiator.{
  ready_to_answer, done, Negotiator, with_local, set_remote_offer, create_answer, answer_all,
  answer_media, answer_direction, answer_attributes, find_direction, match_formats, parse_u8,
}
use rssip.Media.Negotiator.Offers.{
  IsValid, Reachable, starts_with_local, sets_remote, Reachable-IsValid, LoopPanics,
  create_answer-panic,
}
use rssip.Media.Negotiator.Directions.{Fits}
use rssip.Media.Negotiator.Answer.{Agreed, create_answer-Agreed, Answers, Answers-Fits}

abbrev attribute : Text → Attribute
attribute name = record { name = name; value = none }

abbrev medium : List Text → Text → MediaDescription
medium formats direction = record {
  media_type = audio;
  proto = rtp_avp;
  port = 49170;
  media_formats = formats;
  attributes = attribute direction ∷ [];
  number_of_ports = none;
  title = none;
  connection_information = none;
  bandwidth_information = [];
}

abbrev session : List MediaDescription → SessionDescription
session media = record (default_session (v4 [])) { media = media }

abbrev local_medium : MediaDescription
local_medium = medium (codes "0" ∷ codes "8" ∷ []) (codes "sendrecv")

abbrev remote_medium : MediaDescription
remote_medium = medium (codes "8" ∷ codes "3" ∷ []) (codes "sendonly")

abbrev answer_medium : MediaDescription
answer_medium = medium (codes "8" ∷ []) (codes "recvonly")

abbrev both_offers : Negotiator
both_offers = record {
  remote_offer = some (session (remote_medium ∷ []));
  local_offer = some (session (local_medium ∷ []));
  answer = none;
  state = ready_to_answer;
}

abbrev with_answer : Negotiator
with_answer = record both_offers { answer = some (session (answer_medium ∷ [])); state = done }

create_answer-Agreed_example : Agreed both_offers with_answer
unfolding create_answer answer_all answer_media match_formats parse_u8 answer_direction
    answer_attributes find_direction direction_of direction_name
create_answer-Agreed_example = create_answer-Agreed both_offers with_answer refl

answers : Answers local_medium remote_medium answer_medium
unfolding answer_direction answer_attributes find_direction direction_of direction_name
answers = record {
  enabled = refl;
  agree = (refl, refl);
  kept = (refl, refl, refl);
  common = refl;
  attributes = refl;
}

Answers-Fits_example :
    (d : Direction) × (find_direction answer_medium.attributes ≡ some d) × Fits send_only d
unfolding find_direction direction_of
Answers-Fits_example = Answers-Fits local_medium remote_medium answer_medium send_only answers refl

-- Both sides offer a dynamic payload type, 96.
abbrev dynamic : SessionDescription
dynamic = session (medium (codes "96" ∷ []) (codes "sendrecv") ∷ [])

abbrev dynamic_offers : Negotiator
dynamic_offers = record {
  remote_offer = some dynamic;
  local_offer = some dynamic;
  answer = none;
  state = ready_to_answer;
}

dynamic-Reachable : Reachable dynamic_offers
unfolding with_local set_remote_offer
dynamic-Reachable = sets_remote dynamic (starts_with_local dynamic) refl

create_answer-panic_example : LoopPanics dynamic_offers
unfolding create_answer answer_all answer_media match_formats parse_u8
create_answer-panic_example = create_answer-panic dynamic_offers dynamic-Reachable refl

Reachable-IsValid_example : IsValid dynamic_offers
Reachable-IsValid_example = Reachable-IsValid dynamic_offers dynamic-Reachable
