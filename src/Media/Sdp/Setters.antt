-- ===== src/Media/Sdp/Setters.antt =====
-- rssip-media/src/sdp/mod.rs: the setters of a session description. What names a medium or a time
-- goes to the last one that stands.
use rssip.Prelude.{Text, List, [], ◌∷◌, ◌++◌, some}
use rssip.Error.{media_error, Result, ok, err}
use rssip.Media.Error.{sdp_time_description_not_found}
use rssip.Media.Sdp.{
  Attribute, Origin, ConnectionInformation, BandwidthInformation, RepeatTimes, TimeDescription,
  MediaDescription, SessionDescription,
}

-- A change through `last_mut()`.
unfoldable pub change_last {ℓ} : {A : Type ℓ} → (A → A) → List A → List A
change_last f [] = []
change_last f (a ∷ []) = f a ∷ []
change_last f (a ∷ b ∷ rest) = a ∷ change_last f (b ∷ rest)

abbrev pub set_origin : Origin → SessionDescription → SessionDescription
set_origin o d = record d { origin = o }

abbrev pub set_name : Text → SessionDescription → SessionDescription
set_name t d = record d { session_name = t }

abbrev pub information_at : List MediaDescription → Text → SessionDescription → SessionDescription
information_at [] info d = record d { session_information = some info }
information_at media info d = record d {
  media = change_last (λ m. record m { title = some info }) media;
}

unfoldable pub set_information : Text → SessionDescription → SessionDescription
unfolding change_last
set_information info d = information_at d.media info d

abbrev pub set_email_addr : Text → SessionDescription → SessionDescription
set_email_addr t d = record d { email_address = some t }

abbrev pub set_uri : Text → SessionDescription → SessionDescription
set_uri t d = record d { uri = some t }

abbrev pub attr_at : List MediaDescription → Attribute → SessionDescription → SessionDescription
attr_at [] attr d = record d { attributes = d.attributes ++ attr ∷ [] }
attr_at media attr d = record d {
  media = change_last (λ m. record m { attributes = m.attributes ++ attr ∷ [] }) media;
}

unfoldable pub set_attr : Attribute → SessionDescription → SessionDescription
unfolding change_last
set_attr attr d = attr_at d.media attr d

abbrev pub set_bandwidth_information :
    BandwidthInformation → SessionDescription → SessionDescription
set_bandwidth_information b d = record d {
  bandwidth_information = d.bandwidth_information ++ b ∷ [];
}

abbrev pub set_media_description : MediaDescription → SessionDescription → SessionDescription
set_media_description m d = record d { media = d.media ++ m ∷ [] }

abbrev pub set_time_desc : TimeDescription → SessionDescription → SessionDescription
set_time_desc t d = record d { time = d.time ++ t ∷ [] }

abbrev pub repeat_at :
    List TimeDescription → RepeatTimes → SessionDescription → Result SessionDescription
repeat_at [] r d = err (media_error sdp_time_description_not_found)
repeat_at time r d = ok (record d {
  time = change_last (λ t. record t { repeat_times = t.repeat_times ++ r ∷ [] }) time;
})

unfoldable pub set_repeat_times : RepeatTimes → SessionDescription → Result SessionDescription
unfolding change_last
set_repeat_times r d = repeat_at d.time r d

abbrev pub set_phone : Text → SessionDescription → SessionDescription
set_phone t d = record d { phone_number = some t }

abbrev pub connection_at :
    List MediaDescription → ConnectionInformation → SessionDescription → SessionDescription
connection_at [] c d = record d { connection_information = some c }
connection_at media c d = record d {
  media = change_last (λ m. record m { connection_information = some c }) media;
}

unfoldable pub set_connection : ConnectionInformation → SessionDescription → SessionDescription
unfolding change_last
set_connection c d = connection_at d.media c d
