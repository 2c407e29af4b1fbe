-- ===== src/Media/Sdp/RoundTrip/Whole.antt =====
-- rssip-media/src/sdp: a description that is printed reads back.
use mathlib.Core.List.{append_assoc}
use mathlib.Core.Path.{subst}
use rssip.Prelude.{
  ℕ, ◌≡◌, refl, ap, sym, ◌∙◌, Bool, false, Text, codes, List, [], ◌∷◌, ◌++◌, Option, none, some,
}
use rssip.Error.{ok}
use rssip.Scanner.{Scanner}
use rssip.Scanner.Reading.{Yields, must_read-At}
use rssip.Scanner.Strings.{is_newline}
use rssip.Media.Sdp.{
  IpAddr, Attribute, TimeDescription, MediaDescription, SessionDescription, ConnectionInformation,
}
use rssip.Media.Sdp.Setters.{
  set_origin, set_name, set_information, set_uri, set_email_addr, set_phone, set_attr,
  set_connection,
}
use rssip.Media.Sdp.Printing.{
  text_line, concat_map, if_some, show_attribute, show_bandwidth, show_connection, show_origin,
  show_time, show_media, show_sdp,
}
use rssip.Media.Sdp.Printable.{
  ReadsBack, IsLine, IsAttribute, IsConnection, IfSome, IsTime, IsMedia, IsPrintable,
}
use rssip.Media.Sdp.Parsing.{parse_origin, read_line, parse_version}
use rssip.Media.Sdp.Parser.{parse_field, parse, default_session}
use rssip.Media.Sdp.RoundTrip.Fields.{eol, read_line-Yields}
use rssip.Media.Sdp.RoundTrip.Heads.{parse_origin-Yields}
use rssip.Media.Sdp.RoundTrip.Runs.{Prints, Prints-append, line-Prints, parse-Prints}
use rssip.Media.Sdp.RoundTrip.Sections.{
  setting-Yields, optional-Prints, list-Prints, attribute-Prints, time-Prints,
}
use rssip.Media.Sdp.RoundTrip.MediaSections.{connection-Prints, media-Prints, empty-Prints}

origin_body :
    (user id version net addr ip after : Text)
    → user ++ (32 ∷ id) ++ (32 ∷ version) ++ (32 ∷ net) ++ (32 ∷ addr) ++ (32 ∷ ip) ++ eol after
      ≡ user
        ++ (32
            ∷ (id ++ (32 ∷ (version ++ (32 ∷ (net ++ (32 ∷ (addr ++ (32 ∷ (ip ++ eol after))))))))))
origin_body user id version net addr ip after = simp append_assoc

module _ (is_utf8 : Text → Bool) (show_ip : IpAddr → Text) (parse_ip : Text → Option IpAddr)
    (ip : ReadsBack is_utf8 show_ip parse_ip) (local_ip : IpAddr) (d : SessionDescription)
    (is : IsPrintable is_utf8 d) where
  abbrev Leads : Text → SessionDescription → SessionDescription → Type 0
  Leads = Prints is_utf8 parse_ip

  -- The descriptions between the lines.
  abbrev opened : SessionDescription
  opened = record (default_session local_ip) { origin = d.origin }

  abbrev named : Option Text → SessionDescription
  named i = record opened { session_name = d.session_name; session_information = i }

  abbrev with_uri : Option Text → SessionDescription
  with_uri u = record (named d.session_information) { uri = u }

  abbrev with_email : Option Text → SessionDescription
  with_email e = record (with_uri d.uri) { email_address = e }

  abbrev with_phone : Option Text → SessionDescription
  with_phone p = record (with_email d.email_address) { phone_number = p }

  abbrev with_connection : Option ConnectionInformation → SessionDescription
  with_connection c = record (with_phone d.phone_number) { connection_information = c }

  abbrev with_time : List TimeDescription → SessionDescription
  with_time time = record (with_connection d.connection_information) { time = time }

  abbrev with_attributes : List Attribute → SessionDescription
  with_attributes attributes = record (with_time d.time) { attributes = attributes }

  abbrev with_media : List MediaDescription → SessionDescription
  with_media media = record (with_attributes d.attributes) { media = media }

  version-Leads :
      Leads (text_line b'v' (codes "0")) (default_session local_ip) (default_session local_ip)
  unfolding parse_field parse_version
  version-Leads =
      line-Prints is_utf8 parse_ip b'v' (codes "0") _ _ refl
        λ after s h. let (s1, e1, h1) = must_read-At b'0' (eol after) s h in (s1, rw e1 refl, h1)

  origin-Leads : Leads (show_origin show_ip d.origin) (default_session local_ip) opened
  unfolding show_origin parse_field
  origin-Leads =
      line-Prints is_utf8 parse_ip b'o' _ (default_session local_ip) opened refl λ after s h.
        setting-Yields set_origin (default_session local_ip) (parse_origin is_utf8 parse_ip s)
          d.origin (eol after)
          (parse_origin-Yields is_utf8 show_ip parse_ip ip is.ascii d.origin after s
            (h.0, h.1 ∙ origin_body _ _ _ _ _ _ after) is.origin)

  -- A line whose text is taken over whole.
  text-Leads :
      (field : ℕ) (t : Text) (from to : SessionDescription)
      → IsLine is_utf8 t
      → ((after : Text) (s : Scanner)
          → Yields (read_line is_utf8 s) t (eol after)
          → Yields (parse_field is_utf8 parse_ip field from s) to (eol after))
      → is_newline field ≡ false
      → Leads (text_line field t) from to
  text-Leads field t from to line reads letter =
      line-Prints is_utf8 parse_ip field t from to letter
        λ after s h. reads after s (read_line-Yields is_utf8 t after s h line)

  name-Leads : Leads (text_line b's' d.session_name) opened (named none)
  unfolding parse_field default_session
  name-Leads =
      text-Leads b's' d.session_name opened (named none) is.label
        (λ after s. setting-Yields set_name opened _ d.session_name (eol after)) refl

  information-Leads :
      Leads
        (if_some (text_line b'i') d.session_information)
        (named none)
        (named d.session_information)
  unfolding parse_field set_information default_session
  information-Leads =
      optional-Prints is_utf8 parse_ip (text_line b'i') named d.session_information λ t e.
        text-Leads b'i' t (named none) (named (some t))
          (subst (IfSome (IsLine is_utf8)) e is.information)
          (λ after s. setting-Yields set_information (named none) _ t (eol after)) refl

  uri-Leads : Leads (if_some (text_line b'u') d.uri) (with_uri none) (with_uri d.uri)
  unfolding parse_field default_session
  uri-Leads = optional-Prints is_utf8 parse_ip (text_line b'u') with_uri d.uri λ t e.
      text-Leads b'u' t (with_uri none) (with_uri (some t))
        (subst (IfSome (IsLine is_utf8)) e is.uri)
        (λ after s. setting-Yields set_uri (with_uri none) _ t (eol after)) refl

  email-Leads :
      Leads
        (if_some (text_line b'e') d.email_address)
        (with_email none)
        (with_email d.email_address)
  unfolding parse_field default_session
  email-Leads = optional-Prints is_utf8 parse_ip (text_line b'e') with_email d.email_address λ t e.
      text-Leads b'e' t (with_email none) (with_email (some t))
        (subst (IfSome (IsLine is_utf8)) e is.email)
        (λ after s. setting-Yields set_email_addr (with_email none) _ t (eol after)) refl

  phone-Leads :
      Leads (if_some (text_line b'p') d.phone_number) (with_phone none) (with_phone d.phone_number)
  unfolding parse_field default_session
  phone-Leads = optional-Prints is_utf8 parse_ip (text_line b'p') with_phone d.phone_number λ t e.
      text-Leads b'p' t (with_phone none) (with_phone (some t))
        (subst (IfSome (IsLine is_utf8)) e is.phone)
        (λ after s. setting-Yields set_phone (with_phone none) _ t (eol after)) refl

  connection-Leads :
      Leads
        (if_some (show_connection show_ip) d.connection_information)
        (with_connection none)
        (with_connection d.connection_information)
  unfolding set_connection default_session
  connection-Leads =
      optional-Prints is_utf8 parse_ip (show_connection show_ip) with_connection
        d.connection_information
        λ c e.
          connection-Prints is_utf8 show_ip parse_ip ip is.ascii c (with_connection none)
            (subst (IfSome (IsConnection is_utf8)) e is.connection)

  bandwidth-Leads :
      (from : SessionDescription)
      → Leads (concat_map show_bandwidth d.bandwidth_information) from from
  bandwidth-Leads from =
      empty-Prints is_utf8 show_ip parse_ip ip is.ascii
        (concat_map show_bandwidth d.bandwidth_information) from
        (ap (concat_map show_bandwidth) is.no_bandwidth)

  time-Leads : Leads (concat_map show_time d.time) (with_time []) (with_time d.time)
  unfolding default_session
  time-Leads =
      list-Prints is_utf8 parse_ip show_time IsTime with_time
        (λ before t fits. time-Prints is_utf8 parse_ip before t (with_time []) fits) d.time is.time

  attributes-Leads :
      Leads
        (concat_map show_attribute d.attributes)
        (with_attributes [])
        (with_attributes d.attributes)
  unfolding set_attr default_session
  attributes-Leads =
      list-Prints is_utf8 parse_ip show_attribute (IsAttribute is_utf8) with_attributes
        (λ before a fits. attribute-Prints is_utf8 parse_ip a (with_attributes before) fits)
        d.attributes is.attributes

  media-Leads : Leads (concat_map (show_media show_ip) d.media) (with_media []) (with_media d.media)
  unfolding default_session
  media-Leads =
      list-Prints is_utf8 parse_ip (show_media show_ip) (IsMedia is_utf8) with_media
        (media-Prints is_utf8 show_ip parse_ip ip is.ascii (with_media [])) d.media is.media

  all_lines : with_media d.media ≡ d
  unfolding default_session
  all_lines = ap (λ b. record d { bandwidth_information = b }) (sym is.no_bandwidth)

  show_sdp-Leads : Leads (show_sdp show_ip d) (default_session local_ip) (with_media d.media)
  unfolding show_sdp default_session
  show_sdp-Leads =
      let join = Prints-append is_utf8 parse_ip in
      join _ _ _ _ _
        (join _ _ _ _ _
          (join _ _ _ _ _
            (join _ _ _ _ _
              (join _ _ _ _ _
                (join _ _ _ _ _
                  (join _ _ _ _ _
                    (join _ _ _ _ _
                      (join _ _ _ _ _
                        (join _ _ _ _ _ (join _ _ _ _ _ version-Leads origin-Leads) name-Leads)
                        information-Leads)
                      uri-Leads)
                    email-Leads)
                  phone-Leads)
                connection-Leads)
              (bandwidth-Leads _))
            time-Leads)
          attributes-Leads)
        media-Leads

-- A description that is printed is parsed as itself, if its texts stay on their lines, its
-- attributes, media formats, users and network types are words of the grammar, its numbers fit their types,
-- its repeat times have no sign, and it has neither bandwidths, titles of media, numbers of ports, media of the
-- type `application` nor media without a format.
pub parse-show_sdp :
    (is_utf8 : Text → Bool) (show_ip : IpAddr → Text) (parse_ip : Text → Option IpAddr)
    (local_ip : IpAddr) (d : SessionDescription)
    → ReadsBack is_utf8 show_ip parse_ip
    → IsPrintable is_utf8 d
    → parse is_utf8 parse_ip local_ip (show_sdp show_ip d) ≡ ok d
parse-show_sdp is_utf8 show_ip parse_ip local_ip d ip is =
    parse-Prints is_utf8 parse_ip local_ip (show_sdp show_ip d)
      (with_media is_utf8 show_ip parse_ip ip local_ip d is d.media)
      (show_sdp-Leads is_utf8 show_ip parse_ip ip local_ip d is)
    ∙ ap ok (all_lines is_utf8 show_ip parse_ip ip local_ip d is)
