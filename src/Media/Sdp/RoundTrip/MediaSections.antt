-- ===== src/Media/Sdp/RoundTrip/MediaSections.antt =====
-- rssip-media/src/sdp: the lines of a medium, which the setters collect at the last medium.
use mathlib.Core.List.{append_assoc, append-nil}
use mathlib.Core.Path.{subst}
use rssip.Prelude.{
  ◌≡◌, refl, ap, sym, ◌∙◌, Bool, true, Text, codes, List, [], ◌∷◌, ◌++◌, Option, none, some, arith,
  decimal,
}
use rssip.Media.Sdp.{IpAddr, Attribute, MediaDescription, SessionDescription, ConnectionInformation}
use rssip.Media.Sdp.Setters.{change_last, set_attr, set_connection, set_media_description}
use rssip.Media.Sdp.Printing.{
  text_line, concat_map, if_some, media_name, transport_name, net_name, addr_name, ports_text,
  show_attribute, show_bandwidth, show_connection, show_media_line, show_media,
}
use rssip.Media.Sdp.Printable.{ReadsBack, IsAttribute, IsConnection, IfSome, IsMedia}
use rssip.Media.Sdp.Parsing.{parse_connection_info, parse_media_description}
use rssip.Media.Sdp.Parser.{parse_field}
use rssip.Media.Sdp.RoundTrip.Fields.{eol}
use rssip.Media.Sdp.RoundTrip.Spaced.{spaced_then, spaced_then-concat_map}
use rssip.Media.Sdp.RoundTrip.Heads.{parse_connection_info-Yields}
use rssip.Media.Sdp.RoundTrip.MediaLines.{media_head, parse_media_description-Yields}
use rssip.Media.Sdp.RoundTrip.Runs.{Prints, nothing-Prints, Prints-append, line-Prints}
use rssip.Media.Sdp.RoundTrip.Sections.{
  change_last-concat, setting-Yields, optional-Prints, list-Prints, attribute-Prints,
}

pub set_attr-concat :
    (xs : List MediaDescription) (m : MediaDescription) (a : Attribute) (d : SessionDescription)
    → set_attr a (record d { media = xs ++ m ∷ [] })
      ≡ record d { media = xs ++ record m { attributes = m.attributes ++ a ∷ [] } ∷ [] }
unfolding set_attr
set_attr-concat [] m a d = unfold change_last in refl
set_attr-concat (x ∷ xs) m a d =
    ap (λ ms. record d { media = ms })
      (change_last-concat (λ m. record m { attributes = m.attributes ++ a ∷ [] }) (x ∷ xs) m)

set_connection-concat :
    (xs : List MediaDescription) (m : MediaDescription) (c : ConnectionInformation)
    (d : SessionDescription)
    → set_connection c (record d { media = xs ++ m ∷ [] })
      ≡ record d { media = xs ++ record m { connection_information = some c } ∷ [] }
unfolding set_connection
set_connection-concat [] m c d = unfold change_last in refl
set_connection-concat (x ∷ xs) m c d =
    ap (λ ms. record d { media = ms })
      (change_last-concat (λ m. record m { connection_information = some c }) (x ∷ xs) m)

connection_body :
    (net addr ip after : Text)
    → net ++ (32 ∷ addr) ++ (32 ∷ ip) ++ eol after
      ≡ net ++ (32 ∷ (addr ++ (32 ∷ (ip ++ eol after))))
connection_body net addr ip after = simp append_assoc

media_body :
    (kind port ports proto : Text) (formats : List Text) (after : Text)
    → ports ≡ []
    → kind ++ (32 ∷ port) ++ ports ++ (32 ∷ proto) ++ concat_map (λ f. 32 ∷ f) formats ++ eol after
      ≡ kind ++ (32 ∷ (port ++ (32 ∷ (proto ++ spaced_then (λ f. f) formats (eol after)))))
media_body kind port ports proto formats after e =
    simp (append_assoc, append-nil, spaced_then-concat_map (λ (f : Text). f), e)

-- The medium that its lines give, with what stands on them.
abbrev with_lines :
    MediaDescription → Option ConnectionInformation → List Attribute → MediaDescription
with_lines m c attributes = record (media_head m.media_type m.proto m.port m.media_formats) {
  connection_information = c;
  attributes = attributes;
}

with_all_lines :
    (is_utf8 : Text → Bool) (m : MediaDescription)
    → IsMedia is_utf8 m
    → with_lines m m.connection_information m.attributes ≡ m
with_all_lines is_utf8 m is = ground (arith, is.no_ports, is.no_title, is.no_bandwidth)

module _ (is_utf8 : Text → Bool) (show_ip : IpAddr → Text) (parse_ip : Text → Option IpAddr)
    (ip : ReadsBack is_utf8 show_ip parse_ip)
    (ascii : (is_utf8 (codes "IP4") ≡ true) × (is_utf8 (codes "IP6") ≡ true)) where
  abbrev Leads : Text → SessionDescription → SessionDescription → Type 0
  Leads = Prints is_utf8 parse_ip

  pub empty-Prints : (t : Text) (d : SessionDescription) → t ≡ [] → Leads t d d
  empty-Prints t d e = subst (λ x. Leads x d d) (sym e) (nothing-Prints is_utf8 parse_ip d)

  -- A connection line, wherever the setter puts it.
  pub connection-Prints :
      (c : ConnectionInformation) (d : SessionDescription)
      → IsConnection is_utf8 c
      → Leads (show_connection show_ip c) d (set_connection c d)
  unfolding show_connection parse_field
  connection-Prints c d is =
      line-Prints is_utf8 parse_ip b'c' _ d (set_connection c d) refl λ after s h.
        setting-Yields set_connection d (parse_connection_info is_utf8 parse_ip s) c (eol after) (
          parse_connection_info-Yields is_utf8 show_ip parse_ip ip ascii c after s
            (
              h.0,
              h.1
                  ∙ connection_body (net_name c.nettype) (addr_name c.addrtype)
                      (show_ip c.conection_address) after,
            )
            is)

  media_line-Prints :
      (xs : List MediaDescription) (m : MediaDescription) (d : SessionDescription)
      → IsMedia is_utf8 m
      → Leads
          (show_media_line m)
          (record d { media = xs })
          (record d { media = xs ++ with_lines m none [] ∷ [] })
  unfolding show_media_line parse_field
  media_line-Prints xs m d is =
      line-Prints is_utf8 parse_ip b'm' _ (record d { media = xs }) _ refl
        λ after s h.
          setting-Yields set_media_description (record d { media = xs }) (parse_media_description s)
            _ (eol after)
            (parse_media_description-Yields m.media_type m.proto m.port m.media_formats after s
              (
                h.0,
                h.1
                    ∙ media_body (media_name m.media_type) (decimal m.port)
                        (ports_text m.number_of_ports) (transport_name m.proto) m.media_formats
                        after (ap ports_text is.no_ports),
              )
              is.kind is.port is.some_format is.formats)

  -- The lines behind the first one.
  media_lines-Prints :
      (d : SessionDescription) (xs : List MediaDescription) (m : MediaDescription)
      → IsMedia is_utf8 m
      → let state : Option ConnectionInformation → List Attribute → SessionDescription =
          λ c attributes. record d { media = xs ++ with_lines m c attributes ∷ [] } in
        Leads
          (if_some (show_connection show_ip) m.connection_information)
          (state none [])
          (state m.connection_information [])
        × Leads
            (concat_map show_attribute m.attributes)
            (state m.connection_information [])
            (state m.connection_information m.attributes)
  media_lines-Prints d xs m is =
      let state : Option ConnectionInformation → List Attribute → SessionDescription =
        λ c attributes. record d { media = xs ++ with_lines m c attributes ∷ [] } in
      let c = m.connection_information in
      (
        optional-Prints is_utf8 parse_ip (show_connection show_ip) (λ c. state c []) c
            (λ c e.
              subst (Leads (show_connection show_ip c) (state none []))
                (set_connection-concat xs (with_lines m none []) c d)
                (connection-Prints c (state none [])
                  (subst (IfSome (IsConnection is_utf8)) e is.connection))),
        list-Prints is_utf8 parse_ip show_attribute (IsAttribute is_utf8) (state c)
            (λ before a fits.
              subst (Leads (show_attribute a) (state c before))
                (set_attr-concat xs (with_lines m c before) a d)
                (attribute-Prints is_utf8 parse_ip a (state c before) fits))
            m.attributes is.attributes,
      )

  -- All lines of a medium.
  pub media-Prints :
      (d : SessionDescription) (xs : List MediaDescription) (m : MediaDescription)
      → IsMedia is_utf8 m
      → Leads (show_media show_ip m) (record d { media = xs }) (record d { media = xs ++ m ∷ [] })
  unfolding show_media
  media-Prints d xs m is =
      let (connection, attributes) = media_lines-Prints d xs m is in
      let first = media_line-Prints xs m d is in
      let title =
        empty-Prints (if_some (text_line b't') m.title) _
          (ap (if_some (text_line b't')) is.no_title) in
      let bandwidth =
        empty-Prints (concat_map show_bandwidth m.bandwidth_information) _
          (ap (concat_map show_bandwidth) is.no_bandwidth) in
      let join = Prints-append is_utf8 parse_ip in
      subst
        (λ x.
          Leads (show_media show_ip m) (record d { media = xs })
            (record d { media = xs ++ x ∷ [] }))
        (with_all_lines is_utf8 m is)
        (join _ _ _ _ _
          (join _ _ _ _ _ (join _ _ _ _ _ (join _ _ _ _ _ first title) connection) bandwidth)
          attributes)
