-- ===== src/Parser/RoundTrip/Addresses.antt =====
-- rssip/src/message/uri.rs: an address that is printed reads back, `FromStr` after `Display`.
use mathlib.Core.List.{append_assoc, append-nil}
use rssip.Prelude.{
  ℕ, ◌≡◌, refl, ap, sym, ◌∙◌, Bool, true, false, not, ◌==◌, Text, codes, [], ◌∷◌, ◌++◌, Option,
  none, some, All-map, inl,
}
use rssip.Error.{Result, ok, ◌>>=◌}
use rssip.Scanner.{Scanner, done, must_read, new, peek, peek_while}
use rssip.Scanner.Prefixes.{Stops}
use rssip.Scanner.Reading.{
  At, Yields, new-At, peek-At, next_byte-At, must_read-At, scan_while-At, peek_while-At,
}
use rssip.Scanner.Strings.{is_space}
use rssip.Message.Headers.{Scheme, sip, sips, Uri, NameAddr, SipUri, plain, named}
use rssip.Parser.Bytes.{skip_ws, read_byte, scanned}
use rssip.Parser.Uris.{scheme_of, parse_uri}
use rssip.Parser.Addresses.{
  parse_display_name, parse_name_addr, parse_sip_uri, sip_uri_from_str, before_colon,
  opens_name_addr,
}
use rssip.Parser.Printing.{scheme_name, show_uri, quoted, show_name_addr, show_sip_uri}
use rssip.Parser.Printable.{IsUri, IsDisplay, IsSipUri}
use rssip.Parser.RoundTrip.Loops.{skip_ws-At}
use rssip.Parser.RoundTrip.Whole.{show_uri_lem, parse_uri-Yields}

quoted-Stops : (o : Option Text) (after : Text) → Stops is_space (quoted o ++ (60 ∷ after))
quoted-Stops none after = refl
quoted-Stops (some t) after = refl

module _ (parse_ip : Text → Option Text) (is_utf8 : Text → Bool) where
  no_quote : (c : ℕ) → (c == 34) ≡ false → not (c == 34) ≡ true
  no_quote c h = rw h refl

  -- The display name and the spaces behind it.
  display-Yields :
      (o : Option Text) (after : Text) (s : Scanner)
      → At s (quoted o ++ (60 ∷ after))
      → IsDisplay parse_ip is_utf8 o
      → (s' : Scanner) × (parse_display_name parse_ip is_utf8 s ≡ ok (o, s'))
        × At (skip_ws s') (60 ∷ after)
  unfolding parse_display_name
  display-Yields none after s h is =
      (s, rw (peek-At 60 after s h) refl, skip_ws-At (60 ∷ after) s h refl)
  display-Yields (some t) after s h (plain_text, utf8) =
      let whole : At s (34 ∷ (t ++ (34 ∷ 32 ∷ 60 ∷ after))) =
        (h.0, h.1 ∙ ap (λ (x : Text). 34 ∷ x) (append_assoc t (34 ∷ 32 ∷ []) (60 ∷ after))) in
      let (s1, e1, h1) = next_byte-At 34 (t ++ (34 ∷ 32 ∷ 60 ∷ after)) s whole in
      let (s2, e2, h2) =
        scan_while-At (λ b. not (b == 34)) t (34 ∷ 32 ∷ 60 ∷ after) s1 h1
          (All-map t no_quote plain_text) refl in
      let (s3, e3, h3) = next_byte-At 34 (32 ∷ 60 ∷ after) s2 h2 in
      let (s4, e4, h4) = scan_while-At is_space (32 ∷ []) (60 ∷ after) s3 h3 (refl, tt) refl in
      (s3, rw (peek-At 34 _ s whole, e1, e2, e3) (rw utf8 refl), rw (skip_ws, e4) h4)

  in_brackets :
      (n : NameAddr) (s s1 s2 s3 s4 : Scanner)
      → parse_display_name parse_ip is_utf8 (skip_ws s) ≡ ok (n.display, s1)
      → must_read 60 (skip_ws s1) ≡ (done tt, s2)
      → parse_uri parse_ip is_utf8 true s2 ≡ ok (n.uri, s3)
      → must_read 62 s3 ≡ (done tt, s4)
      → parse_name_addr parse_ip is_utf8 s ≡ ok (n, s4)
  unfolding parse_name_addr
  in_brackets n s s1 s2 s3 s4 e1 e2 e3 e4 =
      rw (e1, e2)
        (ap
            (λ (m : Result (Uri × Scanner)). m >>= λ (u, s).
              read_byte 62 s >>= λ (_, s). ok (record { display = n.display; uri = u }, s))
            e3
          ∙ ap (λ r. scanned r >>= λ (_, s). ok (n, s)) e4)

  name_addr-Yields :
      (n : NameAddr) (after : Text) (s : Scanner)
      → At s (show_name_addr n ++ after)
      → IsDisplay parse_ip is_utf8 n.display
      → IsUri parse_ip n.uri
      → Yields (parse_name_addr parse_ip is_utf8 s) n after
  unfolding show_name_addr
  name_addr-Yields n after s h display is =
      let behind = show_uri n.uri ++ (62 ∷ after) in
      let whole : At s (quoted n.display ++ (60 ∷ behind)) = (h.0, h.1 ∙ simp append_assoc) in
      let start =
        skip_ws-At (quoted n.display ++ (60 ∷ behind)) s whole (quoted-Stops n.display behind) in
      let (s1, e1, h1) = display-Yields n.display behind (skip_ws s) start display in
      let (s2, e2, h2) = must_read-At 60 behind (skip_ws s1) h1 in
      let (s3, e3, h3) = parse_uri-Yields parse_ip is_utf8 n.uri (62 ∷ after) s2 h2 is (inl refl) in
      let (s4, e4, h4) = must_read-At 62 after s3 h3 in
      (s4, in_brackets n s s1 s2 s3 s4 e1 e2 e3 e4, h4)

  scheme_found :
      (sc : Scheme) (after : Text) (s : Scanner)
      → At s (scheme_name sc ++ (58 ∷ after))
      → (peek s ≡ some 115)
        × (scheme_of (peek_while (before_colon parse_ip is_utf8) s) ≡ some sc)
        × At (skip_ws s) (scheme_name sc ++ (58 ∷ after))
  unfolding scheme_of scheme_name
  scheme_found sip after s h = (
    peek-At 115 (105 ∷ 112 ∷ 58 ∷ after) s h,
    rw
        (peek_while-At (before_colon parse_ip is_utf8) (codes "sip") (58 ∷ after) s h
          (refl, (refl, (refl, tt))) refl)
        refl,
    skip_ws-At _ s h refl,
  )
  scheme_found sips after s h = (
    peek-At 115 (105 ∷ 112 ∷ 115 ∷ 58 ∷ after) s h,
    rw
        (peek_while-At (before_colon parse_ip is_utf8) (codes "sips") (58 ∷ after) s h
          (refl, (refl, (refl, (refl, tt)))) refl)
        refl,
    skip_ws-At _ s h refl,
  )

  choose_plain :
      (u : Uri) (s s' : Scanner)
      → peek (skip_ws s) ≡ some 115
      → scheme_of (peek_while (before_colon parse_ip is_utf8) (skip_ws s)) ≡ some u.scheme
      → parse_uri parse_ip is_utf8 true (skip_ws s) ≡ ok (u, s')
      → parse_sip_uri parse_ip is_utf8 true s ≡ ok (plain u, s')
  unfolding parse_sip_uri
  choose_plain u s s' e1 e2 e3 =
      rw (e1, e2) (ap (λ (m : Result (Uri × Scanner)). m >>= λ (u, s). ok (plain u, s)) e3)

  choose_named :
      (n : NameAddr) (c : ℕ) (s s' : Scanner)
      → peek (skip_ws s) ≡ some c
      → opens_name_addr parse_ip is_utf8 (some c) ≡ true
      → parse_name_addr parse_ip is_utf8 (skip_ws s) ≡ ok (n, s')
      → parse_sip_uri parse_ip is_utf8 true s ≡ ok (named n, s')
  unfolding parse_sip_uri
  choose_named n c s s' e1 e2 e3 =
      rw e1 (rw e2 (ap (λ (m : Result (NameAddr × Scanner)). m >>= λ (n, s). ok (named n, s)) e3))

  opening :
      (o : Option Text) (inner after : Text)
      → (c : ℕ) × (t : Text) × (quoted o ++ (60 ∷ inner) ++ after ≡ c ∷ t)
        × (opens_name_addr parse_ip is_utf8 (some c) ≡ true)
        × (is_space c ≡ false)
  opening none inner after = (60, inner ++ after, refl, refl, refl)
  opening (some t) inner after =
      (34, t ++ (34 ∷ 32 ∷ []) ++ (60 ∷ inner) ++ after, refl, refl, refl)

  sip_uri-Yields :
      (a : SipUri) (s : Scanner)
      → At s (show_sip_uri a ++ [])
      → IsSipUri parse_ip is_utf8 a
      → Yields (parse_sip_uri parse_ip is_utf8 true s) a []
  unfolding show_sip_uri show_name_addr
  sip_uri-Yields (plain u) s h is =
      let opened : At s (scheme_name u.scheme ++ (58 ∷ _)) =
        (h.0, h.1 ∙ show_uri_lem u [] is.no_headers) in
      let (_, _, start) = scheme_found u.scheme _ s opened in
      let (e1, e2, _) = scheme_found u.scheme _ (skip_ws s) start in
      let whole : At (skip_ws s) (show_uri u ++ []) =
        (start.0, start.1 ∙ sym (show_uri_lem u [] is.no_headers)) in
      let (s1, e3, h1) = parse_uri-Yields parse_ip is_utf8 u [] (skip_ws s) whole is tt in
      (s1, choose_plain u s s1 e1 e2 e3, h1)
  sip_uri-Yields (named n) s h is =
      let (c, t, e, opens, no_space) = opening n.display (show_uri n.uri) (62 ∷ []) in
      let start = skip_ws-At (c ∷ t) s (h.0, h.1 ∙ append-nil (show_name_addr n) ∙ e) no_space in
      let whole : At (skip_ws s) (show_name_addr n ++ []) =
        (start.0, start.1 ∙ sym e ∙ sym (append-nil (show_name_addr n))) in
      let (s1, e1, h1) = name_addr-Yields n [] (skip_ws s) whole is.0 is.1 in
      (s1, choose_named n c s s1 (peek-At c t (skip_ws s) start) opens e1, h1)

-- An address that is printed, a URI or a name-addr, is parsed as itself, if its URI has a host that reads back,
-- parts that are made of their own bytes, a known method, parameters that are not named like a
-- field, and no headers, and its display name has no quote.
pub sip_uri_from_str-show_sip_uri :
    (parse_ip : Text → Option Text) (is_utf8 : Text → Bool) (a : SipUri)
    → IsSipUri parse_ip is_utf8 a
    → sip_uri_from_str parse_ip is_utf8 (show_sip_uri a) ≡ ok a
unfolding sip_uri_from_str
sip_uri_from_str-show_sip_uri parse_ip is_utf8 a is =
    let (v, e) = new-At (show_sip_uri a) in
    let (s, same, h) =
      sip_uri-Yields parse_ip is_utf8 a (new (show_sip_uri a))
        (v, e ∙ sym (append-nil (show_sip_uri a))) is in
    ap (λ (m : Result (SipUri × Scanner)). m >>= λ (a, s). ok a) same
