-- ===== src/Media/Sdp/RoundTrip/Heads.antt =====
-- rssip-media/src/sdp/parser.rs: the lines of an origin, a connection and a medium.
use mathlib.Core.Path.{subst}
use rssip.Prelude.{
  ℕ, ◌-◌, ◌^◌, ◌≡◌, ◌≢◌, refl, ◌∙◌, inl, inr, Bool, true, false, not, ◌==◌, any, starts_with,
  text_eq, text_eq_iff, Text, codes, [], ◌∷◌, ◌++◌, Option, some, All-map, decimal, Bool-cases,
  arith,
}
use rssip.Scanner.{Scanner, advance_n, peek_n}
use rssip.Scanner.Reading.{
  Yields, At, scan_while_as_str-At, matches_prefix-At, peek_n-At, advance_n-At,
}
use rssip.Scanner.Strings.{is_space, is_newline, is_whitespace}
use rssip.Media.Sdp.{
  AddrType, ip4, ip6, NetType, in_net, other_net, IpAddr, ConnectionInformation, Origin,
}
use rssip.Media.Sdp.Printing.{addr_name, net_name}
use rssip.Media.Sdp.Printable.{ReadsBack, IsWord, IsNetType, IsOrigin}
use rssip.Media.Sdp.Keywords.{addr_type_of, net_type_of}
use rssip.Media.Sdp.Parsing.{handle_ws, parse_net, parse_origin, parse_connection_info}
use rssip.Media.Sdp.RoundTrip.Words.{
  first-Stops, blank_space, handle_ws-At, handle_ws-stays, spaced_number-At, spaced_word-At,
}
use rssip.Media.Sdp.RoundTrip.Fields.{eol, read_line-Yields}

net_type_of-net_name :
    (is_utf8 : Text → Bool) (n : NetType) → IsNetType is_utf8 n → net_type_of (net_name n) ≡ n
unfolding net_type_of net_name
net_type_of-net_name is_utf8 in_net is = refl
net_type_of-net_name is_utf8 (other_net t) (word, ne, other) =
    elim (Bool-cases (text_eq t (codes "IN"))) [
      | inl same ↦
          let never =
            subst (λ x. starts_with x (codes "IN") ≡ false) ((text_eq_iff t (codes "IN")).0 same)
              other in
          cc
      | inr differs ↦ rw differs refl
    ]

net_name-IsWord :
    (is_utf8 : Text → Bool) (n : NetType)
    → IsNetType is_utf8 n
    → IsWord is_utf8 (net_name n) × (net_name n ≢ [])
unfolding net_name
net_name-IsWord is_utf8 in_net is = (((refl, (refl, tt)), is), λ e. (cc))
net_name-IsWord is_utf8 (other_net t) (word, ne, other) = (word, ne)

addr_type_of-addr_name : (a : AddrType) → addr_type_of (addr_name a) ≡ some a
unfolding addr_type_of addr_name
addr_type_of-addr_name ip4 = refl
addr_type_of-addr_name ip6 = refl

abbrev Ascii : (Text → Bool) → Type 0
Ascii is_utf8 = (is_utf8 (codes "IP4") ≡ true) × (is_utf8 (codes "IP6") ≡ true)

addr_name-IsWord :
    (is_utf8 : Text → Bool) (a : AddrType)
    → Ascii is_utf8
    → IsWord is_utf8 (addr_name a) × (addr_name a ≢ [])
unfolding addr_name
addr_name-IsWord is_utf8 ip4 (four, six) = (((refl, (refl, (refl, tt))), four), λ e. (cc))
addr_name-IsWord is_utf8 ip6 (four, six) = (((refl, (refl, (refl, tt))), six), λ e. (cc))

no_blank_no_space : (c : ℕ) → is_whitespace c ≡ false → not (c == 32) ≡ true
no_blank_no_space c h = ground (arith, h)

no_blank_inside : (c : ℕ) → is_whitespace c ≡ false → not (is_space c) ≡ true
no_blank_inside c h = ground (arith, h)

no_blank : (c : ℕ) → is_whitespace c ≡ false → not (is_whitespace c) ≡ true
no_blank c h = rw h refl

abbrev blanks : Text
blanks = 32 ∷ 9 ∷ 13 ∷ 10 ∷ []

no_blank_no_end : (c : ℕ) → is_whitespace c ≡ false → not (any (λ b. b == c) blanks) ≡ true
no_blank_no_end c h = ground (arith, h)

no_blank_no_newline : (c : ℕ) → is_whitespace c ≡ false → is_newline c ≡ false
no_blank_no_newline c h = ground (arith, h)

-- No longer text starts with `IN` than the word in front of its space.
starts_with-word :
    (t after : Text)
    → starts_with t (codes "IN") ≡ false
    → starts_with (t ++ (32 ∷ after)) (codes "IN") ≡ false
starts_with-word [] after h = refl
starts_with-word (a ∷ []) after h = ground arith
starts_with-word (a ∷ b ∷ t) after h = h

peek_addr :
    (a : AddrType) (after : Text) (s : Scanner)
    → At s (addr_name a ++ after)
    → (peek_n 3 s ≡ some (addr_name a)) × At (advance_n 3 s) after
unfolding addr_name
peek_addr ip4 after s h = (peek_n-At (codes "IP4") after s h, advance_n-At (codes "IP4") after s h)
peek_addr ip6 after s h = (peek_n-At (codes "IP6") after s h, advance_n-At (codes "IP6") after s h)

parse_net-Yields :
    (is_utf8 : Text → Bool) (n : NetType) (after : Text) (s : Scanner)
    → At s (net_name n ++ (32 ∷ after))
    → IsNetType is_utf8 n
    → Yields (parse_net is_utf8 s) n (32 ∷ after)
unfolding net_name
parse_net-Yields is_utf8 in_net after s h is = (
  advance_n 2 s,
  rw (matches_prefix-At (codes "IN" ++ (32 ∷ after)) (codes "IN") s h) refl,
  advance_n-At (codes "IN") (32 ∷ after) s h,
)
parse_net-Yields is_utf8 (other_net t) after s h (word, ne, other) =
    let (s1, e1, h1) =
      scan_while_as_str-At is_utf8 (λ b. not (is_space b)) t (32 ∷ after) s h
        (All-map t no_blank_inside word.0) refl word.1 in
    let long =
      matches_prefix-At (t ++ (32 ∷ after)) (codes "IN") s h ∙ starts_with-word t after other in
    (s1, rw (long, e1) refl, h1)

module _ (is_utf8 : Text → Bool) (show_ip : IpAddr → Text) (parse_ip : Text → Option IpAddr)
    (ip : ReadsBack is_utf8 show_ip parse_ip) (ascii : Ascii is_utf8) where
  abbrev net_words : NetType → AddrType → IpAddr → Text → Text
  net_words n a i after = net_name n ++ (32 ∷ (addr_name a ++ (32 ∷ (show_ip i ++ after))))

  pub parse_origin-Yields :
      (o : Origin) (after : Text) (s : Scanner)
      → At s (
          o.user
          ++ (32
              ∷ (decimal o.session_id
                  ++ (32
                      ∷ (decimal o.session_version
                          ++ (32
                              ∷ net_words o.nettype o.addrtype o.unicast_address (eol after)))))))
      → IsOrigin is_utf8 o
      → Yields (parse_origin is_utf8 parse_ip s) o (eol after)
  unfolding parse_origin
  parse_origin-Yields o after s h is =
      let (net, net_some) = net_name-IsWord is_utf8 o.nettype is.nettype in
      let (addr, addr_some) = addr_name-IsWord is_utf8 o.addrtype ascii in
      let address = o.unicast_address in
      let (s1, e1, h1) =
        scan_while_as_str-At is_utf8 (λ b. not (is_whitespace b)) o.user _ s h
          (All-map o.user no_blank is.user.0) refl is.user.1 in
      let (s2, e2, h2) = spaced_number-At (2 ^ 64 - 1) o.session_id _ s1 h1 refl is.session_id in
      let (s3, e3, h3) =
        spaced_number-At (2 ^ 64 - 1) o.session_version _ s2 h2 refl is.session_version in
      let (s4, e4, h4) =
        spaced_word-At is_utf8 (λ b. not (b == 32)) (net_name o.nettype) _ s3 h3 net_some net.0
          no_blank_no_space refl net.1 in
      let (s5, e5, h5) =
        spaced_word-At is_utf8 (λ b. not (b == 32)) (addr_name o.addrtype) _ s4 h4 addr_some addr.0
          no_blank_no_space refl addr.1 in
      let (s6, e6, h6) =
        spaced_word-At is_utf8 (λ b. not (any (λ c. c == b) blanks)) (show_ip address) (eol after)
          s5 h5 (ip.not_nil address) (ip.no_blank address) no_blank_no_end refl (ip.utf8 address) in
      (
        handle_ws s6,
        rw
            (
              e1,
              e2,
              e3,
              e4,
              e5,
              addr_type_of-addr_name o.addrtype,
              e6,
              ip.again address,
              net_type_of-net_name is_utf8 o.nettype is.nettype,
            )
            refl,
        handle_ws-stays (eol after) s6 h6 refl,
      )

  pub parse_connection_info-Yields :
      (c : ConnectionInformation) (after : Text) (s : Scanner)
      → At s (net_words c.nettype c.addrtype c.conection_address (eol after))
      → IsNetType is_utf8 c.nettype
      → Yields (parse_connection_info is_utf8 parse_ip s) c (eol after)
  unfolding parse_connection_info
  parse_connection_info-Yields c after s h is =
      let address = c.conection_address in
      let (addr, addr_some) = addr_name-IsWord is_utf8 c.addrtype ascii in
      let (s1, e1, h1) = parse_net-Yields is_utf8 c.nettype _ s h is in
      let at_addr =
        handle_ws-At (addr_name c.addrtype ++ (32 ∷ (show_ip address ++ eol after))) s1 h1 (
          first-Stops is_space (addr_name c.addrtype) _ addr_some
            (All-map (addr_name c.addrtype) blank_space addr.0)) in
      let (e2, h2) = peek_addr c.addrtype _ (handle_ws s1) at_addr in
      let at_ip = handle_ws-At (show_ip address ++ eol after) (advance_n 3 (handle_ws s1)) h2 (
        first-Stops is_space (show_ip address) (eol after) (ip.not_nil address)
          (All-map (show_ip address) blank_space (ip.no_blank address))) in
      let (s3, e3, h3) =
        read_line-Yields is_utf8 (show_ip address) after _ at_ip
          (All-map (show_ip address) no_blank_no_newline (ip.no_blank address), ip.utf8 address) in
      (
        handle_ws s3,
        rw (e1, e2, addr_type_of-addr_name c.addrtype, e3, ip.again address) refl,
        handle_ws-stays (eol after) s3 h3 refl,
      )
