-- ===== src/Parser/RoundTrip/Hosts.antt =====
-- rssip/src/parser.rs: the scheme, the user and the host of a printed URI are read back.
use mathlib.Core.List.{append_assoc}
use rssip.Prelude.{
  ℕ, ◌-◌, ◌^◌, ◌≤◌, ◌≡◌, ◌≢◌, refl, ap, sym, ◌∙◌, Bool, true, false, not, ◌&&◌, ◌==◌, Text, codes,
  [], ◌∷◌, ◌++◌, Option, none, some, All-map, any, every→All, decimal, arith,
}
use rssip.Error.{ok}
use rssip.Scanner.{Scanner, peek, remaining, take_while, scan_while}
use rssip.Scanner.Positions.{remaining-rest}
use rssip.Scanner.Prefixes.{Stops}
use rssip.Scanner.Reading.{
  At, Yields, peek-At, scan_while-At, scan_number-At, must_read-At, scan_if-At, scan_if-Stops,
  advance_n-At, peek_while-At,
}
use rssip.Scanner.Strings.{read_behind}
use rssip.Message.Addresses.{Host, host_name, ip_addr, HostPort}
use rssip.Message.Headers.{Scheme, sip, sips, UserInfo}
use rssip.Parser.Bytes.{is_token, is_user, is_pass, is_host}
use rssip.Parser.Uris.{
  scheme_of, parse_scheme, in_uri, exists_user_part_in_uri, parse_user_info, parse_port,
  is_valid_port, host_from_str, read_host, parse_host_port,
}
use rssip.Parser.Printing.{scheme_name, show_user, show_host, behind_colon, shown_port}
use rssip.Parser.Printable.{Bytes, IfSome, IsHost, IsUserInfo}
use rssip.Parser.RoundTrip.Sets.{host_again}
use rssip.Parser.RoundTrip.Params.{All-append}
use rssip.Parser.RoundTrip.Loops.{Next, Next-Stops}

scheme_again :
    (sc : Scheme)
    → (scheme_of (scheme_name sc) ≡ some sc) × Bytes (λ c. is_token c) (scheme_name sc)
unfolding scheme_of scheme_name is_token
scheme_again sip = (refl, every→All (λ c. is_token c) (codes "sip") refl)
scheme_again sips = (refl, every→All (λ c. is_token c) (codes "sips") refl)

pub parse_scheme-Yields :
    (sc : Scheme) (after : Text) (s : Scanner)
    → At s (scheme_name sc ++ (58 ∷ after))
    → Yields (parse_scheme s) sc after
unfolding parse_scheme
parse_scheme-Yields sc after s h =
    let (again, bytes) = scheme_again sc in
    let token =
      peek_while-At (λ c. is_token c) (scheme_name sc) (58 ∷ after) s h bytes
        (unfold is_token in refl) in
    let (s1, e1, h1) = must_read-At 58 after _ (advance_n-At (scheme_name sc) (58 ∷ after) s h) in
    (s1, rw (token, again, e1) refl, h1)

user_found :
    (xs after : Text)
    → Bytes in_uri xs
    → any (λ b. b == 64) (take_while in_uri (xs ++ (64 ∷ after))) ≡ true
unfolding take_while
user_found [] after bytes = refl
user_found (c ∷ xs) after bytes = rw bytes.0 (ground (arith, user_found xs after bytes.1))

-- A byte of a URI that is not the mark of its user.
abbrev pub is_plain : ℕ → Bool
is_plain b = in_uri b && not (b == 64)

no_user_found :
    (xs after : Text)
    → Bytes is_plain xs
    → Stops in_uri after
    → any (λ b. b == 64) (take_while in_uri (xs ++ after)) ≡ false
unfolding take_while
no_user_found [] [] bytes stops = refl
no_user_found [] (c ∷ after) bytes stops = rw stops refl
no_user_found (c ∷ xs) after bytes stops =
    let inside : in_uri c ≡ true = ground (arith, bytes.0) in
    let other : (c == 64) ≡ false = ground (arith, bytes.0) in
    rw inside (rw other (no_user_found xs after bytes.1 stops))

user_in_uri : (c : ℕ) → is_user c ≡ true → in_uri c ≡ true
unfolding is_user
user_in_uri c h = ground (arith, h)

pass_in_uri : (c : ℕ) → is_pass c ≡ true → in_uri c ≡ true
unfolding is_pass
pass_in_uri c h = ground (arith, h)

pass-Bytes : (o : Option Text) → IfSome (Bytes (λ c. is_pass c)) o → Bytes in_uri (behind_colon o)
pass-Bytes none is = tt
pass-Bytes (some t) is = (refl, All-map t pass_in_uri is)

pass-Yields :
    (o : Option Text) (after : Text) (s : Scanner)
    → At s (behind_colon o ++ (64 ∷ after))
    → IfSome (Bytes (λ c. is_pass c)) o
    → Yields (read_behind b':' (λ s. ok (scan_while (λ b. is_pass b) s)) s) o (64 ∷ after)
unfolding read_behind is_pass
pass-Yields none after s h is =
    (s, rw (scan_if-Stops (λ b. b == b':') (64 ∷ after) s h refl) refl, h)
pass-Yields (some t) after s h is =
    let (s1, e1, h1) = scan_if-At (λ b. b == b':') 58 (t ++ (64 ∷ after)) s h refl in
    let (s2, e2, h2) = scan_while-At (λ b. is_pass b) t (64 ∷ after) s1 h1 is refl in
    (s2, rw (e1, e2) refl, h2)

pass-Stops :
    (o : Option Text) (after : Text) → Stops (λ b. is_user b) (behind_colon o ++ (64 ∷ after))
unfolding is_user
pass-Stops none after = refl
pass-Stops (some t) after = refl

parse_user_info-some :
    (u : UserInfo) (after : Text) (s : Scanner)
    → At s (u.user ++ (behind_colon u.pass ++ (64 ∷ after)))
    → IsUserInfo u
    → Yields (parse_user_info s) (some u) after
unfolding parse_user_info exists_user_part_in_uri
parse_user_info-some u after s h is =
    let marked = u.user ++ behind_colon u.pass in
    let whole : remaining s ≡ marked ++ (64 ∷ after) =
      remaining-rest s h.0 ∙ h.1 ∙ sym (append_assoc u.user (behind_colon u.pass) (64 ∷ after)) in
    let found : exists_user_part_in_uri s ≡ true =
      ap (λ t. any (λ b. b == 64) (take_while in_uri t)) whole
      ∙ user_found marked after (
          All-append _ u.user (behind_colon u.pass) (All-map u.user user_in_uri is.user)
            (pass-Bytes u.pass is.pass)) in
    let (s1, e1, h1) =
      scan_while-At (λ b. is_user b) u.user (behind_colon u.pass ++ (64 ∷ after)) s h is.user
        (pass-Stops u.pass after) in
    let (s2, e2, h2) = pass-Yields u.pass after s1 h1 is.pass in
    let (s3, e3, h3) = must_read-At 64 after s2 h2 in (s3, rw (found, e1, e2, e3) refl, h3)

parse_user_info-none :
    (xs after : Text) (s : Scanner)
    → At s (xs ++ after)
    → Bytes is_plain xs
    → Stops in_uri after
    → Yields (parse_user_info s) none (xs ++ after)
unfolding parse_user_info exists_user_part_in_uri
parse_user_info-none xs after s h plain stops =
    let missing : exists_user_part_in_uri s ≡ false =
      ap (λ t. any (λ b. b == 64) (take_while in_uri t)) (remaining-rest s h.0 ∙ h.1)
      ∙ no_user_found xs after plain stops in
    (s, rw missing refl, h)

-- The user, if there is one, in front of bytes without the mark.
pub parse_user_info-Yields :
    (o : Option UserInfo) (xs after : Text) (s : Scanner)
    → At s (show_user o ++ (xs ++ after))
    → IfSome IsUserInfo o
    → Bytes is_plain xs
    → Stops in_uri after
    → Yields (parse_user_info s) o (xs ++ after)
unfolding show_user
parse_user_info-Yields none xs after s h is plain stops =
    parse_user_info-none xs after s h plain stops
parse_user_info-Yields (some u) xs after s h is plain stops =
    parse_user_info-some u (xs ++ after) s (h.0, h.1 ∙ simp append_assoc) is

port-Yields :
    (o : Option ℕ) (after : Text) (s : Scanner)
    → At s (shown_port o ++ after)
    → IfSome (λ n. n ≤ 65535) o
    → Next after
    → Yields (parse_port s) o after
unfolding parse_port read_behind
port-Yields none after s h fits next = (
  s,
  rw (scan_if-Stops (λ b. b == b':') after s h (Next-Stops _ after refl refl refl next)) refl,
  h,
)
port-Yields (some n) after s h fits next =
    let (s1, e1, h1) = scan_if-At (λ b. b == b':') 58 (decimal n ++ after) s h refl in
    let (s2, e2, h2) =
      scan_number-At (2 ^ 16 - 1) n after s1 h1 (Next-Stops _ after refl refl refl next) fits in
    let valid : is_valid_port n ≡ true = ground (arith, fits) in
    (s2, rw (e1, e2) (rw valid refl), h2)

port_Stops :
    (o : Option ℕ) (after : Text) → Next after → Stops (λ b. is_host b) (shown_port o ++ after)
unfolding is_host
port_Stops none after next = Next-Stops _ after refl refl refl next
port_Stops (some n) after next = refl

module _ (parse_ip : Text → Option Text) (is_utf8 : Text → Bool) where
  host_text_ne_nil : (host : Host) → IsHost parse_ip host → show_host host ≢ []
  unfolding show_host
  host_text_ne_nil (host_name t) is = is.1
  host_text_ne_nil (ip_addr t) is = is.1

  pub host-Bytes : (host : Host) → IsHost parse_ip host → Bytes (λ c. is_host c) (show_host host)
  unfolding show_host
  host-Bytes (host_name t) is = is.0
  host-Bytes (ip_addr t) is = is.0

  read_host-Yields :
      (host : Host) (t after : Text) (s : Scanner)
      → host_from_str parse_ip t ≡ host
      → At s (t ++ after)
      → t ≢ []
      → Bytes (λ c. is_host c) t
      → Stops (λ c. is_host c) after
      → Yields (read_host parse_ip is_utf8 (peek s) s) host after
  read_host-Yields host [] after s e h ne bytes stops = absurd (ne refl)
  read_host-Yields host (c ∷ t) after s e h ne bytes stops =
      let (s1, e1, h1) = scan_while-At (λ b. is_host b) (c ∷ t) after s h bytes stops in
      let other : (c == 91) ≡ false = unfold is_host in ground (arith, bytes.0) in
      (s1, rw (peek-At c (t ++ after) s h, other, e1) (ap (λ host. ok (host, s1)) e), h1)

  pub parse_host_port-Yields :
      (hp : HostPort) (after : Text) (s : Scanner)
      → At s (show_host hp.host ++ (shown_port hp.port ++ after))
      → IsHost parse_ip hp.host
      → IfSome (λ n. n ≤ 65535) hp.port
      → Next after
      → Yields (parse_host_port parse_ip is_utf8 s) hp after
  unfolding parse_host_port
  parse_host_port-Yields hp after s h is fits next =
      let (s1, e1, h1) =
        read_host-Yields hp.host (show_host hp.host) (shown_port hp.port ++ after) s
          (host_again parse_ip hp.host is) h (host_text_ne_nil hp.host is) (host-Bytes hp.host is)
          (port_Stops hp.port after next) in
      let (s2, e2, h2) = port-Yields hp.port after s1 h1 fits next in (s2, rw (e1, e2) refl, h2)
