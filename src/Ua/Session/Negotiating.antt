-- ===== src/Ua/Session/Negotiating.antt =====
-- rssip/src/ua/session: what both sides of a session do with session descriptions.
use rssip.Prelude.{Bool, Text, codes, Option, some}
use rssip.Media.Sdp.{IpAddr, SessionDescription}
use rssip.Media.Sdp.Printing.{show_sdp}
use rssip.Media.Sdp.Parser.{parse}
use rssip.Media.Negotiator.{Negotiator}
use rssip.Message.Headers.{Header, content_type}
use rssip.Ua.Dialog.{Dialog}
use rssip.Error.{Result, ok, panic}

-- What the standard library and the operating system give: the check of UTF-8, IP addresses as
-- texts, and the local address.
pub record Platform : Type 0 where
  pub is_utf8 : Text → Bool
  pub parse_ip : Text → Option IpAddr
  pub show_ip : IpAddr → Text
  pub local_ip : IpAddr

unfoldable pub parse_sdp : Platform → Text → Result SessionDescription
parse_sdp o body = parse o.is_utf8 o.parse_ip o.local_ip body

-- `Encode` of a description, which cannot fail.
abbrev pub encode_sdp : Platform → SessionDescription → Text
encode_sdp o d = show_sdp o.show_ip d

-- `ContentType::new_sdp`.
abbrev pub new_sdp : Header
new_sdp = content_type (codes "application/sdp")

-- `SessionNegotiationDoneEvent`.
pub record NegotiationDone : Type 0 where
  pub local_sdp : SessionDescription
  pub remote_sdp : SessionDescription
  pub answer : SessionDescription

-- The three calls of `expect`.
abbrev pub expected :
    Option SessionDescription
    → Option SessionDescription
    → Option SessionDescription
    → Result NegotiationDone
expected (some l) (some r) (some a) = ok (record { local_sdp = l; remote_sdp = r; answer = a })
expected _ _ _ = panic

unfoldable pub negotiation_done : Negotiator → Result NegotiationDone
negotiation_done n = expected n.local_offer n.remote_offer n.answer

-- The dialog goes to the task that serves it, with what the handler is told.
pub record Established : Type 0 where
  pub dialog : Dialog
  pub event : NegotiationDone
