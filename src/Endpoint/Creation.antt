-- ===== src/Endpoint/Creation.antt =====
-- rssip/src/endpoint/mod.rs: the response that is made for a request, where it goes, the routing
-- of a request, and the way of a message through the plugins.
pub mod Answers
pub mod Routes
pub mod Plugins
use rssip.Prelude.{
  ℕ, zero, suc, Bool, true, false, not, ◌&&◌, ltb, Text, codes, List, [], ◌∷◌, ◌++◌, Option, none,
  some, keep, drop, if◌then◌else◌,
}
use rssip.Message.Addresses.{
  TransportProtocol, protocol_is_reliable, default_port, Host, host_name, ip_addr, HostPort,
  SocketAddr,
}
use rssip.Message.StatusCode.{StatusCode, as_u16}
use rssip.Message.StatusCode.Reasons.{reason}
use rssip.Message.Headers.{
  Uri, Via, To, Header, via, from_header, to, call_id, cseq, route, record_route, Route,
}
use rssip.Message.Messages.{
  Request, Response, Transport, MandatoryHeaders, IncomingRequest, OutgoingRequest,
  OutgoingResponse,
}
use rssip.Error.{transport, Result, ok, err, ◌>>=◌}

abbrev pub is_via : Header → Bool
is_via (via v) = true
is_via _ = false

abbrev pub is_record_route : Header → Bool
is_record_route (record_route r) = true
is_record_route _ = false

-- `if to.tag().is_none() && code.as_u16() > 100`.
abbrev pub to_tag : Option Text → Bool → Option Text → Option Text
to_tag (some tag) late branch = some tag
to_tag none true branch = branch
to_tag none false branch = none

abbrev pub response_to : MandatoryHeaders → StatusCode → To
response_to m code = record m.to { tag = to_tag m.to.tag (ltb 100 (as_u16 code)) m.via.branch }

-- The phrase that is given, or the code's own.
abbrev phrase : Option Text → StatusCode → Text
unfolding reason
phrase none code = reason code
phrase (some text) code = text

-- `Endpoint::create_response`.
unfoldable pub create_response : IncomingRequest → StatusCode → Option Text → Response
unfolding phrase
create_response r code given =
    let m = r.incoming_info.mandatory_headers in
    let all = r.request.headers in
    record {
      code = code;
      reason = some (phrase given code);
      headers =
          (via m.via ∷ drop 1 (keep is_via all))
          ++ keep is_record_route all
          ++ (call_id m.call_id ∷ from_header m.from ∷ to (response_to m code) ∷ cseq m.cseq ∷ []);
      body = none;
    }

pub record TargetTransportInfo : Type 0 where
  pub socket_addr : SocketAddr
  pub transport : Transport

pub record OutgoingDestInfo : Type 0 where
  pub host_port : HostPort
  pub protocol : TransportProtocol
  pub transport : Option TargetTransportInfo

abbrev unwrap_or : Option ℕ → ℕ → ℕ
unwrap_or none n = n
unwrap_or (some p) n = p

abbrev received_host : Option Text → HostPort → ℕ → HostPort
received_host none sent_by port = sent_by
received_host (some ip) sent_by port = record {
  host = ip_addr ip;
  port = some (unwrap_or sent_by.port port);
}

-- Over an unreliable transport: `maddr`, then `received`, then what the Via says.
abbrev unreliable_destination : Option Host → Option Text → Via → Transport → OutgoingDestInfo
unreliable_destination (some maddr) received v source = record {
  host_port = record { host = maddr; port = some (unwrap_or v.sent_by.port 5060) };
  protocol = v.transport;
  transport = none;
}
unreliable_destination none (some ip) v source =
    let port = unwrap_or v.sent_by.port 5060 in
    record {
      host_port = record { host = ip_addr ip; port = some port };
      protocol = source.protocol;
      transport =
          some (record { socket_addr = record { ip = ip; port = port }; transport = source });
    }
unreliable_destination none none v source = record {
  host_port = v.sent_by;
  protocol = v.transport;
  transport = none;
}

-- `get_response_destination`.
unfoldable pub get_response_destination : IncomingRequest → OutgoingDestInfo
unfolding protocol_is_reliable default_port
get_response_destination r =
    let v = r.incoming_info.mandatory_headers.via in
    let source = r.incoming_info.transport in
    if protocol_is_reliable v.transport
    then record {
      host_port = received_host v.received v.sent_by (default_port source.protocol);
      protocol = source.protocol;
      transport = some (record { socket_addr = r.incoming_info.source; transport = source });
    }
    else unreliable_destination v.maddr v.received v source

abbrev transport_of : Option TargetTransportInfo → Option Transport
transport_of none = none
transport_of (some info) = some info.transport

-- `create_outgoing_response`: of the destination the model's response keeps the transport.
unfoldable pub create_outgoing_response :
    IncomingRequest → StatusCode → Option Text → OutgoingResponse
unfolding create_response get_response_destination
create_outgoing_response r code given = record {
  response = create_response r code given;
  target = transport_of (get_response_destination r).transport;
  encoded = [];
}

-- A Route whose URI has no `lr`.
abbrev pub is_strict : Header → Bool
is_strict (route r) = not r.uri.lr_param
is_strict _ = false

abbrev pub is_route : Header → Bool
is_route (route r) = true
is_route _ = false

-- `position` of the first strict Route and `remove`: the URI of the Route, and the headers that
-- are left.
abbrev found_first : Header → Option (Uri × List Header) → Option (Uri × List Header)
found_first h none = none
found_first h (some (u, hs)) = some (u, h ∷ hs)

abbrev strict_of : Header → List Header → Option (Uri × List Header) → Option (Uri × List Header)
strict_of (route r) hs rest =
    if r.uri.lr_param then found_first (route r) rest else some (r.uri, hs)
strict_of h hs rest = found_first h rest

unfoldable pub take_strict : List Header → Option (Uri × List Header)
take_strict [] = none
take_strict (h ∷ hs) = let rest = take_strict hs in strict_of h hs rest

-- `rposition` of the last Route and `insert` in front of it.
abbrev before_last : Header → Header → List Header → Option (List Header) → Option (List Header)
before_last new h hs (some inserted) = some (h ∷ inserted)
before_last new (route r) hs none = some (new ∷ route r ∷ hs)
before_last new h hs none = none

unfoldable pub insert_at_last : Header → List Header → Option (List Header)
insert_at_last new [] = none
insert_at_last new (h ∷ hs) = let rest = insert_at_last new hs in before_last new h hs rest

abbrev pub inserted_or_pushed : Header → List Header → Option (List Header) → List Header
inserted_or_pushed new hs none = hs ++ new ∷ []
inserted_or_pushed new hs (some inserted) = inserted

abbrev routed : Request → Option (Uri × List Header) → Uri × Request
unfolding insert_at_last
routed r none = (r.uri, r)
routed r (some (u, hs)) =
    let new = route (record { uri = r.uri; params = [] }) in
    (u, record r { headers = inserted_or_pushed new hs (insert_at_last new hs) })

-- `process_route_set`: the URI that the request is sent to, and the request.
unfoldable pub process_route_set : Request → Uri × Request
unfolding routed take_strict
process_route_set r = routed r (take_strict r.headers)

-- The first address that a transport is selected for.
abbrev first_selected : (ℕ → Option Transport) → List ℕ → Option Transport
first_selected select [] = none
first_selected select (a ∷ more) =
    let rest = first_selected select more in elim (select a) [ none ↦ rest | some t ↦ some t ]

abbrev outgoing : Request → Option Transport → Result OutgoingRequest
outgoing r none = err transport
outgoing r (some t) = ok (record { request = r; target = t; encoded = [] })

abbrev resolved :
    (Uri → Result (List ℕ)) → (ℕ → Option Transport) → Uri → Request → Result OutgoingRequest
resolved resolve select u r = do addrs ← resolve u; outgoing r (first_selected select addrs)

-- `create_outgoing_request`, with the resolver and the selection of a transport.
unfoldable pub create_outgoing_request :
    (Uri → Result (List ℕ))
    → (ℕ → Option Transport)
    → Request
    → Option Transport
    → Result OutgoingRequest
unfolding process_route_set
create_outgoing_request resolve select r (some t) = outgoing r (some t)
create_outgoing_request resolve select r none =
    let (u, q) = process_route_set r in resolved resolve select u q

-- The loop over the plugins of `on_request` and `on_response`: each one may take the message.
-- `none` where a plugin took it, and what it did.
unfoldable pub offer_to {ℓ κ} :
    {M : Type ℓ} {S : Type κ} → List (M → S → Option M × S) → M → S → Option M × S
offer_to [] m s = (some m, s)
offer_to (plugin ∷ more) m s =
    let (left, after) = plugin m s in
    elim left [ none ↦ (none, after) | some same ↦ offer_to more same after ]
