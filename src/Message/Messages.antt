-- ===== src/Message/Messages.antt =====
-- rssip/src/message/mod.rs, rssip/src/transport/incoming.rs and outgoing.rs: requests, responses,
-- and what goes with them when they arrive or leave. A transport is what is read of it.
use rssip.Prelude.{Bool, not, Text, List, [], ◌∷◌, Option, none, some}
use rssip.Message.Method.{SipMethod}
use rssip.Message.StatusCode.{StatusCode}
use rssip.Message.Addresses.{TransportProtocol, SocketAddr}
use rssip.Message.Headers.{
  Uri, CSeq, Via, FromHeader, To, Header, via, from_header, to, call_id, cseq,
}
use rssip.Error.{missing_header, Result, ok, err, ◌>>=◌}

pub record Request : Type 0 where
  pub method : SipMethod
  pub uri : Uri
  pub headers : List Header
  pub body : Option Text

pub record Response : Type 0 where
  pub code : StatusCode
  pub reason : Option Text
  pub headers : List Header
  pub body : Option Text

-- What `dyn SipTransport` answers to `is_reliable`, `is_secure` and `protocol`.
pub record Transport : Type 0 where
  pub is_reliable : Bool
  pub is_secure : Bool
  pub protocol : TransportProtocol

unfoldable pub is_unreliable : Transport → Bool
is_unreliable t = not t.is_reliable

pub record MandatoryHeaders : Type 0 where
  pub via : Via
  pub from : FromHeader
  pub to : To
  pub call_id : Text
  pub cseq : CSeq

pub record IncomingInfo : Type 0 where
  pub mandatory_headers : MandatoryHeaders
  pub transport : Transport
  pub source : SocketAddr

pub record IncomingRequest : Type 0 where
  pub request : Request
  pub incoming_info : IncomingInfo

pub record IncomingResponse : Type 0 where
  pub response : Response
  pub incoming_info : IncomingInfo

pub data IncomingMessage : Type 0 where
  incoming_request : IncomingRequest → IncomingMessage
  incoming_response : IncomingResponse → IncomingMessage

pub record OutgoingRequest : Type 0 where
  pub request : Request
  pub target : Transport
  pub encoded : Text

pub record OutgoingResponse : Type 0 where
  pub response : Response
  pub target : Option Transport
  pub encoded : Text

unfoldable pub into_headers : MandatoryHeaders → List Header
into_headers m = via m.via ∷ from_header m.from ∷ to m.to ∷ call_id m.call_id ∷ cseq m.cseq ∷ []

-- The five options that the loop over the headers fills.
pub record Found : Type 0 where
  pub via : Option Via
  pub from : Option FromHeader
  pub to : Option To
  pub call_id : Option Text
  pub cseq : Option CSeq

-- The guard `via.is_none()`: the first Via stays.
abbrev first_via : Option Via → Via → Option Via
first_via none v = some v
first_via (some u) v = some u

unfoldable pub find_header : Found → Header → Found
find_header f (via v) = record f { via = first_via f.via v }
find_header f (from_header h) = record f { from = some h }
find_header f (to h) = record f { to = some h }
find_header f (call_id c) = record f { call_id = some c }
find_header f (cseq c) = record f { cseq = some c }
find_header f _ = f

unfoldable pub find_headers : Found → List Header → Found
unfolding find_header
find_headers f [] = f
find_headers f (h ∷ hs) = find_headers (find_header f h) hs

abbrev pub required {ℓ} : {A : Type ℓ} → Option A → Result A
required none = err missing_header
required (some a) = ok a

abbrev pub nothing_found : Found
nothing_found = record { via = none; from = none; to = none; call_id = none; cseq = none }

-- `TryFrom<&Headers>`.
unfoldable pub from_headers : List Header → Result MandatoryHeaders
unfolding find_headers
from_headers headers = do
  let f = find_headers nothing_found headers
  v ← required f.via
  fr ← required f.from
  t ← required f.to
  ci ← required f.call_id
  cs ← required f.cseq
  ok (record { via = v; from = fr; to = t; call_id = ci; cseq = cs })
