-- ===== src/Tests/Fixtures.antt =====
-- The messages and transactions that the tests share.
use rssip.Prelude.{◌*◌, true, false, refl, Text, codes, [], Option, none, some}
use rssip.Message.Method.{SipMethod, invite}
use rssip.Message.StatusCode.{StatusCode}
use rssip.Message.Addresses.{TransportProtocol, host_name}
use rssip.Message.Headers.{Uri, sip}
use rssip.Message.Messages.{
  Request, Response, Transport, MandatoryHeaders, IncomingInfo, IncomingRequest, IncomingResponse,
  OutgoingRequest, OutgoingResponse,
}
use rssip.Transaction.Fsm.{State}
use rssip.Transaction.Key.{TransactionKey, Role, rfc3261}
use rssip.Transaction.Client.Wait.{ClientTransaction}
use rssip.Transaction.Server.Respond.{ServerTransaction}
use rssip.Endpoint.Sending.Encoded.{Total}
use rssip.Endpoint.Sending.Responses.{Delivers}
use rssip.Error.{Result, ok}

abbrev pub udp : Transport
udp = record { is_reliable = false; is_secure = false; protocol = TransportProtocol.udp }

abbrev pub tcp : Transport
tcp = record { is_reliable = true; is_secure = false; protocol = TransportProtocol.tcp }

abbrev pub bob : Uri
bob = record {
  scheme = sip;
  user = some (record { user = codes "bob"; pass = none });
  host_port = record { host = host_name (codes "biloxi.com"); port = none };
  user_param = none;
  method_param = none;
  transport_param = none;
  ttl_param = none;
  lr_param = false;
  maddr_param = none;
  params = [];
  headers = none;
}

abbrev pub some_branch : Text
some_branch = codes "z9hG4bKnashds8"

abbrev pub mandatory : SipMethod → Option Text → MandatoryHeaders
mandatory m branch = record {
  via = record {
    transport = TransportProtocol.udp;
    sent_by = record { host = host_name (codes "pc33.atlanta.com"); port = none };
    maddr = none;
    received = none;
    branch = branch;
    others = [];
  };
  from = record { uri = bob; tag = some (codes "1928301774"); params = [] };
  to = record { uri = bob; tag = none; params = [] };
  call_id = codes "a84b4c76e66710";
  cseq = record { cseq = 1; method = m };
}

abbrev pub request_of : SipMethod → Request
request_of m = record { method = m; uri = bob; headers = []; body = none }

abbrev pub info : SipMethod → Option Text → IncomingInfo
info m branch = record {
  mandatory_headers = mandatory m branch;
  transport = udp;
  source = record { ip = codes "192.0.2.1"; port = 5060 };
}

abbrev pub arrived_request : SipMethod → Option Text → IncomingRequest
arrived_request m branch = record { request = request_of m; incoming_info = info m branch }

abbrev pub response_of : StatusCode → Response
response_of code = record { code = code; reason = none; headers = []; body = none }

abbrev pub arrived_response : StatusCode → IncomingResponse
arrived_response code = record {
  response = response_of code;
  incoming_info = info invite (some some_branch);
}

abbrev pub outgoing_request : SipMethod → Transport → OutgoingRequest
outgoing_request m t = record { request = request_of m; target = t; encoded = codes "request" }

abbrev pub outgoing_response : StatusCode → OutgoingResponse
outgoing_response code = record { response = response_of code; target = none; encoded = [] }

abbrev pub key_of : Role → TransactionKey
key_of role = rfc3261 (record { role = role; branch = some_branch; method = none })

abbrev pub client_in : State → SipMethod → Transport → ClientTransaction
client_in s m t = record {
  key = key_of Role.uac;
  state_machine = record { state = s; notified = none };
  request = outgoing_request m t;
  peeked = none;
  timeout = 64 * 500;
}

abbrev pub server_in : State → SipMethod → ServerTransaction
server_in s m = record {
  key = key_of Role.uas;
  state_machine = record { state = s; notified = none };
  request = arrived_request m (some some_branch);
  target_info = none;
  receiver = true;
  task = none;
}

abbrev pub encode_request : Request → Option Text
encode_request r = some (codes "request")

pub encode_request-Total : Total encode_request
encode_request-Total r = (codes "request", refl)

abbrev pub encode_response : Response → Option Text
encode_response r = some (codes "response")

abbrev pub deliver_over_udp : OutgoingResponse → Result Transport
deliver_over_udp q = ok udp

pub deliver_over_udp-Delivers : Delivers deliver_over_udp
deliver_over_udp-Delivers q = λ e. cc
