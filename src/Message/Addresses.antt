-- ===== src/Message/Addresses.antt =====
-- rssip/src/message/uri.rs and rssip/src/transport: hosts, ports and transport protocols. An IP
-- address and a host name are texts.
use rssip.Prelude.{ℕ, Bool, true, false, Text, Option}

pub data TransportProtocol : Type 0 where
  udp tcp ws wss tls sctp : TransportProtocol

unfoldable pub protocol_is_reliable : TransportProtocol → Bool
protocol_is_reliable udp = false
protocol_is_reliable _ = true

unfoldable pub default_port : TransportProtocol → ℕ
default_port udp = 5060
default_port tcp = 5060
default_port sctp = 5060
default_port tls = 5061
default_port ws = 80
default_port wss = 80

pub data Host : Type 0 where
  host_name ip_addr : Text → Host

pub record HostPort : Type 0 where
  pub host : Host
  pub port : Option ℕ

pub record SocketAddr : Type 0 where
  pub ip : Text
  pub port : ℕ
