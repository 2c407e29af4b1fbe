-- ===== src/Message/Headers.antt =====
-- rssip/src/message/headers: the header fields that transactions, dialogs and sessions read. What
-- they carry along unread is kept as one text (`others`, `params`).
use rssip.Prelude.{ℕ, Bool, Text, List, Option}
use rssip.Message.Addresses.{TransportProtocol, Host, HostPort}
use rssip.Message.Method.{SipMethod}

pub data Scheme : Type 0 where
  sip sips : Scheme

pub record UserInfo : Type 0 where
  pub user : Text
  pub pass : Option Text

pub record Param : Type 0 where
  pub name : Text
  pub value : Option Text

pub record Uri : Type 0 where
  pub scheme : Scheme
  pub user : Option UserInfo
  pub host_port : HostPort
  pub user_param : Option Text
  pub method_param : Option SipMethod
  pub transport_param : Option TransportProtocol
  pub ttl_param : Option ℕ
  pub lr_param : Bool
  pub maddr_param : Option Host
  pub params : List Param
  pub headers : Option (List Param)

-- The display name, if any, and the URI.
pub record NameAddr : Type 0 where
  pub display : Option Text
  pub uri : Uri

pub data SipUri : Type 0 where
  plain : Uri → SipUri
  named : NameAddr → SipUri

pub record CSeq : Type 0 where
  pub cseq : ℕ
  pub method : SipMethod

pub record Via : Type 0 where
  pub transport : TransportProtocol
  pub sent_by : HostPort
  pub maddr : Option Host
  pub received : Option Text
  pub branch : Option Text
  pub others : Text

pub record FromHeader : Type 0 where
  pub uri : Uri
  pub tag : Option Text
  pub params : Text

pub record To : Type 0 where
  pub uri : Uri
  pub tag : Option Text
  pub params : Text

pub record Contact : Type 0 where
  pub uri : Uri
  pub params : Text

pub record RecordRoute : Type 0 where
  pub uri : Uri
  pub params : Text

pub record Route : Type 0 where
  pub uri : Uri
  pub params : Text

pub data Header : Type 0 where
  via : Via → Header
  from_header : FromHeader → Header
  to : To → Header
  call_id : Text → Header
  cseq : CSeq → Header
  max_forwards : ℕ → Header
  contact : Contact → Header
  allow : Text → Header
  supported : Text → Header
  content_type : Text → Header
  route : Route → Header
  record_route : RecordRoute → Header
  other : Text → Header
