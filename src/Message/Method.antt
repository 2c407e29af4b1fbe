-- ===== src/Message/Method.antt =====
-- rssip/src/message/method.rs: the SIP methods, their texts and the parse of a method.
pub mod RoundTrip
use rssip.Prelude.{Bool, true, false, String, Text, codes, text_eq, if◌then◌else◌}

pub data SipMethod : Type 0 where
  invite ack bye cancel register options info notify : SipMethod
  subscribe update refer prack message publish unknown : SipMethod

pub SipMethod-discrete : Discrete SipMethod
SipMethod-discrete = hlevel

unfoldable pub can_establish_dialog : SipMethod → Bool
can_establish_dialog invite = true
can_establish_dialog subscribe = true
can_establish_dialog refer = true
can_establish_dialog notify = true
can_establish_dialog update = true
can_establish_dialog _ = false

-- `as_str`, the literal that the match returns.
abbrev method_literal : SipMethod → String
method_literal invite = "INVITE"
method_literal ack = "ACK"
method_literal bye = "BYE"
method_literal cancel = "CANCEL"
method_literal register = "REGISTER"
method_literal options = "OPTIONS"
method_literal info = "INFO"
method_literal notify = "NOTIFY"
method_literal subscribe = "SUBSCRIBE"
method_literal update = "UPDATE"
method_literal refer = "REFER"
method_literal prack = "PRACK"
method_literal message = "MESSAGE"
method_literal publish = "PUBLISH"
method_literal unknown = "UNKNOWN-SipMethod"

unfoldable pub as_str : SipMethod → Text
as_str m = codes (method_literal m)

-- `From<&[u8]>`: the arms in their order, the last one the catch-all.
unfoldable pub from_bytes : Text → SipMethod
from_bytes value =
    if text_eq value (codes "INVITE")
    then invite
    else if text_eq value (codes "CANCEL")
    then cancel
    else if text_eq value (codes "ACK")
    then ack
    else if text_eq value (codes "BYE")
    then bye
    else if text_eq value (codes "REGISTER")
    then register
    else if text_eq value (codes "OPTIONS")
    then options
    else if text_eq value (codes "INFO")
    then info
    else if text_eq value (codes "NOTIFY")
    then notify
    else if text_eq value (codes "SUBSCRIBE")
    then subscribe
    else if text_eq value (codes "UPDATE")
    then update
    else if text_eq value (codes "REFER")
    then refer
    else if text_eq value (codes "PRACK")
    then prack
    else if text_eq value (codes "MESSAGE")
    then message
    else if text_eq value (codes "PUBLISH")
    then publish
    else unknown
