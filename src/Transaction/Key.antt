-- ===== src/Transaction/Key.antt =====
-- rssip/src/transaction/mod.rs: the key that a message's transaction is filed under.
use rssip.Prelude.{Text, codes, starts_with, Option, none, some, if◌then◌else◌}
use rssip.Message.Method.{SipMethod, invite, ack}
use rssip.Message.Messages.{IncomingInfo, IncomingRequest, IncomingResponse}
use rssip.Error.{Result, ok, panic}
use rssip.Prelude.{Text-discrete}

pub data Role : Type 0 where
  uac uas : Role

pub record Rfc3261 : Type 0 where
  pub role : Role
  pub branch : Text
  pub method : Option SipMethod

-- The variant `Rfc2543` is never built: `from_incoming_info` ends in `todo!` instead.
pub data TransactionKey : Type 0 where
  rfc3261 : Rfc3261 → TransactionKey

pub TransactionKey-discrete : Discrete TransactionKey
TransactionKey-discrete = hlevel Text-discrete

abbrev pub rfc3261_branch_id : Text
rfc3261_branch_id = codes "z9hG4bK"

-- `matches!(method, Invite | Ack)` gives `None`.
abbrev pub key_method : SipMethod → Option SipMethod
key_method invite = none
key_method ack = none
key_method m = some m

unfoldable pub new_key_3261 : Role → SipMethod → Text → TransactionKey
new_key_3261 role method branch =
    rfc3261 (record { role = role; branch = branch; method = key_method method })

-- By the branch of the topmost Via; the last arm of the match is `todo!`.
abbrev pub key_of_branch : Option Text → SipMethod → Role → Result TransactionKey
key_of_branch none method role = panic
key_of_branch (some branch) method role =
    if starts_with branch rfc3261_branch_id then ok (new_key_3261 role method branch) else panic

unfoldable pub from_incoming_info : IncomingInfo → Role → Result TransactionKey
from_incoming_info info role =
    key_of_branch info.mandatory_headers.via.branch info.mandatory_headers.cseq.method role

unfoldable pub from_request : IncomingRequest → Result TransactionKey
unfolding from_incoming_info
from_request r = from_incoming_info r.incoming_info uas

unfoldable pub from_response : IncomingResponse → Result TransactionKey
unfolding from_incoming_info
from_response r = from_incoming_info r.incoming_info uac
