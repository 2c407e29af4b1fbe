-- ===== src/Ua/Dialog.antt =====
-- rssip/src/ua/dialog.rs: dialogs, and the plugin that finds the dialog of a request. A channel is
-- a number, and what it holds is a list of messages; `encode` and `deliver` are the endpoint's.
pub mod Table
pub mod Receiving
pub mod Responses
use rssip.Prelude.{
  ℕ, zero, suc, ◌==◌, leb, within, Bool, true, false, not, ◌&&◌, ◌||◌, Text, codes, text_eq, List,
  [], ◌∷◌, ◌++◌, Option, none, some, any, if◌then◌else◌, Text-discrete,
}
use mathlib.Core.Logic.{ite}
use rssip.Message.Method.{SipMethod, invite, ack, cancel, can_establish_dialog}
use rssip.Message.StatusCode.{StatusCode, as_u16}
use rssip.Message.Headers.{
  Scheme, sips, Uri, FromHeader, To, Contact, Header, from_header, to, call_id, cseq, max_forwards,
  contact, allow, supported, record_route,
}
use rssip.Message.Messages.{
  Request, Response, Transport, MandatoryHeaders, IncomingRequest, IncomingResponse,
  IncomingMessage, incoming_request, incoming_response, OutgoingResponse,
}
use rssip.Transaction.Key.{Role, uac, uas}
use rssip.Error.{dialog, channel_closed, custom, Error, Result, ok, err, panic, ◌>>=◌}

pub data DialogState : Type 0 where
  init early established : DialogState

pub record DialogId : Type 0 where
  pub call_id : Text
  pub local_tag : Text
  pub remote_tag : Option Text

pub DialogId-discrete : Discrete DialogId
DialogId-discrete = hlevel Text-discrete

pub record RouteSet : Type 0 where
  pub uri : Uri
  pub params : Text

pub record Dialog : Type 0 where
  pub dialog_id : DialogId
  pub state : DialogState
  pub remote_cseq : Option ℕ
  pub local_cseq : Option ℕ
  pub from : FromHeader
  pub to : To
  pub contact : Contact
  pub secure : Bool
  pub route_set : List RouteSet
  pub role : Role

-- `DialogPlugin`: the channel of each dialog, each identifier at most once.
abbrev pub Dialogs : Type 0
Dialogs = List (DialogId × ℕ)

unfoldable pub get_dialog : Dialogs → DialogId → Option ℕ
get_dialog [] id = none
get_dialog ((k, channel) ∷ rest) id =
    ite (DialogId-discrete k id) (some channel) (get_dialog rest id)

-- `remove_dialog`, which `Drop` calls.
unfoldable pub remove_dialog : Dialogs → DialogId → Dialogs
remove_dialog [] id = []
remove_dialog ((k, channel) ∷ rest) id =
    let others = remove_dialog rest id in
    ite (DialogId-discrete k id) others ((k, channel) ∷ others)

unfoldable pub register_dialog : Dialogs → DialogId → ℕ → Dialogs
unfolding remove_dialog
register_dialog dialogs id channel = (id, channel) ∷ remove_dialog dialogs id

abbrev id_with : Text → Option Text → Option Text → Option DialogId
id_with call none remote = none
id_with call (some tag) remote =
    some (record { call_id = call; local_tag = tag; remote_tag = remote })

-- `DialogId::from_incoming_request`.
unfoldable pub from_incoming_request : IncomingRequest → Option DialogId
from_incoming_request r =
    let m = r.incoming_info.mandatory_headers in id_with m.call_id m.to.tag m.from.tag

abbrev record_routed : Header → List RouteSet → List RouteSet
record_routed (record_route r) more = record { uri = r.uri; params = r.params } ∷ more
record_routed _ more = more

-- `RouteSet::from_headers`.
unfoldable pub route_set_of : List Header → List RouteSet
route_set_of [] = []
route_set_of (h ∷ hs) = record_routed h (route_set_of hs)

abbrev pub has_tag : Option Text → Bool
has_tag none = false
has_tag (some tag) = true

abbrev is_sips : Scheme → Bool
is_sips sips = true
is_sips _ = false

-- `Dialog::create_uas`, with the tag that `generate_tag` gives and the channel that is made.
unfoldable pub create_uas :
    IncomingRequest → Contact → Text → ℕ → Dialogs → Result (Dialog × Dialogs)
unfolding can_establish_dialog register_dialog route_set_of
create_uas r own tag channel dialogs =
    let m = r.incoming_info.mandatory_headers in
    if not (can_establish_dialog r.request.method) || has_tag m.to.tag
    then err dialog
    else (let id : DialogId = record {
      call_id = m.call_id;
      local_tag = tag;
      remote_tag = m.from.tag;
    } in
        ok (
          record {
            dialog_id = id;
            state = init;
            remote_cseq = some m.cseq.cseq;
            local_cseq = none;
            from = m.from;
            to = m.to;
            contact = own;
            secure = r.incoming_info.transport.is_secure && is_sips r.request.uri.scheme;
            route_set = route_set_of r.request.headers;
            role = uas;
          },
          register_dialog dialogs id channel,
        ))

abbrev pub unwrap_uri : Option Uri → Uri → Uri
unwrap_uri none u = u
unwrap_uri (some v) u = v

-- `Dialog::create_uac`, with what `generate_tag`, `rand::random` and `random_str` give. The two
-- `SipUri` are given by their `Uri`, without a display name.
unfoldable pub create_uac :
    Uri → Uri → Option Uri → Text → ℕ → Text → ℕ → Dialogs → Dialog × Dialogs
unfolding register_dialog
create_uac from_uri to_uri contact_uri from_tag cseq_num call channel dialogs =
    let id : DialogId = record { call_id = call; local_tag = from_tag; remote_tag = none } in
    (
      record {
        dialog_id = id;
        state = init;
        remote_cseq = none;
        local_cseq = some cseq_num;
        from = record { uri = from_uri; tag = some from_tag; params = [] };
        to = record { uri = to_uri; tag = none; params = [] };
        contact = record { uri = unwrap_uri contact_uri from_uri; params = [] };
        secure = is_sips to_uri.scheme;
        route_set = [];
        role = uac;
      },
      register_dialog dialogs id channel,
    )

abbrev pub get_or_insert : Option ℕ → ℕ → ℕ
get_or_insert none n = n
get_or_insert (some m) n = m

-- `Dialog::create_request`, with the number of `rand::random`.
unfoldable pub create_request : Dialog → SipMethod → ℕ → Request × Dialog
create_request d method random =
    let number = get_or_insert d.local_cseq random in
    (
      record {
        method = method;
        uri = d.contact.uri;
        headers =
            from_header d.from
            ∷ to d.to
            ∷ call_id d.dialog_id.call_id
            ∷ cseq (record { cseq = number; method = method })
            ∷ max_forwards 70
            ∷ [];
        body = none;
      },
      record d { local_cseq = some number },
    )
