-- ===== src/Ua/Dialog/Receiving/Ids.antt =====
-- rssip/src/ua/dialog.rs: which dialog a request reaches.
use mathlib.Core.Logic.{if_pos, if_neg}
use rssip.Prelude.{
  ℕ, ◌≡◌, ◌≢◌, refl, ap, ◌∙◌, inl, inr, not, ◌||◌, Bool-cases, Option-cases, Text, List, Option,
  none, some,
}
use rssip.Message.Method.{can_establish_dialog}
use rssip.Message.Headers.{Uri, Contact}
use rssip.Message.Messages.{Response, Transport, IncomingRequest, OutgoingResponse}
use rssip.Ua.Dialog.{
  DialogId, DialogId-discrete, Dialog, Dialogs, get_dialog, register_dialog, from_incoming_request,
  has_tag, create_uas, create_uac,
}
use rssip.Ua.Dialog.Receiving.{sent_to, plugin_incoming_request, found_id, plugged}
use rssip.Ua.Dialog.Table.{get_dialog-register_dialog}
use rssip.Error.{Result, ok}

-- A request within a dialog, by the headers that identify it.
abbrev pub InDialog : Text → Option Text → Option Text → IncomingRequest → Type 0
InDialog call to_tag from_tag q =
    let m = q.incoming_info.mandatory_headers in
    (m.call_id ≡ call) × (m.to.tag ≡ to_tag) × (m.from.tag ≡ from_tag)

create_uas-table :
    (r : IncomingRequest) (own : Contact) (tag : Text) (channel : ℕ) (dialogs after : Dialogs)
    (d : Dialog)
    → create_uas r own tag channel dialogs ≡ ok (d, after)
    → let m = r.incoming_info.mandatory_headers in
      after
      ≡ register_dialog dialogs
          (record { call_id = m.call_id; local_tag = tag; remote_tag = m.from.tag })
          channel
unfolding create_uas
create_uas-table r own tag channel dialogs after d e =
    elim (Bool-cases (
      not (can_establish_dialog r.request.method)
      || has_tag r.incoming_info.mandatory_headers.to.tag)) [
        | inl refused ↦ let never = rw (create_uas, refused) at e in cc
        | inr created ↦ let made = rw (create_uas, created) at e in cc
      ]

get_dialog-same :
    (dialogs : Dialogs) (id : DialogId) (channel : ℕ)
    → get_dialog (register_dialog dialogs id channel) id ≡ some channel
get_dialog-same dialogs id channel =
    get_dialog-register_dialog dialogs id id channel
    ∙ if_pos (DialogId-discrete id id) refl (some channel) (get_dialog dialogs id)

some_remote : {t : Text} → none ≢ some t
some_remote e = cc

module _ (encode : Response → Option Text) (deliver : OutgoingResponse → Result Transport) where
  -- Behind a `create_uas` that succeeds the plugin sends to the dialog's channel every request with the Call-ID
  -- and the From tag of the request that made the dialog, and the dialog's tag in To.
  pub create_uas-InDialog :
      (r q : IncomingRequest) (own : Contact) (tag : Text) (channel : ℕ) (dialogs after : Dialogs)
      (d : Dialog) (sent : List Text)
      → create_uas r own tag channel dialogs ≡ ok (d, after)
      → let m = r.incoming_info.mandatory_headers in
        InDialog m.call_id (some tag) m.from.tag q
        → plugin_incoming_request encode deliver after q sent ≡ sent_to channel q
  unfolding plugin_incoming_request from_incoming_request found_id plugged
  create_uas-InDialog r q own tag channel dialogs after d sent made (call, to_tag, from_tag) =
      let m = r.incoming_info.mandatory_headers in
      let id : DialogId = record {
        call_id = m.call_id;
        local_tag = tag;
        remote_tag = m.from.tag;
      } in
      let table = create_uas-table r own tag channel dialogs after d made in
      let same : from_incoming_request q ≡ some id = rw (call, to_tag, from_tag) refl in
      let found : get_dialog after id ≡ some channel =
        rw table (get_dialog-same dialogs id channel) in
      rw (plugin_incoming_request, same, found) refl

  -- A dialog that `create_uac` makes never gets a request whose From has a tag: the plugin does
  -- with every such request what it did without the dialog.
  pub create_uac-never_found :
      (from_uri to_uri : Uri) (contact_uri : Option Uri) (from_tag : Text) (number : ℕ)
      (call : Text) (channel : ℕ) (dialogs : Dialogs) (q : IncomingRequest) (remote : Text)
      (sent : List Text)
      → q.incoming_info.mandatory_headers.from.tag ≡ some remote
      → let (d, after) =
          create_uac from_uri to_uri contact_uri from_tag number call channel dialogs in
        plugin_incoming_request encode deliver after q sent
        ≡ plugin_incoming_request encode deliver dialogs q sent
  unfolding plugin_incoming_request from_incoming_request found_id create_uac
  create_uac-never_found from_uri to_uri contact_uri from_tag number call channel dialogs q remote
        sent e =
      let id : DialogId = record { call_id = call; local_tag = from_tag; remote_tag = none } in
      elim (Option-cases q.incoming_info.mandatory_headers.to.tag) [
        | inl no_tag ↦ rw (plugin_incoming_request, no_tag) refl
        | inr (tag, with_tag) ↦
            let k : DialogId = record {
              call_id = q.incoming_info.mandatory_headers.call_id;
              local_tag = tag;
              remote_tag = some remote;
            } in
            let read : from_incoming_request q ≡ some k = rw (with_tag, e) refl in
            let other : id ≢ k = λ same. some_remote (ap (λ (i : DialogId). i.remote_tag) same) in
            let same : get_dialog (register_dialog dialogs id channel) k ≡ get_dialog dialogs k =
              get_dialog-register_dialog dialogs id k channel
              ∙ if_neg (DialogId-discrete id k) other (some channel) (get_dialog dialogs k) in
            rw (plugin_incoming_request, read, same) refl
      ]
