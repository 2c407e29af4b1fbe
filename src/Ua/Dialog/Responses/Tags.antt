-- ===== src/Ua/Dialog/Responses/Tags.antt =====
-- rssip/src/ua/dialog.rs, `Dialog::create_response`: the headers of a response within a dialog.
use mathlib.Core.List.{append-nil, append_assoc}
use rssip.Prelude.{
  ℕ, ◌==◌, ◌≡◌, refl, sym, ap, ◌∙◌, inl, inr, Bool, true, false, Bool-cases, Option-cases, Text,
  List, [], ◌∷◌, ◌++◌, Option, some, All, keep, drop,
}
use rssip.Message.StatusCode.{StatusCode, as_u16}
use rssip.Message.Headers.{To, Contact, Header, to, via, contact, allow, supported}
use rssip.Message.Messages.{MandatoryHeaders, OutgoingResponse, from_headers}
use rssip.Transaction.Server.Respond.{ServerTransaction}
use rssip.Endpoint.Creation.{
  is_via, is_record_route, response_to, create_response, create_outgoing_response,
}
use rssip.Endpoint.Creation.Answers.{is_optional, front_of, back_of, from_headers-built}
use rssip.Ua.Dialog.{Dialog}
use rssip.Ua.Dialog.Responses.{
  Settings, wants_contact, wants_allow, wants_supported, push_if, push_headers, set_to_tag,
  found_later, tsx_create_response, dialog_create_response,
}
use rssip.Error.{ok}

-- Headers that are pushed behind others, none of which is mandatory.
abbrev Pushed : List Header → List Header → Type 0
Pushed hs after =
    (extra : List Header) × (after ≡ hs ++ extra) × All (λ h. is_optional h ≡ true) extra

optional-append :
    (xs : List Header) (h : Header)
    → All (λ h. is_optional h ≡ true) xs
    → is_optional h ≡ true
    → All (λ h. is_optional h ≡ true) (xs ++ h ∷ [])
optional-append [] h all is = (is, tt)
optional-append (x ∷ xs) h all is = (all.0, optional-append xs h all.1 is)

push_if-Pushed :
    (c : Bool) (h : Header) (hs now : List Header)
    → is_optional h ≡ true
    → Pushed hs now
    → Pushed hs (push_if c h now)
push_if-Pushed false h hs now is pushed = pushed
push_if-Pushed true h hs now is (extra, e, all) = (
  extra ++ h ∷ [],
  ap (λ (l : List Header). l ++ h ∷ []) e ∙ append_assoc hs extra (h ∷ []),
  optional-append extra h all is,
)

push_headers-Pushed :
    (e : Settings) (c : Contact) (code : ℕ) (hs : List Header)
    → Pushed hs (push_headers e c code hs)
unfolding push_headers
push_headers-Pushed e c code hs =
    let first = push_if (wants_contact code hs) (contact c) hs in
    let second = push_if (wants_allow e code first) (allow e.allow) first in
    push_if-Pushed (wants_supported e code second) (supported e.supported) hs second refl (
      push_if-Pushed (wants_allow e code first) (allow e.allow) hs first refl (
        push_if-Pushed (wants_contact code hs) (contact c) hs hs refl
          ([], sym (append-nil hs), tt)))

abbrev is_to : Header → Bool
is_to (to t) = true
is_to _ = false

-- Headers without a To in front of one are passed over.
set_to_tag-append :
    (tag : Text) (front hs after : List Header)
    → All (λ h. is_to h ≡ false) front
    → set_to_tag tag hs ≡ some after
    → set_to_tag tag (front ++ hs) ≡ some (front ++ after)
unfolding set_to_tag
set_to_tag-append tag [] hs after none_to e = e
set_to_tag-append tag (to t ∷ front) hs after none_to e = cc
set_to_tag-append tag (h ∷ front) hs after none_to e =
    ap (found_later h) (set_to_tag-append tag front hs after none_to.1 e)

All-append :
    (xs ys : List Header)
    → All (λ h. is_to h ≡ false) xs
    → All (λ h. is_to h ≡ false) ys
    → All (λ h. is_to h ≡ false) (xs ++ ys)
All-append [] ys p q = q
All-append (x ∷ xs) ys p q = (p.0, All-append xs ys p.1 q)

keep-no_to :
    (p : Header → Bool) (hs : List Header)
    → ((t : To) → p (to t) ≡ false)
    → All (λ h. is_to h ≡ false) (keep p hs)
keep-no_to p [] never = tt
keep-no_to p (to t ∷ hs) never = rw (never t) (keep-no_to p hs never)
keep-no_to p (h ∷ hs) never = elim (Bool-cases (p h)) [
  | inl is ↦ rw is (refl, keep-no_to p hs never)
  | inr out ↦ rw out (keep-no_to p hs never)
]

drop_one-no_to :
    (hs : List Header) → All (λ h. is_to h ≡ false) hs → All (λ h. is_to h ≡ false) (drop 1 hs)
drop_one-no_to [] p = tt
drop_one-no_to (h ∷ hs) p = p.1

front-no_to :
    (m : MandatoryHeaders) (all : List Header) → All (λ h. is_to h ≡ false) (front_of m all)
front-no_to m all =
    let vias = drop_one-no_to (keep is_via all) (keep-no_to is_via all (λ t. refl)) in
    All-append (via m.via ∷ drop 1 (keep is_via all)) (keep is_record_route all) (refl, vias)
      (keep-no_to is_record_route all (λ t. refl))

set_to_tag-built :
    (tag : Text) (m : MandatoryHeaders) (all : List Header) (t : To) (extra : List Header)
    → set_to_tag tag (front_of m all ++ back_of m t ++ extra)
      ≡ some (front_of m all ++ back_of m (record t { tag = some tag }) ++ extra)
unfolding set_to_tag
set_to_tag-built tag m all t extra =
    let back = back_of m (record t { tag = some tag }) in
    ap (set_to_tag tag) (append_assoc (front_of m all) (back_of m t) extra)
    ∙ set_to_tag-append tag (front_of m all) (back_of m t ++ extra) (back ++ extra)
        (front-no_to m all) refl
    ∙ ap some (sym (append_assoc (front_of m all) back extra))

tsx_create_response-headers :
    (s : ServerTransaction) (code : StatusCode) (reason : Option Text)
    → let m = s.request.incoming_info.mandatory_headers in
      (tsx_create_response s code reason).response.headers
      ≡ front_of m s.request.request.headers ++ back_of m (response_to m code)
unfolding tsx_create_response create_response create_outgoing_response
tsx_create_response-headers s code reason = elim (Option-cases s.target_info) [
  | inl missing ↦ rw missing refl
  | inr (t, known) ↦ rw known refl
]

-- Every response of a dialog with a code other than 100 is made without a panic, and has in To
-- the tag of the dialog, whatever tag the request's To had; its other mandatory headers are the
-- request's.
pub dialog_create_response-tag :
    (e : Settings) (d : Dialog) (s : ServerTransaction) (code : StatusCode) (reason : Option Text)
    → (as_u16 code == 100) ≡ false
    → let m = s.request.incoming_info.mandatory_headers in
      (r : OutgoingResponse) × (dialog_create_response e d s code reason ≡ ok r)
      × (from_headers r.response.headers
          ≡ ok (record m { to = record m.to { tag = some d.dialog_id.local_tag } }))
unfolding dialog_create_response
dialog_create_response-tag e d s code reason final =
    let m = s.request.incoming_info.mandatory_headers in
    let all = s.request.request.headers in
    let t = response_to m code in
    let tag = d.dialog_id.local_tag in
    let base = tsx_create_response s code reason in
    let headers = tsx_create_response-headers s code reason in
    let (extra, pushed, optional) =
      push_headers-Pushed e d.contact (as_u16 code) base.response.headers in
    let hs = front_of m all ++ back_of m (record t { tag = some tag }) ++ extra in
    let set : set_to_tag tag (push_headers e d.contact (as_u16 code) base.response.headers)
        ≡ some hs =
      ap (set_to_tag tag) (pushed ∙ ap (λ (l : List Header). l ++ extra) headers)
      ∙ set_to_tag-built tag m all t extra in
    (
      record base { response = record base.response { headers = hs } },
      rw (final, set) refl,
      from_headers-built m all (record t { tag = some tag }) extra optional,
    )
