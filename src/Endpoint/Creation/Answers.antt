-- ===== src/Endpoint/Creation/Answers.antt =====
-- rssip/src/endpoint/mod.rs, `create_response`: the headers of the response that is made for a
-- request, as the mandatory headers are read from it.
use mathlib.Core.List.{append-nil}
use rssip.Prelude.{
  Bool, true, false, ◌≡◌, refl, sym, ap, ◌∙◌, inl, inr, Bool-cases, Text, List, [], ◌∷◌, ◌++◌,
  Option, none, some, if◌then◌else◌, ltb, All, keep, drop,
}
use rssip.Message.StatusCode.{StatusCode, as_u16}
use rssip.Message.Headers.{Via, To, Header, via, from_header, to, call_id, cseq, record_route}
use rssip.Message.Messages.{
  IncomingRequest, MandatoryHeaders, Found, find_header, find_headers, nothing_found, from_headers,
}
use rssip.Endpoint.Creation.{is_via, is_record_route, to_tag, response_to, create_response}
use rssip.Error.{ok}

pub find_headers-append :
    (f : Found) (xs ys : List Header)
    → find_headers f (xs ++ ys) ≡ find_headers (find_headers f xs) ys
unfolding find_headers
find_headers-append f [] ys = refl
find_headers-append f (h ∷ xs) ys = find_headers-append (find_header f h) xs ys

-- The further Via headers change nothing behind the first one.
more_vias :
    (v : Via) (f : Found) (hs : List Header)
    → All (λ h. is_via h ≡ true) hs
    → find_headers (record f { via = some v }) hs ≡ record f { via = some v }
unfolding find_headers find_header
more_vias v f [] all = refl
more_vias v f (via u ∷ hs) all = more_vias v f hs all.1
more_vias v f (_ ∷ hs) all = cc

record_routes :
    (f : Found) (hs : List Header) → All (λ h. is_record_route h ≡ true) hs → find_headers f hs ≡ f
unfolding find_headers find_header
record_routes f [] all = refl
record_routes f (record_route r ∷ hs) all = record_routes f hs all.1
record_routes f (_ ∷ hs) all = cc

keep-All : (p : Header → Bool) (hs : List Header) → All (λ h. p h ≡ true) (keep p hs)
keep-All p [] = tt
keep-All p (h ∷ hs) = elim (Bool-cases (p h)) [
  | inl is ↦ rw is (is, keep-All p hs)
  | inr out ↦ rw out (keep-All p hs)
]

drop_one-All :
    (p : Header → Bool) (hs : List Header)
    → All (λ h. p h ≡ true) hs
    → All (λ h. p h ≡ true) (drop 1 hs)
drop_one-All p [] all = tt
drop_one-All p (h ∷ hs) all = all.1

-- Headers that `from_headers` passes over.
abbrev pub is_optional : Header → Bool
is_optional (via v) = false
is_optional (from_header f) = false
is_optional (to t) = false
is_optional (call_id c) = false
is_optional (cseq c) = false
is_optional _ = true

optional_headers :
    (f : Found) (hs : List Header) → All (λ h. is_optional h ≡ true) hs → find_headers f hs ≡ f
unfolding find_headers find_header
optional_headers f [] all = refl
optional_headers f (via v ∷ hs) all = cc
optional_headers f (from_header h ∷ hs) all = cc
optional_headers f (to t ∷ hs) all = cc
optional_headers f (call_id c ∷ hs) all = cc
optional_headers f (cseq c ∷ hs) all = cc
optional_headers f (_ ∷ hs) all = optional_headers f hs all.1

-- The headers of a response to a request with the headers `all`, around its To.
abbrev pub front_of : MandatoryHeaders → List Header → List Header
front_of m all = (via m.via ∷ drop 1 (keep is_via all)) ++ keep is_record_route all

abbrev pub back_of : MandatoryHeaders → To → List Header
back_of m t = call_id m.call_id ∷ from_header m.from ∷ to t ∷ cseq m.cseq ∷ []

front-found :
    (m : MandatoryHeaders) (all : List Header)
    → find_headers nothing_found (front_of m all) ≡ record nothing_found { via = some m.via }
unfolding find_headers find_header
front-found m all =
    let vias = drop 1 (keep is_via all) in
    let routes = keep is_record_route all in
    let first : Found = record nothing_found { via = some m.via } in
    let skip_vias : find_headers first vias ≡ first =
      more_vias m.via nothing_found vias
        (drop_one-All is_via (keep is_via all) (keep-All is_via all)) in
    find_headers-append first vias routes
    ∙ ap (λ f. find_headers f routes) skip_vias
    ∙ record_routes first routes (keep-All is_record_route all)

pub from_headers-built :
    (m : MandatoryHeaders) (all : List Header) (t : To) (extra : List Header)
    → All (λ h. is_optional h ≡ true) extra
    → from_headers (front_of m all ++ back_of m t ++ extra) ≡ ok (record m { to = t })
unfolding from_headers find_headers find_header
from_headers-built m all t extra optional =
    let found : find_headers nothing_found (front_of m all ++ back_of m t ++ extra) ≡ record {
      via = some m.via;
      from = some m.from;
      to = some t;
      call_id = some m.call_id;
      cseq = some m.cseq;
    } =
      find_headers-append nothing_found (front_of m all ++ back_of m t) extra
      ∙ ap (λ f. find_headers f extra)
          (find_headers-append nothing_found (front_of m all) (back_of m t)
            ∙ ap (λ f. find_headers f (back_of m t)) (front-found m all))
      ∙ optional_headers _ extra optional in
    rw found refl

to_tag_lem :
    (tag branch : Option Text) (late : Bool)
    → to_tag tag late branch ≡ (elim tag [ some t ↦ some t | none ↦ if late then branch else none ])
to_tag_lem (some t) branch late = refl
to_tag_lem none branch true = refl
to_tag_lem none branch false = refl

-- The mandatory headers that are read from the response to a request are those of the request,
-- however many Via and Record-Route headers it has, but for the tag of To: a request without one
-- gets the branch of its topmost Via as tag in every response above 100, and no tag in a response
-- with 100; a tag of the request is kept.
pub from_headers-create_response :
    (r : IncomingRequest) (code : StatusCode) (reason : Option Text)
    → let m = r.incoming_info.mandatory_headers in
      let tag : Option Text = elim m.to.tag [
        | some t ↦ some t
        | none ↦ if ltb 100 (as_u16 code) then m.via.branch else none
      ] in
      from_headers (create_response r code reason).headers
      ≡ ok (record m { to = record m.to { tag = tag } })
unfolding create_response
from_headers-create_response r code reason =
    let m = r.incoming_info.mandatory_headers in
    let all = r.request.headers in
    ap from_headers (sym (append-nil (front_of m all ++ back_of m (response_to m code))))
    ∙ from_headers-built m all (response_to m code) [] tt
    ∙ ap (λ tag. ok (record m { to = record m.to { tag = tag } }))
        (to_tag_lem m.to.tag m.via.branch (ltb 100 (as_u16 code)))
