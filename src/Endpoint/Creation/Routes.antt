-- ===== src/Endpoint/Creation/Routes.antt =====
-- rssip/src/endpoint/mod.rs, `process_route_set`: what becomes of a request's headers.
use rssip.Prelude.{
  suc, Bool, false, not, ◌≡◌, refl, sym, ap, ◌∙◌, inl, inr, ◌⊎◌, Bool-cases, List, [], ◌∷◌, ◌++◌,
  none, some, keep, length, length-concat,
}
use rssip.Message.Headers.{Uri, Header, route}
use rssip.Message.Messages.{Request}
use rssip.Endpoint.Creation.{
  is_route, take_strict, found_first, insert_at_last, inserted_or_pushed, routed, process_route_set,
}

abbrev pub is_other : Header → Bool
is_other h = not (is_route h)

-- Behind taking or inserting a Route the other headers are the same.
abbrev SameOthers : List Header → List Header → Type 0
SameOthers hs ks = keep is_other ks ≡ keep is_other hs

abbrev Taken : List Header → Type 0
Taken hs =
    (take_strict hs ≡ none)
    ⊎ ((u : Uri) × (ks : List Header) × (take_strict hs ≡ some (u, ks))
        × (length hs ≡ suc (length ks))
        × SameOthers hs ks)

found_later :
    (h : Header) (hs : List Header)
    → take_strict (h ∷ hs) ≡ found_first h (take_strict hs)
    → Taken hs
    → Taken (h ∷ hs)
found_later h hs e (inl nowhere) = inl (e ∙ ap (found_first h) nowhere)
found_later h hs e (inr (u, ks, got, size, same)) = inr (
  u,
  h ∷ ks,
  e ∙ ap (found_first h) got,
  ap suc size,
  elim (Bool-cases (is_other h)) [ inl is ↦ rw (is, same) refl | inr out ↦ rw (out, same) refl ],
)

take_strict-cases : (hs : List Header) → Taken hs
unfolding take_strict
take_strict-cases [] = inl refl
take_strict-cases (route r ∷ hs) = elim (Bool-cases r.uri.lr_param) [
  | inl loose ↦ found_later (route r) hs (rw loose refl) (take_strict-cases hs)
  | inr strict ↦ inr (r.uri, hs, rw strict refl, refl, refl)
]
take_strict-cases (h ∷ hs) = found_later h hs refl (take_strict-cases hs)

abbrev Inserted : Header → List Header → Type 0
Inserted new hs =
    (insert_at_last new hs ≡ none)
    ⊎ ((ks : List Header) × (insert_at_last new hs ≡ some ks)
        × (length ks ≡ suc (length hs))
        × SameOthers hs ks)

Inserted-later :
    (new h : Header) (hs ks : List Header)
    → insert_at_last new hs ≡ some ks
    → length ks ≡ suc (length hs)
    → SameOthers hs ks
    → Inserted new (h ∷ hs)
unfolding insert_at_last
Inserted-later new h hs ks e size same = inr (
  h ∷ ks,
  rw e refl,
  ap suc size,
  elim (Bool-cases (is_other h)) [ inl is ↦ rw (is, same) refl | inr out ↦ rw (out, same) refl ],
)

insert_at_last-cases : (new : Header) (hs : List Header) → is_other new ≡ false → Inserted new hs
unfolding insert_at_last
insert_at_last-cases new [] e = inl refl
insert_at_last-cases new (route r ∷ hs) e = elim (insert_at_last-cases new hs e) [
  | inl nowhere ↦ inr (new ∷ route r ∷ hs, rw nowhere refl, refl, rw e refl)
  | inr (ks, got, size, same) ↦ Inserted-later new (route r) hs ks got size same
]
insert_at_last-cases new (h ∷ hs) e = elim (insert_at_last-cases new hs e) [
  | inl nowhere ↦ inl (rw nowhere refl)
  | inr (ks, got, size, same) ↦ Inserted-later new h hs ks got size same
]

keep-concat :
    (p : Header → Bool) (hs : List Header) (new : Header)
    → p new ≡ false
    → keep p (hs ++ new ∷ []) ≡ keep p hs
keep-concat p [] new e = rw e refl
keep-concat p (h ∷ hs) new e =
    let ih = keep-concat p hs new e in
    elim (Bool-cases (p h)) [ inl is ↦ rw (is, ih) refl | inr out ↦ rw (out, ih) refl ]

inserted_or_pushed-cases :
    (new : Header) (hs : List Header)
    → is_other new ≡ false
    → let ks = inserted_or_pushed new hs (insert_at_last new hs) in
      (length ks ≡ suc (length hs)) × SameOthers hs ks
inserted_or_pushed-cases new hs e = elim (insert_at_last-cases new hs e) [
  | inl nowhere ↦ rw nowhere (length-concat hs new, keep-concat is_other hs new e)
  | inr (ks, got, size, same) ↦ rw got (size, same)
]

-- `process_route_set` leaves the method, the Request-URI and the body alone, and all headers but
-- the Routes, in their order; there are as many headers as before.
pub process_route_set-others :
    (r : Request)
    → let (u, q) = process_route_set r in
      (q.method ≡ r.method)
      × (q.uri ≡ r.uri)
      × (q.body ≡ r.body)
      × (length q.headers ≡ length r.headers)
      × (keep is_other q.headers ≡ keep is_other r.headers)
unfolding process_route_set routed
process_route_set-others r = elim (take_strict-cases r.headers) [
  | inl nowhere ↦ rw (process_route_set, nowhere) (refl, refl, refl, refl, refl)
  | inr (u, ks, got, size, same) ↦
      let new = route (record { uri = r.uri; params = [] }) in
      let (size2, same2) = inserted_or_pushed-cases new ks refl in
      rw (process_route_set, got) (refl, refl, refl, size2 ∙ sym size, same2 ∙ same)
]

-- Without a Route that lacks `lr` the request stays as it is, and goes to its own URI.
pub process_route_set-loose :
    (r : Request) → take_strict r.headers ≡ none → process_route_set r ≡ (r.uri, r)
unfolding process_route_set routed
process_route_set-loose r nowhere = rw (process_route_set, nowhere) refl
