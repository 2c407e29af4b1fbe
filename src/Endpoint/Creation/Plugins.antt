-- ===== src/Endpoint/Creation/Plugins.antt =====
-- rssip/src/endpoint/mod.rs, `on_request` and `on_response`: the loop over the plugins.
use rssip.Prelude.{◌≡◌, refl, List, [], ◌∷◌, ◌++◌, Option, none, some, Option-cases, inl, inr}
use rssip.Endpoint.Creation.{offer_to}

-- The plugins behind one that takes the message do not see it, and the others get it as it was.
abbrev pub offered_on {ℓ κ} :
    {M : Type ℓ} {S : Type κ} → List (M → S → Option M × S) → Option M → S → Option M × S
offered_on plugins none s = (none, s)
offered_on plugins (some m) s = offer_to plugins m s

pub offer_to-append {ℓ κ} :
    {M : Type ℓ} {S : Type κ} (first second : List (M → S → Option M × S)) (m : M) (s : S)
    → offer_to (first ++ second) m s
      ≡ (let (left, after) = offer_to first m s in offered_on second left after)
unfolding offer_to
offer_to-append [] second m s = refl
offer_to-append (plugin ∷ more) second m s = elim (Option-cases (plugin m s).0) [
  | inl taken ↦ rw (offer_to, taken) refl
  | inr (same, left) ↦ rw (offer_to, left) (offer_to-append more second same (plugin m s).1)
]
