-- ===== src/Media/Negotiator/Directions.antt =====
-- The direction that an answer announces for a medium.
use rssip.Prelude.{
  ◌≡◌, inl, inr, refl, Bool, true, false, not, ◌&&◌, List, [], ◌∷◌, ◌++◌, Option, none, some, keep,
  Option-cases,
}
use rssip.Media.Sdp.{
  Attribute, Direction, send_recv, recv_only, send_only, inactive, direction_name, direction_of,
}
use rssip.Media.Negotiator.{find_direction, answer_direction, answer_attributes, names_no_direction}

-- Whether the side that announces a direction sends, and whether it receives.
abbrev pub sends : Direction → Bool
sends send_recv = true
sends send_only = true
sends _ = false

abbrev pub receives : Direction → Bool
receives send_recv = true
receives recv_only = true
receives _ = false

-- An answer that sends only to a side that receives, and receives only from one that sends.
abbrev pub Fits : Direction → Direction → Type 0
Fits remote d =
    ((sends d && not (receives remote)) ≡ false) × ((receives d && not (sends remote)) ≡ false)

pub answer_direction-Fits :
    (r : Direction) (l : Option Direction)
    → (d : Direction) × (answer_direction (some r) l ≡ some d) × Fits r d
unfolding answer_direction
answer_direction-Fits send_recv l = (send_recv, refl, (refl, refl))
answer_direction-Fits inactive l = (inactive, refl, (refl, refl))
answer_direction-Fits send_only (some send_recv) = (recv_only, refl, (refl, refl))
answer_direction-Fits send_only (some recv_only) = (recv_only, refl, (refl, refl))
answer_direction-Fits send_only (some send_only) = (inactive, refl, (refl, refl))
answer_direction-Fits send_only (some inactive) = (inactive, refl, (refl, refl))
answer_direction-Fits send_only none = (inactive, refl, (refl, refl))
answer_direction-Fits recv_only (some send_recv) = (send_only, refl, (refl, refl))
answer_direction-Fits recv_only (some send_only) = (send_only, refl, (refl, refl))
answer_direction-Fits recv_only (some recv_only) = (inactive, refl, (refl, refl))
answer_direction-Fits recv_only (some inactive) = (inactive, refl, (refl, refl))
answer_direction-Fits recv_only none = (inactive, refl, (refl, refl))

direction_of-direction_name : (d : Direction) → direction_of (direction_name d) ≡ some d
unfolding direction_of direction_name
direction_of-direction_name send_recv = refl
direction_of-direction_name recv_only = refl
direction_of-direction_name send_only = refl
direction_of-direction_name inactive = refl

abbrev undirected : Attribute → Bool
undirected a = names_no_direction (direction_of a.name)

find_direction-keep :
    (attributes : List Attribute) (a : Attribute) (d : Direction)
    → direction_of a.name ≡ some d
    → find_direction (keep undirected attributes ++ a ∷ []) ≡ some d
unfolding find_direction
find_direction-keep [] a d e = rw e refl
find_direction-keep (b ∷ attributes) a d e =
    let later = find_direction-keep attributes a d e in
    elim (Option-cases (direction_of b.name)) [
      | inl h ↦ rw (h, find_direction) (rw h later)
      | inr (x, h) ↦ rw h later
    ]

-- The attributes of an answered medium name the direction that was chosen, and no other first.
pub answer_attributes-direction :
    (local : List Attribute) (d : Direction)
    → find_direction (answer_attributes local (some d)) ≡ some d
unfolding answer_attributes
answer_attributes-direction local d = find_direction-keep local _ d (direction_of-direction_name d)
