-- ===== src/Media/Sdp/RoundTrip/Sections.antt =====
-- rssip-media/src/sdp: the lines of a description, the times and the media as the setters collect them.
use mathlib.Core.List.{append_assoc, append-nil}
use mathlib.Core.Path.{subst}
use rssip.Prelude.{
  ◌≡◌, refl, ap, sym, ◌∙◌, Bool, Text, List, [], ◌∷◌, ◌++◌, Option, none, some, All, decimal,
}
use rssip.Error.{Result, ok}
use rssip.Scanner.{Scanner}
use rssip.Scanner.Reading.{Yields}
use rssip.Media.Sdp.{IpAddr, Attribute, RepeatTimes, TimeDescription, SessionDescription}
use rssip.Media.Sdp.Setters.{change_last, set_attr, set_repeat_times, repeat_at, set_time_desc}
use rssip.Media.Sdp.Printing.{
  concat_map, if_some, value_text, show_attribute, signed, show_repeat, show_time,
}
use rssip.Media.Sdp.Printable.{IsAttribute, IsRepeat, IsTime}
use rssip.Media.Sdp.Parsing.{parse_time}
use rssip.Media.Sdp.Parser.{setting, parse_field}
use rssip.Media.Sdp.RoundTrip.Fields.{eol, parse_attribute-Yields, parse_time-Yields}
use rssip.Media.Sdp.RoundTrip.Spaced.{
  parse_repeat_times-Yields, spaced_then, spaced_then-concat_map,
}
use rssip.Media.Sdp.RoundTrip.Runs.{Prints, nothing-Prints, Prints-append, line-Prints}

pub setting-Yields {ℓ} :
    {A : Type ℓ} (set : A → SessionDescription → SessionDescription) (d : SessionDescription)
    (m : Result (A × Scanner)) (a : A) (after : Text)
    → Yields m a after
    → Yields (setting set d m) (set a d) after
setting-Yields set d m a after (s, e, h) = (s, rw e refl, h)

pub change_last-concat {ℓ} :
    {A : Type ℓ} (f : A → A) (xs : List A) (a : A) → change_last f (xs ++ a ∷ []) ≡ xs ++ f a ∷ []
unfolding change_last
change_last-concat f [] a = refl
change_last-concat f (x ∷ []) a = refl
change_last-concat f (x ∷ y ∷ xs) a = ap (λ (ys : List _). x ∷ ys) (change_last-concat f (y ∷ xs) a)

repeat_body :
    (r : RepeatTimes) (after : Text)
    → signed r.repeat_interval
        ++ (32 ∷ (signed r.active_duration ++ concat_map (λ offset. 32 ∷ signed offset) r.offsets))
        ++ eol after
      ≡ signed r.repeat_interval
        ++ (32 ∷ (signed r.active_duration ++ spaced_then signed r.offsets (eol after)))
repeat_body r after = simp (append_assoc, spaced_then-concat_map)

module _ (is_utf8 : Text → Bool) (parse_ip : Text → Option IpAddr) where
  abbrev Leads : Text → SessionDescription → SessionDescription → Type 0
  Leads = Prints is_utf8 parse_ip

  pub optional-Prints {ℓ} :
      {A : Type ℓ} (show : A → Text) (state : Option A → SessionDescription) (o : Option A)
      → ((a : A) → o ≡ some a → Leads (show a) (state none) (state (some a)))
      → Leads (if_some show o) (state none) (state o)
  optional-Prints show state none step = nothing-Prints is_utf8 parse_ip (state none)
  optional-Prints show state (some a) step = step a refl

  list_behind {ℓ} :
      {A : Type ℓ} (show : A → Text) (Fits : A → Type 0) (state : List A → SessionDescription)
      (step : (before : List A) (a : A)
        → Fits a
        → Leads (show a) (state before) (state (before ++ a ∷ [])))
      (before items : List A)
      → All Fits items
      → Leads (concat_map show items) (state before) (state (before ++ items))
  list_behind show Fits state step before [] fits =
      subst (λ xs. Leads [] (state before) (state xs)) (sym (append-nil before))
        (nothing-Prints is_utf8 parse_ip (state before))
  list_behind show Fits state step before (a ∷ items) fits =
      subst (λ xs. Leads (show a ++ concat_map show items) (state before) (state xs))
        (append_assoc before (a ∷ []) items)
        (Prints-append is_utf8 parse_ip (show a) (concat_map show items) (state before) _ _
          (step before a fits.0) (list_behind show Fits state step (before ++ a ∷ []) items fits.1))

  -- The lines of a list, where each element is pushed behind those before.
  pub list-Prints {ℓ} :
      {A : Type ℓ} (show : A → Text) (Fits : A → Type 0) (state : List A → SessionDescription)
      → ((before : List A) (a : A)
          → Fits a
          → Leads (show a) (state before) (state (before ++ a ∷ [])))
      → (items : List A) → All Fits items
      → Leads (concat_map show items) (state []) (state items)
  list-Prints show Fits state step = list_behind show Fits state step []

  -- An attribute line, wherever the setter puts it.
  pub attribute-Prints :
      (a : Attribute) (d : SessionDescription)
      → IsAttribute is_utf8 a
      → Leads (show_attribute a) d (set_attr a d)
  unfolding show_attribute parse_field
  attribute-Prints a d is =
      line-Prints is_utf8 parse_ip b'a' (a.name ++ value_text a.value) d (set_attr a d) refl
        λ after s h. setting-Yields set_attr d _ a (eol after) (
          parse_attribute-Yields is_utf8 a after s
            (h.0, h.1 ∙ append_assoc a.name (value_text a.value) (eol after)) is)

  repeat_at-concat :
      (xs : List TimeDescription) (t : TimeDescription) (r : RepeatTimes) (d : SessionDescription)
      → repeat_at (xs ++ t ∷ []) r d
        ≡ ok (record d { time = xs ++ record t { repeat_times = t.repeat_times ++ r ∷ [] } ∷ [] })
  unfolding set_repeat_times
  repeat_at-concat [] t r d = unfold change_last in refl
  repeat_at-concat (x ∷ xs) t r d =
      ap (λ ts. ok (record d { time = ts }))
        (change_last-concat (λ t. record t { repeat_times = t.repeat_times ++ r ∷ [] }) (x ∷ xs) t)

  repeat-Prints :
      (xs : List TimeDescription) (t : TimeDescription) (r : RepeatTimes) (d : SessionDescription)
      → IsRepeat r
      → Leads
          (show_repeat r)
          (record d { time = xs ++ t ∷ [] })
          (record d { time = xs ++ record t { repeat_times = t.repeat_times ++ r ∷ [] } ∷ [] })
  unfolding show_repeat parse_field set_repeat_times
  repeat-Prints xs t r d is = line-Prints is_utf8 parse_ip b'r' _ _ _ refl λ after s h.
      let (s', e, h') = parse_repeat_times-Yields r after s (h.0, h.1 ∙ repeat_body r after) is in
      (s', rw (e, repeat_at-concat xs t r (record d { time = xs ++ t ∷ [] })) refl, h')

  pub time-Prints :
      (xs : List TimeDescription) (t : TimeDescription) (d : SessionDescription)
      → IsTime t
      → Leads (show_time t) (record d { time = xs }) (record d { time = xs ++ t ∷ [] })
  unfolding show_time parse_field
  time-Prints xs t d is =
      let state : List RepeatTimes → SessionDescription =
        λ rs. record d { time = xs ++ record t { repeat_times = rs } ∷ [] } in
      Prints-append is_utf8 parse_ip _ _ (record d { time = xs }) (state []) (state t.repeat_times)
        (line-Prints is_utf8 parse_ip b't' _ (record d { time = xs }) (state []) refl
          λ after s h.
            setting-Yields set_time_desc (record d { time = xs }) (parse_time s) _ (eol after)
              (parse_time-Yields t.time_active.start_time t.time_active.stop_time after s
                (
                  h.0,
                  h.1
                      ∙ append_assoc (decimal t.time_active.start_time)
                          (32 ∷ decimal t.time_active.stop_time) (eol after),
                )
                is.start is.stop))
        (list-Prints show_repeat IsRepeat state
          (λ rs r is. repeat-Prints xs (record t { repeat_times = rs }) r d is) t.repeat_times
          is.repeats)
