-- ===== src/Media/Session/Readers.antt =====
-- rssip-media/src/rtp/mod.rs: what the reader tasks offer to the channel, and where they end.
use rssip.Prelude.{◌≡◌, refl, sym, ap, ◌∙◌, Bool, true, false, Text, List, [], ◌∷◌, if◌then◌else◌}
use rssip.Error.{Result, ok, err, panic}
use rssip.Media.Session.{
  RtpMessage, ReadEvent, shutdown, refused, failed, received, SendOutcome, taken, full, closed,
  ReadTurn, Reader, running, stopped, panicked, continued, deliver, read_step, read_loop,
}

abbrev is_closed : SendOutcome → Bool
is_closed closed = true
is_closed _ = false

module _ (parse : Text → Result RtpMessage) where
  abbrev ends_with : Result RtpMessage → SendOutcome → Bool
  ends_with (ok m) outcome = is_closed outcome
  ends_with (err e) outcome = false
  ends_with panic outcome = true

  abbrev ends_in : ReadEvent → SendOutcome → Bool
  ends_in shutdown outcome = true
  ends_in refused outcome = false
  ends_in failed outcome = true
  ends_in (received datagram) outcome = ends_with (parse datagram) outcome

  -- The turns that end a reader: the shutdown, a socket error other than a refused connection, a
  -- datagram on which the parser panics, and a message for a closed channel.
  abbrev pub ends : ReadTurn → Bool
  ends t = ends_in t.0 t.1

  -- The turns up to the first that ends the reader, with that one.
  abbrev pub lived : List ReadTurn → List ReadTurn
  lived [] = []
  lived (t ∷ ts) = if ends t then t ∷ [] else t ∷ lived ts

  abbrev with_message : Result RtpMessage → List RtpMessage → List RtpMessage
  with_message (ok m) more = m ∷ more
  with_message (err e) more = more
  with_message panic more = more

  abbrev with_parsed : ReadEvent → List RtpMessage → List RtpMessage
  with_parsed (received datagram) more = with_message (parse datagram) more
  with_parsed _ more = more

  -- What the datagrams parse to, in their order.
  abbrev pub parsed : List ReadTurn → List RtpMessage
  parsed [] = []
  parsed (t ∷ ts) = with_parsed t.0 (parsed ts)

  abbrev by_panic : Result RtpMessage → Reader
  by_panic panic = panicked
  by_panic _ = stopped

  abbrev end_in : ReadEvent → Reader
  end_in (received datagram) = by_panic (parse datagram)
  end_in _ = stopped

  -- How the first turn that ends a reader leaves it.
  abbrev pub end_of : List ReadTurn → Reader
  end_of [] = running
  end_of (t ∷ ts) = if ends t then end_in t.0 else end_of ts

  -- A turn with a datagram, by what it parses to.
  parsed-once :
      (b : Bool) (datagram : Text) (o : SendOutcome) (ts : List ReadTurn)
      → parsed (if b then (received datagram, o) ∷ [] else (received datagram, o) ∷ ts)
        ≡ with_message (parse datagram) (if b then [] else parsed ts)
  parsed-once true datagram o ts = refl
  parsed-once false datagram o ts = refl

  offered-in_order :
      (p : Result RtpMessage) (o : SendOutcome) (later : Reader × List RtpMessage)
      (xs : List RtpMessage) (end : Reader)
      → (later.1 ≡ xs) × (later.0 ≡ end)
      → let (reader, offered) = continued (deliver p o) later in
        (offered ≡ with_message p (if ends_with p o then [] else xs))
        × (reader ≡ (if ends_with p o then by_panic p else end))
  offered-in_order (ok m) closed later xs end (same, last) = (refl, refl)
  offered-in_order (ok m) full later xs end (same, last) = (ap (λ more. m ∷ more) same, last)
  offered-in_order (ok m) taken later xs end (same, last) = (ap (λ more. m ∷ more) same, last)
  offered-in_order (err e) o later xs end (same, last) = (same, last)
  offered-in_order panic o later xs end (same, last) = (refl, refl)

  -- Whatever arrives and however the channel answers, a reader task offers to the channel exactly
  -- what the datagrams parse to, in the order in which they arrive, up to its end and nothing
  -- behind it. It goes on where the channel is full, a datagram does not parse or the connection is
  -- refused; it ends at the first shutdown, other socket error or message for a closed channel, and
  -- with a panic at the first datagram on which its parser panics.
  pub read_loop-in_order :
      (turns : List ReadTurn)
      → let (reader, offered) = read_loop parse turns in
        (offered ≡ parsed (lived turns)) × (reader ≡ end_of turns)
  unfolding read_loop read_step
  read_loop-in_order [] = (refl, refl)
  read_loop-in_order ((shutdown, o) ∷ ts) = (refl, refl)
  read_loop-in_order ((failed, o) ∷ ts) = (refl, refl)
  read_loop-in_order ((refused, o) ∷ ts) = read_loop-in_order ts
  read_loop-in_order ((received datagram, o) ∷ ts) =
      let p = parse datagram in
      let (same, last) =
        offered-in_order p o (read_loop parse ts) (parsed (lived ts)) (end_of ts)
          (read_loop-in_order ts) in
      (same ∙ sym (parsed-once (ends_with p o) datagram o (lived ts)), last)
