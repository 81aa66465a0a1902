-- ===== src/Network/Sessions/Rounds.antt =====
-- A round of the read loop of network/session.cpp whose buffer has room.
use streaming.Prelude.{
  ℕ, ◌+◌, ◌-◌, ◌≤◌, ◌≡◌, refl, sym, ap, ◌∙◌, arith, true, none, List, [], ◌∷◌, ◌++◌, length,
  length-append, drop-append, if◌then◌else◌,
}
use streaming.Prelude.Outcome.{ok}
use streaming.Prelude.Sending.{Done}
use streaming.Util.Timer.{reset_time}
use streaming.Network.Unread
use streaming.Network.FlatBuffer.{FlatBuffer, unread, unread_length, safe_consume, reset}
use streaming.Network.FlatBuffer.Valid.{IsValid, safe_consume-IsValid}
use streaming.Network.FlatBuffer.Refine.{length-unread, safe_consume_refines}
use streaming.Network.FlatBuffer.Socket.{
  length_first, reserve, reserve_lem, take_over_lem, socket_read_size, max_cache_size, max_capacity,
}
use streaming.Network.Sessions.Reading.{
  Reading, Received, received, Parser, left_over, parsed, on_recv, reads, read_done, round, do_read,
}

safe_consume-capacity : (b : FlatBuffer) (n : ℕ) → (safe_consume b n).capacity ≡ b.capacity
unfolding safe_consume reset
safe_consume-capacity b n = ground arith

-- The bytes that a parser leaves are the unread ones.
left_over-unread :
    (b : FlatBuffer) (front rest : List ℕ)
    → IsValid b
    → unread b ≡ front ++ rest
    → unread (left_over rest b) ≡ rest
unfolding Unread.safe_consume
left_over-unread b front rest v same =
    let k : unread_length b - length rest ≡ length front =
      omega
        (arith, length-unread b v, ap (λ (l : List ℕ). length l) same, length-append front rest) in
    safe_consume_refines b (unread_length b - length rest) v
    ∙ rw (k, same) (drop-append (length front) front rest refl)

-- Room for one more read beside so many unread bytes.
abbrev pub RoomFor : List ℕ → Type 0
RoomFor bytes = length bytes + socket_read_size ≤ max_cache_size

module _ {P : Type 0} where
  -- A session that waits, with `bytes` unread in a valid buffer.
  pub record Ready (bytes : List ℕ) (s : Reading P) : Type 0 where
    pub holds : unread s.buffer ≡ bytes
    pub valid : IsValid s.buffer
    pub bounded : s.buffer.capacity ≤ max_capacity
    pub opened : (s.manager.session s.this).is_open ≡ true
    pub quiet : s.thrown ≡ none

  -- What a session has become by a call of its parser.
  pub record Came (s : Reading P) (d : Done P (List ℕ)) (rest : List ℕ) (s' : Reading P)
      : Type 0 where
    pub ready : Ready rest s'
    pub sends : s'.sent ≡ s.sent ++ d.sent
    pub keeps : s'.protocol ≡ d.state
    pub others : s'.manager ≡ s.manager

module _ {E P : Type 0} (parse : Parser E P) where
  reads-Ready : (bytes : List ℕ) (s : Reading P) → Ready bytes s → reads length_first parse s ≡ true
  reads-Ready bytes s r = rw (r.opened, r.quiet) refl

  parsed-Came :
      (s : Reading P) (b : FlatBuffer) (now : ℕ) (front rest old : List ℕ) (d : Done P (List ℕ))
      → Ready old s
      → IsValid b
      → b.capacity ≤ max_capacity
      → unread b ≡ front ++ rest
      → d.value ≡ ok rest
      → Came s d rest
          (parsed length_first parse d (record s { buffer = b; ticker = reset_time now s.ticker }))
  unfolding parsed
  parsed-Came s b now front rest old d r v cap same done = rw done (record {
    ready = record {
      holds = left_over-unread b front rest v same;
      valid = safe_consume-IsValid b (unread_length b - length rest) v;
      bounded = omega (arith, safe_consume-capacity b (unread_length b - length rest));
      opened = r.opened;
      quiet = r.quiet;
    };
    sends = refl;
    keeps = refl;
    others = refl;
  })

  -- The bytes that arrive stand behind the unread ones, and the parser is given all of them.
  pub round-Came :
      (s : Reading P) (buf bytes front rest : List ℕ) (now : ℕ) (meets : E) (d : Done P (List ℕ))
      → Ready buf s
      → RoomFor buf
      → length bytes ≤ socket_read_size
      → parse meets (buf ++ bytes) s.protocol ≡ d
      → buf ++ bytes ≡ front ++ rest
      → d.value ≡ ok rest
      → Came s d rest
          (round length_first parse (reserve length_first s.buffer) (received bytes now meets) s)
  unfolding read_done on_recv
  round-Came s buf bytes front rest now meets d r room short parses same done =
      let held : unread_length s.buffer ≡ length buf =
        sym (length-unread s.buffer r.valid) ∙ ap (λ (l : List ℕ). length l) r.holds in
      let (b1, reserved, v1, same1, room1, cap1) =
        reserve_lem s.buffer r.valid r.bounded (omega (arith, held)) in
      let (b2, wrote, v2, same2, cap2) = take_over_lem b1 bytes v1 (omega arith) in
      let all : unread b2 ≡ buf ++ bytes = same2 ∙ ap (λ l. l ++ bytes) (same1 ∙ r.holds) in
      rw (reserved, wrote, all, parses)
        (parsed-Came s b2 now front rest buf d r v2 (omega arith) (all ∙ same) done)

  pub do_read-cons :
      (e : Received E) (es : List (Received E)) (s : Reading P) (buf : List ℕ)
      → Ready buf s
      → do_read length_first parse (e ∷ es) s
        ≡ do_read length_first parse es
            (round length_first parse (reserve length_first s.buffer) e s)
  unfolding do_read
  do_read-cons e es s buf r =
      let next =
        do_read length_first parse es
          (round length_first parse (reserve length_first s.buffer) e s) in
      ap (λ b. if b then next else s) (reads-Ready buf s r)

  -- The read behind the last event finds room, too.
  pub do_read-Came :
      (s s' : Reading P) (d : Done P (List ℕ)) (rest : List ℕ)
      → Came s d rest s'
      → RoomFor rest
      → Came s d rest (do_read length_first parse [] s')
  unfolding do_read
  do_read-Came s s' d rest c room =
      let r = c.ready in
      let held : unread_length s'.buffer ≡ length rest =
        sym (length-unread s'.buffer r.valid) ∙ ap (λ (l : List ℕ). length l) r.holds in
      let (b1, reserved, v1, same1, room1, cap1) =
        reserve_lem s'.buffer r.valid r.bounded (omega (arith, held)) in
      rw (reads-Ready rest s' r, reserved)
        (record {
          ready = record {
            holds = same1 ∙ r.holds;
            valid = v1;
            bounded = cap1;
            opened = r.opened;
            quiet = r.quiet;
          };
          sends = c.sends;
          keeps = c.keeps;
          others = c.others;
        })
