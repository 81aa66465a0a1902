-- ===== src/Http/Session/Arrival.antt =====
-- A request to src/protocol/http/http_session.cpp that arrives in parts.
use streaming.Prelude.{
  ℕ, ◌+◌, ◌≤◌, ◌<◌, ◌≡◌, refl, sym, ap, ◌∙◌, subst, arith, true, false, some, List, [], ◌∷◌, ◌++◌,
  append_assoc, append-nil, length, length-append, take, take-append, drop-append, ◌==◌,
}
use streaming.Prelude.Outcome.{ok}
use streaming.Prelude.Sending.{Done}
use streaming.Media.Info.{index_of}
use streaming.Network.Unread.{safe_consume}
use streaming.Network.FlatBuffer.Socket.{length_first, reserve, socket_read_size, max_cache_size}
use streaming.Network.Sessions.Reading.{Received, received, round, do_read}
use streaming.Network.Sessions.Rounds.{Ready, Came, RoomFor, round-Came, do_read-cons, do_read-Came}
use streaming.Http.Protocol.Texts.{packet_tail}
use streaming.Http.Protocol.Lines.{without}
use streaming.Http.Protocol.Tail.{ends_at_nul, index_of-prefix, on_search_packet_tail-head}
use streaming.Http.Protocol.{Protocol, on_head, on_parse_http, on_search_http_handler}
use streaming.Http.Session.{Meets, HttpSession, parse}
use streaming.Http.Session.Parts.{
  Part, all_arrive, Waits, over, part, Waits-prefix, parse-waits, longer, without-prefix,
  on_search_http_handler-ok,
}

-- The head and what else arrives with its end, as the parser takes them.
module _ (head : List ℕ) (k : ℕ) (plain : without 0 head ≡ true)
    (found : index_of packet_tail head ≡ some k) (long : k + 4 ≡ length head) where
  some_head : (length head == 0) ≡ false
  some_head = ground arith

  parse-head :
      (meets : Meets) (more : List ℕ) (p : Protocol)
      → parse meets (head ++ more) p ≡ record {
        sent = (on_search_http_handler meets.around head p).sent;
        state = (on_search_http_handler meets.around head p).state;
        value = ok more;
      }
  unfolding parse on_parse_http on_head safe_consume
  parse-head meets more p =
      let text : take (length head) ((head ++ more) ++ meets.behind) ≡ head =
        ap (take (length head)) (append_assoc head more meets.behind)
        ∙ take-append (length head) head (more ++ meets.behind) refl in
      rw
        (
          on_search_packet_tail-head head more meets.behind k plain found long,
          text,
          on_search_http_handler-ok meets.around p head some_head,
          drop-append (length head) head more refl,
          append-nil (on_search_http_handler meets.around head p).sent,
        )
        refl

  -- The session after a read.
  after : List ℕ → ℕ → Meets → HttpSession → HttpSession
  after bytes now meets s =
      round length_first parse (reserve length_first s.buffer) (received bytes now meets) s

  -- A part that does not complete the head stays in the buffer, and that is all.
  after-Came :
      (buf bytes more rest : List ℕ) (now : ℕ) (meets : Meets) (s : HttpSession)
      → Ready buf s
      → RoomFor buf
      → length bytes ≤ socket_read_size
      → 4 ≤ length (buf ++ bytes)
      → ends_at_nul meets.behind ≡ true
      → (buf ++ bytes) ++ more ≡ head ++ rest
      → length (buf ++ bytes) < length head
      → Came s
          (record { sent = []; state = s.protocol; value = ok (buf ++ bytes) })
          (buf ++ bytes)
          (after bytes now meets s)
  unfolding after
  after-Came buf bytes more rest now meets s ready room fits four ends same short =
      let (z, whole) = longer (buf ++ bytes) head more rest same (omega arith) in
      let quiet =
        parse-waits meets (buf ++ bytes) s.protocol four
          (without-prefix 0 (buf ++ bytes) z (ap (without 0) (sym whole) ∙ plain)) ends
          (index_of-prefix packet_tail (buf ++ bytes) z k
            (ap (index_of packet_tail) (sym whole) ∙ found) (omega arith)) in
      round-Came parse s buf bytes [] (buf ++ bytes) now meets
        (record { sent = []; state = s.protocol; value = ok (buf ++ bytes) }) ready room fits quiet
        refl refl

  after-do_read :
      (bytes : List ℕ) (now : ℕ) (meets : Meets) (es : List (Received Meets)) (s : HttpSession)
      (buf : List ℕ)
      → Ready buf s
      → do_read length_first parse (received bytes now meets ∷ es) s
        ≡ do_read length_first parse es (after bytes now meets s)
  unfolding after
  after-do_read bytes now meets es s buf ready =
      do_read-cons parse (received bytes now meets) es s buf ready

  -- What the handler does with the head.
  Answered : Meets → List ℕ → HttpSession → HttpSession → Type 0
  Answered meets more s s' =
      let answered = on_search_http_handler meets.around head s.protocol in
      Came s (record { sent = answered.sent; state = answered.state; value = ok more }) more s'

  last-Answered :
      (buf bytes more : List ℕ) (now : ℕ) (meets : Meets) (s : HttpSession)
      → Ready buf s
      → RoomFor buf
      → length bytes ≤ socket_read_size
      → RoomFor more
      → buf ++ bytes ≡ head ++ more
      → Answered meets more s (do_read length_first parse (received bytes now meets ∷ []) s)
  unfolding Answered
  last-Answered buf bytes more now meets s ready room fits room' same =
      let answered = on_search_http_handler meets.around head s.protocol in
      let d : Done Protocol (List ℕ) = record {
        sent = answered.sent;
        state = answered.state;
        value = ok more;
      } in
      let parses = ap (λ l. parse meets l s.protocol) same ∙ parse-head meets more s.protocol in
      let came =
        round-Came parse s buf bytes head more now meets d ready room fits parses same refl in
      rw (do_read-cons parse (received bytes now meets) [] s buf ready) (
        do_read-Came parse s
          (round length_first parse (reserve length_first s.buffer) (received bytes now meets) s) d
          more came room')

  -- A session that has come by nothing but bytes answers like the one before.
  Answered-Came :
      (meets : Meets) (more buf : List ℕ) (s s1 s' : HttpSession)
      → Came s (record { sent = []; state = s.protocol; value = ok buf }) buf s1
      → Answered meets more s1 s'
      → Answered meets more s s'
  unfolding Answered
  Answered-Came meets more buf s s1 s' first last =
      let handler = λ (p : Protocol). on_search_http_handler meets.around head p in
      record {
        ready = last.ready;
        sends =
            last.sends
            ∙ ap (λ p. s1.sent ++ (handler p).sent) first.keeps
            ∙ ap (λ l. l ++ (handler s.protocol).sent) (first.sends ∙ append-nil s.sent);
        keeps = last.keeps ∙ ap (λ p. (handler p).state) first.keeps;
        others = last.others ∙ first.others;
      }

  -- By the parts that come before the last, from any unread bytes `buf` on.
  waited-Answered :
      (buf u : List ℕ) (parts : List Part) (bytes more : List ℕ) (now : ℕ) (meets : Meets)
      (s : HttpSession)
      → Ready buf s
      → RoomFor head
      → length bytes ≤ socket_read_size
      → Waits buf parts u
      → length u < length head
      → u ++ bytes ≡ head ++ more
      → Answered meets more s
          (do_read length_first parse (all_arrive (parts ++ ((bytes, (now, meets)) ∷ []))) s)
  waited-Answered buf u parts bytes more now meets s ready room fits (over b) short same =
      let lengths = ap (λ (l : List ℕ). length l) same in
      let behind : length more ≤ socket_read_size =
        omega (arith, lengths, length-append b bytes, length-append head more) in
      last-Answered b bytes more now meets s ready (omega arith) fits (omega (arith, behind)) same
  waited-Answered buf u parts bytes more now meets s ready room fits
        (part b first at met later l four enough ends waits) short same =
      let (gap, whole) = Waits-prefix (b ++ first) l later waits in
      let rest : (b ++ first) ++ (gap ++ bytes) ≡ head ++ more =
        sym (append_assoc (b ++ first) gap bytes) ∙ ap (λ l'. l' ++ bytes) (sym whole) ∙ same in
      let shorter : length (b ++ first) < length head =
        omega (arith, ap (λ (l' : List ℕ). length l') whole, length-append (b ++ first) gap) in
      let small : RoomFor b = omega (arith, length-append b first, shorter) in
      let came =
        after-Came b first (gap ++ bytes) more at met s ready small enough four ends rest shorter in
      let s1 = after first at met s in
      let events = all_arrive (later ++ ((bytes, (now, meets)) ∷ [])) in
      subst (Answered meets more s) (sym (after-do_read first at met events s b ready)) (
        Answered-Came meets more (b ++ first) s s1 (do_read length_first parse events s1) came (
          waited-Answered (b ++ first) l later bytes more now meets s1 came.ready room fits waits
            short same))

-- However the network cuts a head into parts, the session answers it when its last byte is there,
-- and exactly as it would at once: it sends what the handler sends for the head, keeps what the
-- handler leaves, the bytes behind the head and all its sessions, throws nothing and waits for the
-- next request as it waited for this one: open, in a valid buffer of at most twice 4 MiB and one read.
-- The head has no NUL, ends with its first empty line and is, with one more read, not longer than the
-- limit of the buffer; no part is longer than a read, four bytes at least come first, and the memory
-- behind each part but the last begins with a NUL; the compiler computes the length of a read before
-- its place.
pub do_read-Waits :
    (head buf u bytes more : List ℕ) (k : ℕ) (parts : List Part) (now : ℕ) (meets : Meets)
    (s : HttpSession)
    → without 0 head ≡ true
    → index_of packet_tail head ≡ some k
    → k + 4 ≡ length head
    → length head + socket_read_size ≤ max_cache_size
    → Ready buf s
    → Waits buf parts u
    → length u < length head
    → length bytes ≤ socket_read_size
    → u ++ bytes ≡ head ++ more
    → let answered = on_search_http_handler meets.around head s.protocol in
      let s' = do_read length_first parse (all_arrive (parts ++ ((bytes, (now, meets)) ∷ []))) s in
      (s'.sent ≡ s.sent ++ answered.sent)
      × (s'.protocol ≡ answered.state)
      × (s'.manager ≡ s.manager)
      × Ready more s'
unfolding Answered
do_read-Waits head buf u bytes more k parts now meets s plain found long room ready waits short fits
      same =
    let done =
      waited-Answered head k plain found long buf u parts bytes more now meets s ready room fits
        waits short same in
    (done.sends, done.keeps, done.others, done.ready)
