-- ===== src/Rtmp/Chunk/RoundTrip.antt =====
-- `split_rtmp` hands on the message that `send_rtmp` wrote.
use streaming.Prelude.{
  ℕ, zero, suc, ◌+◌, ◌-◌, ◌%◌, ◌^◌, ◌≤◌, ◌<◌, ◌≡◌, refl, sym, ap, ◌∙◌, arith, false, List, [], ◌++◌,
  length, ◌==◌, take, drop, min, length-append, length-take, length-drop, append_assoc,
  take-append-drop, take-all, drop-all, drop-drop, drop-append, ==_refl,
}
use streaming.Prelude.Outcome.{Result, ok, ◌>>=◌}
use native.Mathlib.Decide.{dec_le}
use streaming.Rtmp.Packet.{Packet}
use streaming.Rtmp.Chunk.{Protocol, extended_stamp}
use streaming.Rtmp.Chunk.Round.{
  append_chunk, store, finish, now_packet, behind_header, follow, split_rtmp,
}
use streaming.Rtmp.Chunk.Stops.{split_rtmp-round}
use streaming.Rtmp.Chunk.Header.{round-further, further}
use streaming.Rtmp.Chunk.Framing.{counted, behind_header-takes, append_chunk-fields}
use streaming.Rtmp.Chunk.Delivery.{Delivery, Keeps}
use streaming.Rtmp.Chunk.Pending.{
  base_of, chunks_of, last_chunk, Pending, send_chunks-nil, next_chunk, send_chunks-further, later,
}

module _ {M : Type 0} (handle : Protocol M → Packet → Result (Protocol M)) (id ts base : ℕ)
    (rest : List ℕ) (lo : 2 ≤ id) (hi : id < 64) (fits : ts < 2 ^ 32) where
  -- The packet and what is left, after the chunk behind `skip` bytes at `ptr`.
  module _ (fuel skip : ℕ) (st : Protocol M) (p : Packet) (bs ptr : List ℕ)
      (v : Pending handle id ts base rest lo hi fits st p bs) (within : skip ≤ length ptr)
      (at : drop skip ptr
        ≡ next_chunk handle id ts base rest lo hi fits fuel st.chunk_size_in bs) where
    abbrev n : ℕ
    n = min st.chunk_size_in (length bs)

    abbrev tail : List ℕ
    tail = chunks_of handle id ts base rest lo hi fits fuel st.chunk_size_in false (drop n bs)

    abbrev q : ℕ × Packet
    q = append_chunk (skip + length (extended_stamp ts)) n p ptr

    abbrev after : Protocol M
    after = counted q.0 (store id q.1 st)

    takes : behind_header id skip p ptr st ≡ ok (finish id ts q.1 tail after)
    takes =
        behind_header-takes st p ptr bs tail id ts v.no_window v.sized v.short skip within fits
          v.delta at

    q-fields :
        q.1 ≡ record p { buf = p.buf ++ take n bs; pkt_header_length = q.1.pkt_header_length }
    q-fields =
        let k = skip + length (extended_stamp ts) in
        append_chunk-fields st p ptr bs tail id ts v.no_window v.sized v.short k (
          sym (drop-drop skip (length (extended_stamp ts)) k ptr refl)
          ∙ ap (drop (length (extended_stamp ts))) at
          ∙ drop-append (length (extended_stamp ts)) (extended_stamp ts) _ refl)

    -- The chunk takes all that is to come.
    deliver-last :
        length bs ≤ st.chunk_size_in
        → Delivery handle id
            ((ts + base) % 2 ^ 32)
            rest
            st
            p.msg_type_id
            p.msg_stream_id
            (p.buf ++ bs)
            (behind_header id skip p ptr st >>= follow handle (split_rtmp handle) ptr)
    deliver-last h =
        let all : take n bs ≡ bs = take-all n bs (omega arith) in
        let none_left : drop n bs ≡ [] = drop-all n bs (omega arith) in
        let ends : tail ≡ rest =
          ap (chunks_of handle id ts base rest lo hi fits fuel st.chunk_size_in false) none_left
          ∙ send_chunks-nil handle id ts base rest lo hi fits fuel st.chunk_size_in in
        let f = q-fields in
        let b : q.1.buf ≡ p.buf ++ bs = ap (λ r. r.buf) f ∙ ap (λ l. p.buf ++ l) all in
        let l : q.1.msg_length ≡ length (p.buf ++ bs) =
          ap (λ r. r.msg_length) f ∙ v.sized ∙ sym (length-append p.buf bs) in
        rw takes (
          rw ends (
            last_chunk handle id ts base rest lo hi fits st p q.1 q.0 ptr (p.buf ++ bs)
              (omega (arith, v.more, length-append p.buf bs)) b l (ap base_of f ∙ v.based)
              (ap (λ r. r.chunk_stream_id) f ∙ v.named) (ap (λ r. r.msg_type_id) f)
              (ap (λ r. r.msg_stream_id) f)))

    -- The state in which the next chunk is read.
    abbrev next_state : Protocol M
    next_state = store id q.1 (record after { chunk_stream_id = id })

    next_state-Keeps : Keeps id st next_state
    next_state-Keeps = record {
      size_in = refl;
      size_out = refl;
      stages = refl;
      transaction = refl;
      sending = refl;
      window = refl;
      medium = refl;
      others = λ j h. ground arith;
    }

    more_to_come :
        st.chunk_size_in < length bs
        → Pending handle id ts base rest lo hi fits next_state q.1 (drop n bs)
    more_to_come h =
        let f = q-fields in
        let left : length (drop n bs) ≡ length bs - st.chunk_size_in =
          omega (arith, length-drop n bs) in
        let got : length q.1.buf ≡ length p.buf + st.chunk_size_in =
          ap (λ r. length r.buf) f
          ∙ omega (arith, length-append p.buf (take n bs), length-take n bs) in
        let whole : q.1.msg_length ≡ p.msg_length = ap (λ r. r.msg_length) f in
        record {
          more = omega (arith, left);
          no_window = v.no_window;
          sized = omega (arith, whole, got, left, v.sized);
          short = omega (arith, whole, v.short);
          based = ap base_of f ∙ v.based;
          named = ap (λ r. r.chunk_stream_id) f ∙ v.named;
          delta = ap (λ r. r.ts_delta) f ∙ v.delta;
          chunk_size = v.chunk_size;
        }

    -- The chunk leaves more to come, and the loop gets to the next one.
    goes_on :
        (f : ℕ)
        → fuel ≡ suc f
        → st.chunk_size_in < length bs
        → (let next = next_chunk handle id ts base rest lo hi fits f st.chunk_size_in (drop n bs) in
            (behind_header id skip p ptr st >>= follow handle (split_rtmp handle) ptr) ≡ (
              behind_header id 1 q.1 (further id next) next_state
              >>= follow handle (split_rtmp handle) (further id next)))
    goes_on f e h =
        let w = more_to_come h in
        let next = next_chunk handle id ts base rest lo hi fits f st.chunk_size_in (drop n bs) in
        let open_still : (q.1.msg_length == length q.1.buf) ≡ false =
          ground (arith, w.sized, w.more) in
        let tail-next : tail ≡ further id next =
          ap
            (λ (k : ℕ).
              chunks_of handle id ts base rest lo hi fits k st.chunk_size_in false (drop n bs))
            e
          ∙ send_chunks-further handle id ts base rest lo hi fits f st.chunk_size_in (drop n bs)
              w.more in
        let now : now_packet after.memory (after.chunked_data_map id) ≡ q.1 =
          unfold now_packet in rw (==_refl id) in
        rw takes (
          unfold finish follow in
          rw open_still (
            rw tail-next (
              split_rtmp-round handle after (id + 192) next
              ∙ ap (λ r. r >>= follow handle (split_rtmp handle) (further id next))
                  (round-further id next after q.1 lo hi now w.named))))

  -- What is to come of a message is taken chunk by chunk, and then the message is handled.
  pub deliver :
      (fuel skip : ℕ) (st : Protocol M) (p : Packet) (bs ptr : List ℕ)
      → Pending handle id ts base rest lo hi fits st p bs
      → length bs ≤ suc fuel
      → skip ≤ length ptr
      → drop skip ptr ≡ next_chunk handle id ts base rest lo hi fits fuel st.chunk_size_in bs
      → Delivery handle id
          ((ts + base) % 2 ^ 32)
          rest
          st
          p.msg_type_id
          p.msg_stream_id
          (p.buf ++ bs)
          (behind_header id skip p ptr st >>= follow handle (split_rtmp handle) ptr)
  deliver zero skip st p bs ptr v enough within at =
      deliver-last zero skip st p bs ptr v within at (omega (arith, v.chunk_size))
  deliver (suc f) skip st p bs ptr v enough within at = elim (dec_le (length bs) st.chunk_size_in) [
    | yes h ↦ deliver-last (suc f) skip st p bs ptr v within at h
    | no h ↦
        let more : st.chunk_size_in < length bs = omega arith in
        let c = min st.chunk_size_in (length bs) in
        let p' = (q (suc f) skip st p bs ptr v within at).1 in
        let next = next_chunk handle id ts base rest lo hi fits f st.chunk_size_in (drop c bs) in
        let f' = q-fields (suc f) skip st p bs ptr v within at in
        later handle id ts base rest lo hi fits st (next_state (suc f) skip st p bs ptr v within at)
          p p' _ _ _ _ (next_state-Keeps (suc f) skip st p bs ptr v within at)
          (ap (λ r. r.msg_type_id) f') (ap (λ r. r.msg_stream_id) f')
          (ap (λ r. r.buf ++ drop c bs) f'
            ∙ append_assoc p.buf (take c bs) (drop c bs)
            ∙ ap (λ l. p.buf ++ l) (take-append-drop c bs))
          (goes_on (suc f) skip st p bs ptr v within at f refl more)
          (deliver f 1 (next_state (suc f) skip st p bs ptr v within at) p' (drop c bs)
            (further id next) (more_to_come (suc f) skip st p bs ptr v within at more)
            (omega (arith, length-drop c bs, v.chunk_size)) (omega arith) refl)
  ]
