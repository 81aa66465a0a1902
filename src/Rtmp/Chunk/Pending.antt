-- ===== src/Rtmp/Chunk/Pending.antt =====
-- A message of which some chunks are still to come, and its last chunk.
use streaming.Prelude.{
  ℕ, zero, suc, ◌+◌, ◌%◌, ◌^◌, ◌≤◌, ◌<◌, ◌≡◌, refl, ap, ◌∙◌, arith, Bool, true, false, List, [],
  ◌∷◌, ◌++◌, length, leb, ◌==◌, if◌then◌else◌, take, drop, min, append_assoc, ==_refl,
}
use streaming.Prelude.Outcome.{Result}
use streaming.Rtmp.Packet.{Packet}
use streaming.Rtmp.Chunk.{Protocol, extended_stamp, send_chunks}
use streaming.Rtmp.Chunk.Round.{store, completed, closed, finish, follow, split_rtmp}
use streaming.Rtmp.Chunk.Header.{further}
use streaming.Rtmp.Chunk.Framing.{counted}
use streaming.Rtmp.Chunk.Delivery.{Delivery, Keeps, Keeps-trans, closed-Keeps, store-Keeps}

-- What the time stamp of a message is counted from.
abbrev pub base_of : Packet → ℕ
base_of p = if p.is_abs_stamp then 0 else p.time_stamp

module _ {M : Type 0} (handle : Protocol M → Packet → Result (Protocol M)) (id ts base : ℕ)
    (rest : List ℕ) (lo : 2 ≤ id) (hi : id < 64) (fits : ts < 2 ^ 32) where
  abbrev pub chunks_of : ℕ → ℕ → Bool → List ℕ → List ℕ
  chunks_of fuel size is_first bs = send_chunks fuel id size (extended_stamp ts) is_first bs ++ rest

  -- The last chunk of a message.
  pub last_chunk :
      (st : Protocol M) (p q : Packet) (n : ℕ) (ptr bytes : List ℕ)
      → 0 < length bytes
      → q.buf ≡ bytes
      → q.msg_length ≡ length bytes
      → base_of q ≡ base
      → q.chunk_stream_id ≡ id
      → q.msg_type_id ≡ p.msg_type_id
      → q.msg_stream_id ≡ p.msg_stream_id
      → Delivery handle id
          ((ts + base) % 2 ^ 32)
          rest
          st
          p.msg_type_id
          p.msg_stream_id
          bytes
          (follow handle (split_rtmp handle) ptr (finish id ts q rest (counted n (store id q st))))
  last_chunk st p q n ptr bytes pos b l a c k s =
      let whole : (q.msg_length == length q.buf) ≡ true = rw (b, l) (==_refl (length bytes)) in
      let some_bytes : (q.msg_length == 0) ≡ false = ground arith in
      let st' = counted n (store id q st) in
      record {
        state = closed id (completed ts q) st';
        packet = completed ts q;
        result = unfold finish follow in rw (whole, some_bytes);
        keeps = Keeps-trans (store-Keeps id n q st) (closed-Keeps id (completed ts q) st');
        free = rw (==_refl id);
        context = rw (==_refl id);
        contents = b;
        kind = k;
        stream = s;
        chunk_stream = c;
        stamp = ap (λ (k : ℕ). (ts + k) % 2 ^ 32) a;
      }

  -- The packet and the state of a message of which `bs` is still to come.
  pub record Pending (st : Protocol M) (p : Packet) (bs : List ℕ) : Type 0 where
    pub more : 0 < length bs
    pub no_window : st.windows_size ≡ 0
    pub sized : p.msg_length ≡ length p.buf + length bs
    pub short : p.msg_length < 2 ^ 24
    pub based : base_of p ≡ base
    pub named : p.chunk_stream_id ≡ id
    pub delta : p.ts_delta ≡ (if leb 0xFFFFFF ts then 0xFFFFFF else ts)
    pub chunk_size : 0 < st.chunk_size_in

  pub send_chunks-nil : (fuel size : ℕ) → chunks_of fuel size false [] ≡ rest
  unfolding send_chunks
  send_chunks-nil zero size = refl
  send_chunks-nil (suc fuel) size = refl

  -- What `send_rtmp` writes for the next chunk.
  abbrev pub next_chunk : ℕ → ℕ → List ℕ → List ℕ
  next_chunk fuel size l =
      extended_stamp ts
      ++ (take (min size (length l)) l ++ chunks_of fuel size false (drop (min size (length l)) l))

  pub send_chunks-further :
      (fuel size : ℕ) (l : List ℕ)
      → 0 < length l
      → chunks_of (suc fuel) size false l ≡ further id (next_chunk fuel size l)
  unfolding send_chunks
  send_chunks-further fuel size [] h = absurd (omega arith)
  send_chunks-further fuel size (b ∷ bs) h =
      let n = min size (length (b ∷ bs)) in
      let after = send_chunks fuel id size (extended_stamp ts) false (drop n (b ∷ bs)) in
      ap (λ l. (id + 192) ∷ l)
        (append_assoc (extended_stamp ts) (take n (b ∷ bs) ++ after) rest
          ∙ ap (λ l. extended_stamp ts ++ l) (append_assoc (take n (b ∷ bs)) after rest))

  -- The step from a chunk to the next.
  pub later :
      (st st' : Protocol M) (p q : Packet) (bytes bytes' : List ℕ)
      (out out' : Result (Protocol M × List ℕ))
      → Keeps id st st'
      → q.msg_type_id ≡ p.msg_type_id
      → q.msg_stream_id ≡ p.msg_stream_id
      → bytes' ≡ bytes
      → out ≡ out'
      → Delivery handle id ((ts + base) % 2 ^ 32) rest st' q.msg_type_id q.msg_stream_id bytes' out'
      → Delivery handle id ((ts + base) % 2 ^ 32) rest st p.msg_type_id p.msg_stream_id bytes out
  later st st' p q bytes bytes' out out' k t s b o d = record {
    state = d.state;
    packet = d.packet;
    result = o ∙ d.result;
    keeps = Keeps-trans k d.keeps;
    free = d.free;
    context = d.context;
    contents = d.contents ∙ b;
    kind = d.kind ∙ t;
    stream = d.stream ∙ s;
    chunk_stream = d.chunk_stream;
    stamp = d.stamp;
  }
