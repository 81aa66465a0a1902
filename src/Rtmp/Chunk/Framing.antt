-- ===== src/Rtmp/Chunk/Framing.antt =====
-- What one round of `split_rtmp` makes of a chunk that `send_rtmp` writes behind its headers.
use streaming.Prelude.{
  ℕ, ◌+◌, ◌-◌, ◌%◌, ◌^◌, ◌≤◌, ◌<◌, ◌≡◌, refl, sym, ap, ◌∙◌, arith, true, false, List, ◌++◌, length,
  leb, ◌==◌, if◌then◌else◌, take, drop, min, length-append, length-take, length-drop, drop-drop,
  take-append, drop-append, ge→ltb, le→leb, gt→leb,
}
use streaming.Prelude.Outcome.{ok}
use streaming.Util.Bytes.{set_be32, load_be32}
use streaming.Util.Bytes.Laws.{load_be32-set_be32}
use native.Mathlib.Decide.{dec_le}
use native.Mathlib.Nat.{add-zero}
use streaming.Rtmp.Packet.{Packet, size, set_pkt_header_length}
use streaming.Rtmp.Chunk.{Protocol, extended_stamp}
use streaming.Rtmp.Chunk.Round.{
  append_chunk, store, wanted, finish, take_chunk, payload, behind_header, count_received,
}

-- Without a window the count of received bytes is all that changes.
abbrev pub counted : {M : Type 0} → ℕ → Protocol M → Protocol M
counted n st = record st { bytes_recv = (st.bytes_recv + n % 2 ^ 32) % 2 ^ 64 }

pub count_received-no_window :
    {M : Type 0} (n : ℕ) (st : Protocol M)
    → st.windows_size ≡ 0
    → count_received n st ≡ ok (counted n st)
unfolding count_received
count_received-no_window n st w = rw (ge→ltb 0 st.windows_size (omega arith))

-- `bs` begins with the chunk's payload, and `tail` is what follows the chunk.
module _ {M : Type 0} (st : Protocol M) (p : Packet) (ptr bs tail : List ℕ) (id ts : ℕ)
    (no_window : st.windows_size ≡ 0) (rest_of : p.msg_length ≡ length p.buf + length bs)
    (short : p.msg_length < 2 ^ 24) where
  abbrev pub taken : ℕ
  taken = min st.chunk_size_in (length bs)

  wanted-eq : wanted st.chunk_size_in p ≡ taken
  unfolding wanted
  wanted-eq = omega arith

  payload-takes :
      (skip : ℕ)
      → skip ≤ length ptr
      → drop skip ptr ≡ take taken bs ++ tail
      → payload id ts skip p ptr st ≡ (
          let q = append_chunk skip taken p ptr in
          ok (finish id ts q.1 tail (counted q.0 (store id q.1 st))))
  payload-takes skip within at =
      let q = append_chunk skip taken p ptr in
      let n : taken ≡ length (take taken bs) = omega (arith, length-take taken bs) in
      let whole : length ptr - skip ≡ taken + length tail =
        omega (arith, length-drop skip ptr, ap length at, length-append (take taken bs) tail, n) in
      let left : drop (skip + taken) ptr ≡ tail =
        sym (drop-drop skip taken (skip + taken) ptr refl)
        ∙ ap (drop taken) at
        ∙ drop-append taken (take taken bs) tail n in
      unfold payload take_chunk in
      rw wanted-eq (
        rw (ge→ltb (length ptr) (skip + taken) (omega (arith, whole)))
          (rw (count_received-no_window q.0 (store id q.1 st) no_window) (rw left)))

  extended-takes :
      (skip : ℕ)
      → skip ≤ length ptr
      → ts < 2 ^ 32
      → p.ts_delta ≡ 0xFFFFFF
      → drop skip ptr ≡ set_be32 ts ++ (take taken bs ++ tail)
      → behind_header id skip p ptr st ≡ (
          let q = append_chunk (skip + 4) taken p ptr in
          ok (finish id ts q.1 tail (counted q.0 (store id q.1 st))))
  extended-takes skip within fits delta at =
      let stamp : load_be32 (drop skip ptr) ≡ ts =
        rw at (load_be32-set_be32 ts (take taken bs ++ tail) fits) in
      let four : length (set_be32 ts ++ (take taken bs ++ tail))
          ≡ 4 + length (take taken bs ++ tail) =
        unfold set_be32 in omega arith in
      let marked : (p.ts_delta == 0xFFFFFF) ≡ true = ground arith in
      let room : skip + 4 ≤ length ptr = omega (arith, length-drop skip ptr, ap length at, four) in
      let body : drop (skip + 4) ptr ≡ take taken bs ++ tail =
        sym (drop-drop skip 4 (skip + 4) ptr refl) ∙ ap (drop 4) at ∙ (unfold set_be32 in refl) in
      unfold behind_header in
      rw (marked, ge→ltb (length ptr) (skip + 4) room, stamp) (payload-takes (skip + 4) room body)

  -- The chunk is taken: its payload joins the packet, and the loop goes on at `tail`.
  pub behind_header-takes :
      (skip : ℕ)
      → skip ≤ length ptr
      → ts < 2 ^ 32
      → p.ts_delta ≡ (if leb 0xFFFFFF ts then 0xFFFFFF else ts)
      → drop skip ptr ≡ extended_stamp ts ++ (take taken bs ++ tail)
      → behind_header id skip p ptr st ≡ (
          let q = append_chunk (skip + length (extended_stamp ts)) taken p ptr in
          ok (finish id ts q.1 tail (counted q.0 (store id q.1 st))))
  behind_header-takes skip within fits delta at = elim (dec_le 0xFFFFFF ts) [
    | yes h ↦
        let e : leb 0xFFFFFF ts ≡ true = le→leb 0xFFFFFF ts h in
        rw e (unfold set_be32 in (extended-takes skip within fits (rw e at delta) (rw e at at)))
    | no h ↦
        let e : leb 0xFFFFFF ts ≡ false = gt→leb 0xFFFFFF ts (omega arith) in
        let plain : p.ts_delta ≡ ts = rw e at delta in
        let small : (p.ts_delta == 0xFFFFFF) ≡ false = ground arith in
        rw e (
          unfold behind_header in
          rw (small, add-zero skip)
            (ap (λ (t : ℕ). payload id t skip p ptr st) plain
              ∙ payload-takes skip within (rw e at at)))
  ]

  -- The packet with the chunk's payload.
  pub append_chunk-fields :
      (skip : ℕ)
      → drop skip ptr ≡ take taken bs ++ tail
      → (append_chunk skip taken p ptr).1 ≡ record p {
        buf = p.buf ++ take taken bs;
        pkt_header_length = (append_chunk skip taken p ptr).1.pkt_header_length;
      }
  append_chunk-fields skip at =
      let joined : take taken (drop skip ptr) ≡ take taken bs =
        ap (take taken) at
        ∙ take-append taken (take taken bs) tail (omega (arith, length-take taken bs)) in
      unfold append_chunk size set_pkt_header_length in ground (arith, joined)
