-- ===== src/Flv/Muxer/Reader.antt =====
-- The bytes that a client gets, read by a reader that knows the FLV format only.
use streaming.Prelude.{
  ℕ, zero, suc, ◌+◌, ◌*◌, ◌/◌, ◌%◌, ◌^◌, ◌<◌, ◌≡◌, refl, sym, ap, ◌∙◌, arith, Bool, true, false,
  ◌&&◌, not, List, [], ◌∷◌, ◌++◌, All, append_assoc, length, ltb, ◌==◌, ==_refl, if◌then◌else◌,
  Bool-cases, inl, inr,
}
use streaming.Prelude.Outcome.{Result, ok, err, ◌>>=◌, ◌>>◌, throw_if, invalid_flv, out_of_fuel}
use streaming.Prelude.Words.{put32}
use streaming.Network.Unread.{read, read_string}
use streaming.Network.Unread.Laws.{read_byte, read-put24, read-put32, read_string-append}
use streaming.Util.Bytes.{set_be24}
use streaming.Rtmp.Packet.{Packet}
use streaming.Flv.Muxer.{write_flv, prepare_flv_tag_header, for_each, read_cb}

pub record Tag : Type 0 where
  pub kind : ℕ
  pub time_stamp : ℕ
  pub body : List ℕ

-- A tag with the size that stands behind it, which has to be its own.
unfoldable read_tag : List ℕ → Result (Tag × List ℕ)
unfolding read read_string
read_tag bytes = do
  (kind, u1) ← read 1 bytes
  (size, u2) ← read 3 u1
  (low, u3) ← read 3 u2
  (high, u4) ← read 1 u3
  (stream_id, u5) ← read 3 u4
  (body, u6) ← read_string size u5
  (previous, u7) ← read 4 u6
  throw_if (not (previous == 11 + size)) invalid_flv
  ok (record { kind = kind; time_stamp = high * 2 ^ 24 + low; body = body }, u7)

unfoldable pub read_tags : ℕ → List ℕ → Result (List Tag)
unfolding read_tag
read_tags zero bytes = err out_of_fuel
read_tags (suc fuel) [] = ok []
read_tags (suc fuel) (b ∷ bs) = do
  (tag, rest) ← read_tag (b ∷ bs)
  tags ← read_tags fuel rest
  ok (tag ∷ tags)

-- What a tag can hold.
pub record Fits (kind : ℕ) (body : List ℕ) (time_stamp : ℕ) : Type 0 where
  pub byte : kind < 2 ^ 8
  pub some_bytes : 0 < length body
  pub few_bytes : length body < 2 ^ 24
  pub time : time_stamp < 2 ^ 32

-- The bytes of a tag.
abbrev pub tag_bytes : ℕ → List ℕ → ℕ → List ℕ
tag_bytes kind body time_stamp =
    prepare_flv_tag_header kind (length body) time_stamp ++ (body ++ put32 (11 + length body))

module _ (t : ℕ) (body : List ℕ) (ts : ℕ) (f : Fits t body ts) where
  write_flv-tag_bytes : write_flv t body ts ≡ ok (tag_bytes t body ts)
  unfolding write_flv prepare_flv_tag_header set_be24
  write_flv-tag_bytes =
      let full : (length body == 0) ≡ false = ground (arith, f.some_bytes) in
      let whole : (11 + length body) % 2 ^ 32 ≡ 11 + length body = omega (arith, f.few_bytes) in
      rw (full, whole) refl

  read_tag-tag_bytes :
      (rest : List ℕ)
      → read_tag (tag_bytes t body ts ++ rest)
        ≡ ok (record { kind = t; time_stamp = ts; body = body }, rest)
  unfolding read_tag prepare_flv_tag_header set_be24
  read_tag-tag_bytes rest =
      let n = length body in
      let tail = put32 (11 + n) ++ rest in
      let high = ts / 2 ^ 24 % 2 ^ 8 in
      let kind : t % 2 ^ 8 ≡ t = omega (arith, f.byte) in
      let size : n % 2 ^ 32 ≡ n = omega (arith, f.few_bytes) in
      let time : high * 2 ^ 24 + ts % 2 ^ 24 ≡ ts = omega (arith, f.time) in
      let from_id = 0 ∷ 0 ∷ 0 ∷ (body ++ tail) in
      let from_low = set_be24 (ts % 2 ^ 24) ++ (high ∷ from_id) in
      rw
        (
          kind,
          size,
          append_assoc body (put32 (11 + n)) rest,
          read_byte t (set_be24 n ++ from_low),
          read-put24 n from_low (omega (arith, f.few_bytes)),
          read-put24 (ts % 2 ^ 24) (high ∷ from_id) (omega arith),
          read_byte high from_id,
          read-put24 0 (body ++ tail) (omega arith),
          read_string-append n body tail refl,
          read-put32 (11 + n) rest (omega (arith, f.few_bytes)),
          ==_refl (11 + n),
          time,
        )
        refl

-- A packet as its tag, and whether the client's start time leaves it out.
abbrev pub tag_of : Packet → Tag
tag_of pkt = record { kind = pkt.msg_type_id; time_stamp = pkt.time_stamp; body = pkt.buf }

abbrev too_early : ℕ → Packet → Bool
too_early start_pts pkt = ltb 0 start_pts && ltb pkt.time_stamp start_pts

abbrev pub played : ℕ → List Packet → List Tag
played start_pts [] = []
played start_pts (pkt ∷ pkts) =
    let later = played start_pts pkts in
    if too_early start_pts pkt then later else tag_of pkt ∷ later

abbrev pub FitsTag : Packet → Type 0
FitsTag pkt = Fits pkt.msg_type_id pkt.buf pkt.time_stamp

read_tags-tag_bytes :
    (fuel : ℕ) (pkt : Packet) (more : List ℕ) (tags : List Tag)
    → FitsTag pkt
    → read_tags fuel more ≡ ok tags
    → read_tags (suc fuel) (tag_bytes pkt.msg_type_id pkt.buf pkt.time_stamp ++ more)
      ≡ ok (tag_of pkt ∷ tags)
unfolding read_tags prepare_flv_tag_header
read_tags-tag_bytes fuel pkt more tags fits done =
    ap
      (λ (r : Result (Tag × List ℕ)).
        r >>= (λ (tag, rest). read_tags fuel rest >>= (λ later. ok (tag ∷ later))))
      (read_tag-tag_bytes pkt.msg_type_id pkt.buf pkt.time_stamp fits more)
    ∙ rw done refl

read_cb-tag_bytes :
    (start_pts : ℕ) (pkt : Packet)
    → FitsTag pkt
    → too_early start_pts pkt ≡ false
    → read_cb true start_pts pkt ≡ ok (tag_bytes pkt.msg_type_id pkt.buf pkt.time_stamp)
unfolding read_cb
read_cb-tag_bytes start_pts pkt fits late =
    let kind : pkt.msg_type_id % 2 ^ 8 ≡ pkt.msg_type_id = omega (arith, fits.byte) in
    rw late (
      ap (λ (t : ℕ). write_flv t pkt.buf pkt.time_stamp) kind
      ∙ write_flv-tag_bytes pkt.msg_type_id pkt.buf pkt.time_stamp fits)

read_cb-early :
    (start_pts : ℕ) (pkt : Packet)
    → too_early start_pts pkt ≡ true
    → read_cb true start_pts pkt ≡ ok []
unfolding read_cb
read_cb-early start_pts pkt early = rw early refl

read_tags-nil : (fuel : ℕ) → read_tags (suc fuel) [] ≡ ok []
unfolding read_tags
read_tags-nil fuel = refl

-- For packets that fit a tag (a type of 8 bits, 1 to 2^24 - 1 bytes, a time stamp of 32 bits), no
-- call of the callback throws, and what all of them send is read back as exactly the packets that
-- the client's start time lets through: type, time stamp and body, in their order. The reader has
-- more fuel than there are packets.
pub for_each-read_cb :
    (start_pts : ℕ) (pkts : List Packet) (fuel : ℕ)
    → All FitsTag pkts
    → length pkts < fuel
    → (bytes : List ℕ) × (for_each (read_cb true start_pts) pkts ≡ ok bytes)
      × (read_tags fuel bytes ≡ ok (played start_pts pkts))
unfolding for_each
for_each-read_cb start_pts pkts zero fits room = absurd (omega arith)
for_each-read_cb start_pts [] (suc fuel) fits room = ([], refl, read_tags-nil fuel)
for_each-read_cb start_pts (pkt ∷ pkts) (suc fuel) (fit, fits) room =
    elim (Bool-cases (too_early start_pts pkt)) [
      | inl early ↦
          let (more, sent, tags) = for_each-read_cb start_pts pkts (suc fuel) fits (omega arith) in
          (
            more,
            rw (read_cb-early start_pts pkt early, sent) refl,
            tags ∙ ap ok (ap (λ b. if b then later else tag_of pkt ∷ later) (sym early)),
          )
      | inr late ↦
          let (more, sent, tags) = for_each-read_cb start_pts pkts fuel fits (omega arith) in
          (
            tag_bytes pkt.msg_type_id pkt.buf pkt.time_stamp ++ more,
            rw (read_cb-tag_bytes start_pts pkt fit late, sent) refl,
            read_tags-tag_bytes fuel pkt more later fit tags
                ∙ ap ok (ap (λ b. if b then later else tag_of pkt ∷ later) (sym late)),
          )
    ]
  where
    later : List Tag
    later = played start_pts pkts
