-- ===== src/Codec/H264/Config.antt =====
-- `h264_track::parse_config` on the configuration record that an encoder writes.
use streaming.Prelude.{
  ℕ, ◌^◌, ◌<◌, ◌≡◌, refl, sym, arith, true, List, [], ◌∷◌, ◌++◌, length, drop, Option, some, ge→ltb,
  length-append, take-append, drop-append, append-nil, append_assoc,
}
use streaming.Prelude.Outcome.{ok}
use streaming.Prelude.Words.{put16}
use streaming.Network.Unread.{require}
use streaming.Network.Unread.Laws.{read-put16, consume-append}
use streaming.Codec.Frame.{Frame, Track, input_frame}
use streaming.Codec.H264.{
  H264Track, SpsInfo, prefixed, encapsulate_config_frame, extract_bitstream_sps, read_block,
  parse_config,
}

-- A parameter set with its length in front of it.
abbrev pub block : List ℕ → List ℕ
block s = put16 (length s) ++ s

read_block-block : (s u : List ℕ) → length s < 2 ^ 16 → read_block (block s ++ u) ≡ ok (s, u)
unfolding read_block require
read_block-block s u small =
    rw (append_assoc (put16 (length s)) s u, read-put16 (length s) (s ++ u) small)
      (ground (
        arith,
        length-append s u,
        take-append (length s) s u refl,
        drop-append (length s) s u refl,
      ))

-- The frames that a parameter set gives: none if it is empty.
abbrev pub config_frames : List ℕ → List Frame
config_frames [] = []
config_frames (b ∷ bs) = prefixed 0 0 (b ∷ bs) ∷ []

encapsulate_config_frame-frames :
    (s : List ℕ) (t : Track)
    → t.has_translator ≡ true
    → encapsulate_config_frame s t ≡ record t { translated = t.translated ++ config_frames s }
unfolding encapsulate_config_frame input_frame
encapsulate_config_frame-frames [] t h =
    λ i. record t { translated = sym (append-nil t.translated) i }
encapsulate_config_frame-frames (b ∷ bs) t h = rw h refl

-- Six bytes, the sequence parameter set, one byte, the picture parameter set.
abbrev pub config_record : List ℕ → List ℕ → ℕ → List ℕ → List ℕ → List ℕ
config_record head sps one pps rest = head ++ (block sps ++ (one ∷ (block pps ++ rest)))

module _ (parse_sps : List ℕ → Option SpsInfo) where
  -- A record whose two sets are shorter than 2^16 bytes, and whose sequence set has at least four
  -- bytes and is one that the parser takes, is stored as it was written with what the parser says,
  -- and the translator, which the track has, receives one frame for each set that is not empty,
  -- sequence set first; bytes behind the record are ignored.
  pub parse_config-record :
      (head sps pps rest : List ℕ) (one : ℕ) (i : SpsInfo) (t : H264Track)
      → length head ≡ 6
      → length sps < 2 ^ 16
      → length pps < 2 ^ 16
      → 3 < length sps
      → parse_sps (drop 1 sps) ≡ some i
      → t.base.has_translator ≡ true
      → parse_config parse_sps (config_record head sps one pps rest) t
        ≡ ok (record {
          base = record t.base {
            translated = (t.base.translated ++ config_frames sps) ++ config_frames pps;
          };
          sps = sps;
          pps = pps;
          info = i;
        })
  unfolding parse_config extract_bitstream_sps
  parse_config-record head sps pps rest one i t h6 hs hp long parsed h =
      rw
        (
          consume-append 6 head (block sps ++ (one ∷ (block pps ++ rest))) (sym h6),
          read_block-block sps (one ∷ (block pps ++ rest)) hs,
          consume-append 1 (one ∷ []) (block pps ++ rest) refl,
          read_block-block pps rest hp,
          ge→ltb (length sps) 4 long,
          parsed,
          encapsulate_config_frame-frames sps t.base h,
          encapsulate_config_frame-frames pps
              (record t.base { translated = t.base.translated ++ config_frames sps }) h,
        )
        refl
