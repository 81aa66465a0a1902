-- ===== src/Rtmp/Packet/Kinds.antt =====
-- The bit fields that protocol/rtmp/rtmp_packet.cpp reads, as plain arithmetic.
use streaming.Prelude.{
  ℕ, ◌*◌, ◌/◌, ◌%◌, ◌^◌, ◌<◌, ◌≡◌, refl, arith, Bool, ◌&&◌, ◌||◌, List, ◌∷◌, leb, ◌==◌,
  if◌then◌else◌,
}
use Prim.Native.Nat.{bit_and}
use streaming.Prelude.Bits.{all_below, byte_table, bit_and-0x0f}
use streaming.Prelude.Outcome.{ok}
use streaming.Network.Unread
use streaming.Network.Unread.Laws.{peek_byte}
use streaming.Rtmp.Packet.{
  Packet, msg_video, frame_type, is_video_keyframe, get_av_codec_id, packet_type, is_video_config,
  is_config_frame,
}

frame_type_lem : (tag : ℕ) → tag < 256 → frame_type tag ≡ tag / 16 % 8
unfolding all_below frame_type
frame_type_lem = byte_table frame_type (λ tag. tag / 16 % 8) refl

enhanced_lem : (tag : ℕ) → tag < 256 → bit_and (tag / 2 ^ 4) 0b1000 ≡ tag / 128 * 8
unfolding all_below
enhanced_lem = byte_table (λ tag. bit_and (tag / 2 ^ 4) 0b1000) (λ tag. tag / 128 * 8) refl

-- The tag of a key frame: 1 in the three bits above the codec.
abbrev pub is_key : ℕ → Bool
is_key tag = tag / 16 % 8 == 1

-- A configuration, by the numbers in the first two bytes: with an enhanced header (128 or more)
-- the low half is 0, with a plain one the codec is 7 or 12 and the second byte 0.
abbrev pub configures : ℕ → ℕ → Bool
configures tag kind =
    is_key tag
    && (if leb 128 tag then tag % 16 == 0 else (tag % 16 == 7 || tag % 16 == 12) && (kind == 0))

-- A video packet of two bytes or more is a configuration exactly if its first byte says key frame
-- and, with an enhanced header (128 or more), its low half is 0, or, with a plain one, its low half
-- is 7 or 12 and the second byte is 0.
pub is_config_frame_lem :
    (tag kind : ℕ) (rest : List ℕ) (p : Packet)
    → tag < 256
    → p.msg_type_id ≡ msg_video
    → p.buf ≡ tag ∷ kind ∷ rest
    → is_config_frame p ≡ ok (configures tag kind)
unfolding is_config_frame is_video_keyframe is_video_config get_av_codec_id packet_type
    Unread.require
is_config_frame_lem tag kind rest p small video front =
    rw (video, front, peek_byte tag (kind ∷ rest))
      (rw (frame_type_lem tag small, bit_and-0x0f tag small)
        (rw (enhanced_lem tag small) (ground arith)))
