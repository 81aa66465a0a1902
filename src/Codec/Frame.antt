-- ===== src/Codec/Frame.antt =====
-- include/codec/frame.h and track.h: a frame, and the part of a track that all codecs share.
pub mod Pointers
use streaming.Prelude.{ℕ, Bool, List, [], ◌∷◌, ◌++◌, ◌==◌, if◌then◌else◌}

pub data CodecType : Type 0 where
  h264 aac : CodecType

-- `buf` is the list of the unread bytes of the frame's buffer.
pub record Frame : Type 0 where
  pub codec_id : CodecType
  pub dts : ℕ
  pub pts : ℕ
  pub prefix_size : ℕ
  pub buf : List ℕ

-- `frame::pts()`: a frame without a presentation time is shown when it is decoded.
unfoldable pub shown_at : Frame → ℕ
shown_at f = if f.pts == 0 then f.dts else f.pts

-- `has_translator` says whether `ft_` is set; `translated` is what it was given so far.
pub record Track : Type 0 where
  pub bit_rate : ℕ
  pub has_translator : Bool
  pub translated : List Frame

unfoldable pub set_bit_rate : ℕ → Track → Track
set_bit_rate n t = record t { bit_rate = n }

-- A frame is lost where no translator is set.
unfoldable pub input_frame : Frame → Track → Track
input_frame f t = if t.has_translator then record t { translated = t.translated ++ (f ∷ []) } else t
