-- ===== src/Codec/Frame/Pointers.antt =====
-- include/codec/frame.h and track.h: the members of a frame and of a track that are pointers, which
-- their setters and getters refuse where they are null.
use streaming.Prelude.{ℕ, Bool, true, Option, none, some, List, if◌then◌else◌}
use streaming.Prelude.Outcome.{
  Result, ok, err, empty_frame_buffer, lost_frame_buffer, empty_translator,
}
use streaming.Codec.Frame.{CodecType, Track}

-- A frame whose `buf_` can be null.
pub record BareFrame : Type 0 where
  pub codec_id : CodecType
  pub dts : ℕ
  pub pts : ℕ
  pub prefix_size : ℕ
  pub buf : Option (List ℕ)

unfoldable pub frame : CodecType → BareFrame
frame codec_id = record { codec_id = codec_id; dts = 0; pts = 0; prefix_size = 0; buf = none }

unfoldable pub set_dts : ℕ → BareFrame → BareFrame
set_dts n f = record f { dts = n }

unfoldable pub set_pts : ℕ → BareFrame → BareFrame
set_pts n f = record f { pts = n }

unfoldable pub set_prefix_size : ℕ → BareFrame → BareFrame
set_prefix_size n f = record f { prefix_size = n }

unfoldable pub set_data : Option (List ℕ) → BareFrame → Result BareFrame
set_data none f = err empty_frame_buffer
set_data (some bytes) f = ok (record f { buf = some bytes })

unfoldable pub data_of : BareFrame → Result (List ℕ)
data_of f = given f.buf
  where
    given : Option (List ℕ) → Result (List ℕ)
    given none = err lost_frame_buffer
    given (some bytes) = ok bytes

unfoldable pub set_frame_translator : Bool → Track → Result Track
set_frame_translator is_given t =
    if is_given then ok (record t { has_translator = true }) else err empty_translator
