-- ===== src/Media/Muxing.antt =====
-- include/media/muxer.h and demuxer.h: the pointer that a demuxer has to its muxer. An address is a
-- number, and a null pointer is `none`.
use streaming.Prelude.{ℕ, Option, none, some}
use streaming.Prelude.Outcome.{Result, ok, err, empty_muxer, lost_muxer}
use streaming.Codec.Frame.{Frame}

-- `muxer_` of the demuxer.
pub record Demuxer : Type 0 where
  pub muxer : Option ℕ

unfoldable pub set_muxer : Option ℕ → Demuxer → Result Demuxer
set_muxer none d = err empty_muxer
set_muxer (some i) d = ok (record d { muxer = some i })

unfoldable pub get_muxer : Demuxer → Result ℕ
get_muxer d = given d.muxer
  where
    given : Option ℕ → Result ℕ
    given none = err lost_muxer
    given (some i) = ok i

-- `muxer::translate_frame` does nothing with a frame yet.
unfoldable pub translate_frame : {S : Type 0} → Frame → S → S
translate_frame f s = s
