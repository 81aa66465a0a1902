-- ===== src/Rtmp/Demuxer.antt =====
-- src/protocol/rtmp/rtmp_demuxer.cpp, with include/media/demuxer.h. A decoder is its track.
use streaming.Prelude.{
  ℕ, ◌*◌, ◌%◌, ◌^◌, Bool, true, false, not, Option, none, some, List, [], ◌∷◌, length, ◌==◌,
  if◌then◌else◌,
}
use streaming.Prelude.Outcome.{
  Result, ok, err, ◌>>=◌, ◌>>◌, throw_if, map_ok, empty_metadata, bad_any_cast, unsupported_codec,
  no_muxer,
}
use streaming.Prelude.Texts.{TextMap, lookup}
use streaming.Codec.Frame.{Track, set_bit_rate}
use streaming.Codec.H264.{H264Track, SpsInfo}
use streaming.Codec.Aac.{AacTrack}
use streaming.Rtmp.Packet.{Packet, msg_audio, msg_video}
use streaming.Rtmp.Decoders.{h264_input_rtmp, aac_input_rtmp}

-- The values of the metadata that are looked at: a `double` as its bits, and a `bool`.
pub data Any : Type 0 where
  number : ℕ → Any
  boolean : Bool → Any
  other : Any

-- The member tracks are left out: a track is reached through its decoder.
pub record Demuxer : Type 0 where
  pub duration : ℕ
  pub has_muxer : Bool
  pub video_rtmp_decoder : Option H264Track
  pub audio_rtmp_decoder : Option AacTrack

-- `std::any_cast` of `metadata[key]`: a key that is missing has an empty `any`.
unfoldable pub cast_double : List ℕ → TextMap Any → Result ℕ
cast_double key m = cast (lookup key m)
  where
    cast : Option Any → Result ℕ
    cast (some (number n)) = ok n
    cast (some (boolean b)) = err bad_any_cast
    cast (some other) = err bad_any_cast
    cast none = err bad_any_cast

unfoldable pub cast_bool : List ℕ → TextMap Any → Result Bool
cast_bool key m = cast (lookup key m)
  where
    cast : Option Any → Result Bool
    cast (some (boolean b)) = ok b
    cast (some (number n)) = err bad_any_cast
    cast (some other) = err bad_any_cast
    cast none = err bad_any_cast

-- A track as it is made, with the muxer as its translator.
unfoldable pub new_track : ℕ → Track
unfolding set_bit_rate
new_track bit_rate =
    set_bit_rate bit_rate (record { bit_rate = 0; has_translator = true; translated = [] })

abbrev pub codec_aac : ℕ
codec_aac = 10

abbrev pub codec_h264 : ℕ
codec_h264 = 7

unfoldable pub init_audio_track : ℕ → ℕ → Demuxer → Result Demuxer
unfolding new_track
init_audio_track codec_id bit_rate d = init d.audio_rtmp_decoder
  where
    init : Option AacTrack → Result Demuxer
    init (some decoder) = ok d
    init none = do
      throw_if (not (codec_id == codec_aac)) unsupported_codec
      throw_if (not d.has_muxer) no_muxer
      let track : AacTrack = record {
        base = new_track bit_rate;
        cfg = [];
        channel = 0;
        sample_rate = 0;
      }
      ok (record d { audio_rtmp_decoder = some track })

unfoldable pub init_video_track : ℕ → ℕ → Demuxer → Result Demuxer
unfolding new_track
init_video_track codec_id bit_rate d = init d.video_rtmp_decoder
  where
    init : Option H264Track → Result Demuxer
    init (some decoder) = ok d
    init none = do
      throw_if (not (codec_id == codec_h264)) unsupported_codec
      throw_if (not d.has_muxer) no_muxer
      let info : SpsInfo = record { width = 0; height = 0; fps = 0 }
      let track : H264Track = record { base = new_track bit_rate; sps = []; pps = []; info = info }
      ok (record d { video_rtmp_decoder = some track })

-- The keys of the metadata, as bytes.
abbrev pub key_duration : List ℕ
key_duration = 100 ∷ 117 ∷ 114 ∷ 97 ∷ 116 ∷ 105 ∷ 111 ∷ 110 ∷ []

abbrev pub key_audiosamplerate : List ℕ
key_audiosamplerate =
    97 ∷ 117 ∷ 100 ∷ 105 ∷ 111 ∷ 115 ∷ 97 ∷ 109 ∷ 112 ∷ 108 ∷ 101 ∷ 114 ∷ 97 ∷ 116 ∷ 101 ∷ []

abbrev pub key_audiosamplesize : List ℕ
key_audiosamplesize =
    97 ∷ 117 ∷ 100 ∷ 105 ∷ 111 ∷ 115 ∷ 97 ∷ 109 ∷ 112 ∷ 108 ∷ 101 ∷ 115 ∷ 105 ∷ 122 ∷ 101 ∷ []

abbrev pub key_stereo : List ℕ
key_stereo = 115 ∷ 116 ∷ 101 ∷ 114 ∷ 101 ∷ 111 ∷ []

abbrev pub key_videocodecid : List ℕ
key_videocodecid = 118 ∷ 105 ∷ 100 ∷ 101 ∷ 111 ∷ 99 ∷ 111 ∷ 100 ∷ 101 ∷ 99 ∷ 105 ∷ 100 ∷ []

abbrev pub key_audiocodecid : List ℕ
key_audiocodecid = 97 ∷ 117 ∷ 100 ∷ 105 ∷ 111 ∷ 99 ∷ 111 ∷ 100 ∷ 101 ∷ 99 ∷ 105 ∷ 100 ∷ []

abbrev pub key_audiodatarate : List ℕ
key_audiodatarate = 97 ∷ 117 ∷ 100 ∷ 105 ∷ 111 ∷ 100 ∷ 97 ∷ 116 ∷ 97 ∷ 114 ∷ 97 ∷ 116 ∷ 101 ∷ []

abbrev pub key_videodatarate : List ℕ
key_videodatarate = 118 ∷ 105 ∷ 100 ∷ 101 ∷ 111 ∷ 100 ∷ 97 ∷ 116 ∷ 97 ∷ 114 ∷ 97 ∷ 116 ∷ 101 ∷ []

abbrev choose : Bool → Demuxer → Result Demuxer → Result Demuxer
choose true d made = ok d
choose false d made = made

-- `to_int` is the machine's conversion of a `double` to the 32 bits of an `int`.
unfoldable pub init_tracks_with_metadata : (ℕ → ℕ) → TextMap Any → Demuxer → Result Demuxer
unfolding cast_double cast_bool init_audio_track init_video_track
init_tracks_with_metadata to_int metadata d = do
  throw_if (length metadata == 0) empty_metadata
  duration ← cast_double key_duration metadata
  rate ← cast_double key_audiosamplerate metadata
  size ← cast_double key_audiosamplesize metadata
  stereo ← cast_bool key_stereo metadata
  video_id ← cast_double key_videocodecid metadata
  audio_id ← cast_double key_audiocodecid metadata
  audio_rate ← cast_double key_audiodatarate metadata
  video_rate ← cast_double key_videodatarate metadata
  let timed = record d { duration = duration }
  let init_video =
      init_video_track (to_int video_id % 2 ^ 8) (to_int video_rate * 1024 % 2 ^ 32) timed
  with_video ← choose (to_int video_id == 0) timed init_video
  let init_audio =
      init_audio_track (to_int audio_id % 2 ^ 8) (to_int audio_rate * 1024 % 2 ^ 32) with_video
  choose (to_int audio_id == 0) with_video init_audio

-- The snapshot around the call leaves the packet as it was, so the decoders read a copy of it:
-- see Network/FlatBuffer/Snapshot.antt.
unfoldable pub input_rtmp : (List ℕ → Option SpsInfo) → Packet → Demuxer → Result Demuxer
unfolding h264_input_rtmp aac_input_rtmp
input_rtmp parse_sps pkt d =
    if pkt.msg_type_id == msg_video
    then to_video d.video_rtmp_decoder
    else if pkt.msg_type_id == msg_audio
    then to_audio d.audio_rtmp_decoder
    else ok d
  where
    to_video : Option H264Track → Result Demuxer
    to_video none = ok d
    to_video (some t) =
        map_ok (λ fed. record d { video_rtmp_decoder = some fed }) (h264_input_rtmp parse_sps pkt t)

    to_audio : Option AacTrack → Result Demuxer
    to_audio none = ok d
    to_audio (some t) =
        map_ok (λ fed. record d { audio_rtmp_decoder = some fed }) (aac_input_rtmp pkt t)
