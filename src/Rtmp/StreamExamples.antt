-- ===== src/Rtmp/StreamExamples.antt =====
-- Runs of the decoders and of a source, at one input for each theorem.
use streaming.Prelude.{
  ℕ, ◌+◌, ◌-◌, ◌^◌, ◌≡◌, refl, arith, true, false, Option, none, some, List, [], ◌∷◌, ◌++◌, map,
  length, ltb, ◌==◌, if◌then◌else◌,
}
use streaming.Prelude.Outcome.{Result, ok, err, bad_nal_lengths}
use streaming.Prelude.Words.{put32}
use streaming.Codec.Frame.{Track, input_frame}
use streaming.Codec.H264.{SpsInfo}
use streaming.Codec.Aac.{AacTrack, aac_frame}
use streaming.Codec.Aac.Adts.{read_adts}
use streaming.Network.Unread
use streaming.Util.Timer.{BytesSpeed}
use streaming.Media.Info.{Info}
use streaming.Media.Sources.{Sources, lock, weak_source, regist}
use streaming.Media.Dispatcher.{Dispatcher}
use streaming.Rtmp.Packet.{
  Packet, msg_audio, msg_video, is_config_frame, is_audio_config, get_av_codec_id, packet_type,
  size, is_video_keyframe, frame_type, is_video_config,
}
use streaming.Rtmp.Source.{RtmpSource, process_av_packet}
use streaming.Rtmp.Source.Runs.{IsFlagged, broadcast, process_all, process_all-broadcast}
use streaming.Rtmp.Decoders.{split_nal_frame, composition_time, aac_input_rtmp}
use streaming.Rtmp.Decoders.CompositionTime.{be24, composition_time-sign}
use streaming.Rtmp.Decoders.Nals.{encoded, fed, cut, split_nal_frame-encoded}
use streaming.Rtmp.Decoders.AacFrames.{header_for, aac_input_rtmp-frame}

composition_time-sign_example : composition_time 255 255 254 ≡ (
    if ltb (be24 255 255 254) (2 ^ 23)
    then be24 255 255 254
    else be24 255 255 254 + 2 ^ 32 - 2 ^ 24)
composition_time-sign_example =
    composition_time-sign 255 255 254 (omega arith) (omega arith) (omega arith)

abbrev track : Track
track = record { bit_rate = 128; has_translator = true; translated = [] }

abbrev nals : List (List ℕ)
nals = (6 ∷ 5 ∷ []) ∷ (101 ∷ 136 ∷ 132 ∷ []) ∷ []

abbrev part : List ℕ
part = 9 ∷ []

-- Two units, and a third of which a byte is missing.
split_nal_frame-encoded_example :
    split_nal_frame 40 80 (encoded nals ++ (put32 2 ++ part)) track ≡ record {
      sent = [];
      state = fed 40 80 nals track;
      value = if length part == 0 then ok tt else err bad_nal_lengths;
    }
split_nal_frame-encoded_example =
    split_nal_frame-encoded 40 80 nals (put32 2 ++ part) part track (omega arith, (omega arith, tt))
      (cut 2 (omega arith) (omega arith))

abbrev packet : ℕ → ℕ → List ℕ → Packet
packet kind time_stamp bytes = record {
  is_abs_stamp = false;
  chunk_stream_id = 4;
  msg_stream_id = 1;
  msg_length = length bytes;
  msg_type_id = kind;
  ts_delta = 0;
  time_stamp = time_stamp;
  buf = bytes;
  pkt_header_length = 12;
}

abbrev aac_track : AacTrack
aac_track = record { base = track; cfg = 18 ∷ 16 ∷ []; channel = 2; sample_rate = 44100 }

aac_input_rtmp-frame_example :
    (head : List ℕ) × (aac_input_rtmp (packet msg_audio 23 (175 ∷ 1 ∷ 33 ∷ 16 ∷ [])) aac_track
      ≡ ok (record aac_track { base = input_frame (aac_frame (head ++ (33 ∷ 16 ∷ [])) 23) track }))
    × (length head ≡ 7)
    × (read_adts (head ++ (33 ∷ 16 ∷ [])) ≡ header_for 18 16 (length (head ++ (33 ∷ 16 ∷ []))))
unfolding is_config_frame is_audio_config get_av_codec_id packet_type Unread.peek Unread.require
aac_input_rtmp-frame_example =
    aac_input_rtmp-frame (packet msg_audio 23 (175 ∷ 1 ∷ 33 ∷ 16 ∷ [])) 175 1 (33 ∷ 16 ∷ []) 18 16
      [] aac_track refl
      (record {
        first = omega arith;
        second = omega arith;
        at_least = omega arith;
        below = omega arith;
        channel = omega arith;
      })
      (omega arith)

-- A stream that is just published: a configuration, then a key frame.
abbrev stream : Info
stream = record {
  schema = 82 ∷ [];
  app = 97 ∷ [];
  vhost = 118 ∷ [];
  stream_id = 115 ∷ [];
  token = [];
  tc_url = [];
}

abbrev idle_speed : BytesSpeed
idle_speed = record { speed = 0; bytes = 0; ticker = record { begin = 0; created = 0 } }

abbrev dispatcher : Dispatcher Packet
dispatcher = record {
  max_size = 1024;
  packet_list = [];
  new_clients = [];
  old_clients = [];
  readers = λ i. record {
    is_registered = false;
    has_read_cb = true;
    has_detach_cb = true;
    received = [];
    detached = [];
  };
}

abbrev source : RtmpSource
source = record {
  this = 7;
  media_info = stream;
  demuxer = record {
    duration = 0;
    has_muxer = true;
    video_rtmp_decoder = none;
    audio_rtmp_decoder = none;
  };
  speed = λ i. idle_speed;
  track_stamps = λ i. 0;
  meta_data = none;
  config_frames = λ i. none;
  dispatcher = some dispatcher;
}

abbrev sources : Sources
sources = record {
  media_sources = [];
  alive = λ i. true;
  is_registered = λ i. false;
  owned = λ i. false;
}

abbrev events : List (ℕ × Packet)
events = (1, packet msg_video 0 (23 ∷ 0 ∷ 1 ∷ [])) ∷ (2, packet msg_video 40 (23 ∷ 1 ∷ 2 ∷ [])) ∷ []

abbrev no_parser : List ℕ → Option SpsInfo
no_parser sps = none

abbrev end_of : Result (RtmpSource × Sources) → RtmpSource × Sources
end_of (ok r) = r
end_of (err e) = (source, sources)

abbrev last : RtmpSource × Sources
last = end_of (process_all no_parser events source sources)

run_of_events : process_all no_parser events source sources ≡ ok last
unfolding process_all process_av_packet is_config_frame size is_video_keyframe Unread.peek
    frame_type is_video_config get_av_codec_id packet_type Unread.require regist
run_of_events = refl

nothing_stored : IsFlagged 7 stream sources
unfolding lock weak_source
nothing_stored h = absurd (cc)

process_all-broadcast_example :
    last.0.dispatcher ≡ some (broadcast false (map (λ e. e.1) events) dispatcher)
process_all-broadcast_example =
    process_all-broadcast no_parser events dispatcher source (last.0) sources (last.1) refl
      nothing_stored run_of_events
