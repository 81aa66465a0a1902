-- ===== src/Rtmp/Source.antt =====
-- src/protocol/rtmp/rtmp_media_source.cpp: a stream that is published, from its packets to its
-- readers. `now` is the time at the call, and `parse_sps` the vendored parser.
pub mod Runs
use streaming.Prelude.{
  ℕ, Bool, true, false, ◌||◌, not, Option, none, some, List, [], ◌∷◌, ◌==◌, if◌then◌else◌,
}
use streaming.Prelude.Outcome.{
  Result, ok, err, ◌>>=◌, ◌>>◌, throw_if, map_ok, not_av, no_dispatcher,
}
use streaming.Prelude.Texts.{TextMap}
use streaming.Util.Timer.{BytesSpeed, add_bytes}
use streaming.Media.Info.{Info}
use streaming.Media.Sources.{Sources, regist}
use streaming.Media.Dispatcher.{Dispatcher, Reader, create, distribute}
use streaming.Codec.H264.{SpsInfo}
use streaming.Rtmp.Packet.{Packet, msg_audio, msg_video, size, is_config_frame, is_video_keyframe}
use streaming.Rtmp.Chunk.{update}
use streaming.Rtmp.Demuxer.{Demuxer, Any, init_tracks_with_metadata, input_rtmp}

-- `this` is the address of the source. The arrays have the indices 0 (audio) and 1 (video);
-- `config_frames` is the map of the configurations by message type.
pub record RtmpSource : Type 0 where
  pub this : ℕ
  pub media_info : Info
  pub demuxer : Demuxer
  pub speed : ℕ → BytesSpeed
  pub track_stamps : ℕ → ℕ
  pub meta_data : Option (TextMap Any)
  pub config_frames : ℕ → Option Packet
  pub dispatcher : Option (Dispatcher Packet)

-- The dispatcher is made with its default cache size; `readers` are the readers that there are.
unfoldable pub init_tracks :
    (ℕ → ℕ) → (ℕ → Reader Packet) → TextMap Any → RtmpSource → Result RtmpSource
unfolding init_tracks_with_metadata create
init_tracks to_int readers metadata s = do
  demuxer ← init_tracks_with_metadata to_int metadata s.demuxer
  ok (record s {
    demuxer = demuxer;
    meta_data = some metadata;
    dispatcher = some (create 1024 readers);
  })

-- `get_dispatcher` throws where there is none.
unfoldable pub get_dispatcher : RtmpSource → Result (Dispatcher Packet)
get_dispatcher s = given s.dispatcher
  where
    given : Option (Dispatcher Packet) → Result (Dispatcher Packet)
    given none = err no_dispatcher
    given (some d) = ok d

-- The packet goes to the readers.
unfoldable pub deliver :
    Packet → Dispatcher Packet → RtmpSource → Sources → Result (RtmpSource × Sources)
deliver pkt d s sources = do
  key ← is_video_keyframe pkt
  ok (record s { dispatcher = some (distribute pkt key d) }, sources)

-- What happens to a packet that is, or is not, a configuration, while the source is, or is not,
-- registered. A configuration is kept, and the first packet that is none registers the source.
unfoldable pub publish :
    Bool → Bool → Packet → Dispatcher Packet → RtmpSource → Sources → Result (RtmpSource × Sources)
unfolding deliver
publish true false pkt d s sources = ok (s, sources)
publish true true pkt d s sources = deliver pkt d s sources
publish false true pkt d s sources = deliver pkt d s sources
publish false false pkt d s sources = do
  registered ← regist s.this s.media_info sources
  deliver pkt d s registered

abbrev pub track_index : Packet → ℕ
track_index pkt = if pkt.msg_type_id == msg_video then 1 else 0

-- The counters and the map of configurations after a packet of `n` bytes.
unfoldable pub note_packet : ℕ → ℕ → Bool → Packet → RtmpSource → RtmpSource
note_packet now n config pkt s =
    let i = track_index pkt in
    record s {
      speed = update s.speed i (add_bytes now n (s.speed i));
      track_stamps = update s.track_stamps i pkt.time_stamp;
      config_frames =
          if config then update s.config_frames pkt.msg_type_id (some pkt) else s.config_frames;
    }

unfoldable pub process_av_packet :
    (List ℕ → Option SpsInfo) → ℕ → Packet → RtmpSource → Sources → Result (RtmpSource × Sources)
unfolding get_dispatcher input_rtmp note_packet publish
process_av_packet parse_sps now pkt s sources = do
  throw_if (not (pkt.msg_type_id == msg_audio || pkt.msg_type_id == msg_video)) not_av
  d ← get_dispatcher s
  demuxer ← input_rtmp parse_sps pkt s.demuxer
  let (n, sized) = size pkt
  config ← is_config_frame sized
  let noted = note_packet now n config sized (record s { demuxer = demuxer })
  publish config (sources.is_registered s.this) sized d noted sources
