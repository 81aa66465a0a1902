-- ===== src/Flv/Examples.antt =====
-- Runs of the code of protocol/flv, at one input for each theorem.
use streaming.Prelude.{
  ℕ, ◌≡◌, refl, arith, true, false, none, some, ◌++◌, ◌==◌, if◌then◌else◌, List, [], ◌∷◌, length,
}
use streaming.Prelude.Outcome.{Result, ok, err}
use streaming.Rtmp.Packet.{Packet, msg_audio, msg_video}
use streaming.Flv.Muxer.{for_each, read_cb}
use streaming.Prelude.Sending.{Done}
use streaming.Media.Dispatcher.{Dispatcher, create, cache}
use streaming.Media.Dispatcher.Laws.{create-IsValid}
use streaming.Media.Dispatcher.Runs.{broadcast}
use streaming.Rtmp.Source.{RtmpSource, get_dispatcher}
use streaming.Rtmp.Amf.{write_key, encode_string, c_string}
use streaming.Rtmp.Script.{script}
use streaming.Flv.Muxer
use streaming.Flv.Muxer.Start.{Store, config_packets, metadata_of, start_muxing}
use streaming.Flv.Muxer.Plays.{all_bytes, start_muxing-broadcast}
use streaming.Flv.Muxer.Reader.{read_tags, played, for_each-read_cb}

abbrev packet : ℕ → ℕ → List ℕ → Packet
packet kind time_stamp bytes = record {
  is_abs_stamp = false;
  chunk_stream_id = 4;
  msg_stream_id = 1;
  msg_length = length bytes;
  msg_type_id = kind;
  ts_delta = 0;
  time_stamp = time_stamp;
  buf = bytes;
  pkt_header_length = 12;
}

-- The first packet is before the start time.
abbrev packets : List Packet
packets =
    packet msg_video 90 (23 ∷ 1 ∷ [])
    ∷ packet msg_audio 100 (175 ∷ 1 ∷ 33 ∷ [])
    ∷ packet msg_video 16777316 (39 ∷ 1 ∷ [])
    ∷ []

for_each-read_cb_example :
    (bytes : List ℕ) × (for_each (read_cb true 95) packets ≡ ok bytes)
    × (read_tags 4 bytes ≡ ok (played 95 packets))
for_each-read_cb_example =
    for_each-read_cb 95 packets 4
      (
        record {
          byte = omega arith;
          some_bytes = omega arith;
          few_bytes = omega arith;
          time = omega arith;
        },
        (
          record {
            byte = omega arith;
            some_bytes = omega arith;
            few_bytes = omega arith;
            time = omega arith;
          },
          (
            record {
              byte = omega arith;
              some_bytes = omega arith;
              few_bytes = omega arith;
              time = omega arith;
            },
            tt,
          ),
        ),
      )
      (omega arith)

-- A source whose metadata is empty, with no reader yet.
abbrev dispatcher : Dispatcher Packet
dispatcher = create 1024 (λ i. record {
  is_registered = false;
  has_read_cb = false;
  has_detach_cb = false;
  received = [];
  detached = [];
})

abbrev config : Packet
config = packet msg_video 0 (23 ∷ 0 ∷ [])

abbrev source : RtmpSource
source = record {
  this = 7;
  media_info = record {
    schema = [];
    app = [];
    vhost = [];
    stream_id = [];
    token = [];
    tc_url = [];
  };
  demuxer = record {
    duration = 0;
    has_muxer = true;
    video_rtmp_decoder = none;
    audio_rtmp_decoder = none;
  };
  speed = λ i. record { speed = 0; bytes = 0; ticker = record { begin = 0; created = 0 } };
  track_stamps = λ i. 0;
  meta_data = some [];
  config_frames = λ (i : ℕ). if i == 9 then some config else none;
  dispatcher = some dispatcher;
}

abbrev get_or_none : Result (List ℕ) → List ℕ
get_or_none (ok bytes) = bytes
get_or_none (err e) = []

abbrev written : List ℕ
written = get_or_none (script (λ v name. false) [])

abbrev first_bytes : List ℕ
first_bytes = get_or_none (Muxer.start_muxing written (config ∷ []))

has_script : script (λ v name. false) [] ≡ ok written
unfolding script
has_script = refl

has_bytes : Muxer.start_muxing written (config_packets (8 ∷ 9 ∷ []) source) ≡ ok first_bytes
unfolding Muxer.start_muxing config_packets script write_key encode_string c_string
has_bytes = refl

abbrev started : Done Store (Unit {0})
started = start_muxing (λ v name. false) (8 ∷ 9 ∷ []) true 3 (some 7) true (λ i. source)

start_muxing-broadcast_example :
    (all_bytes started.sent ≡ first_bytes)
    × (started.value ≡ ok tt)
    × (d' : Dispatcher Packet) × ((started.state 7).dispatcher ≡ some d')
    × (((broadcast ((packet msg_video 90 (23 ∷ 1 ∷ []), true) ∷ []) d').readers 3).received
        ≡ cache 1024 (packet msg_video 90 (23 ∷ 1 ∷ [])) true [] ++ [])
unfolding create metadata_of get_dispatcher
start_muxing-broadcast_example =
    start_muxing-broadcast (λ v name. false) (8 ∷ 9 ∷ []) 3 7 (λ i. source) [] written first_bytes
      dispatcher (packet msg_video 90 (23 ∷ 1 ∷ [])) true [] refl has_script has_bytes refl
      (create-IsValid 1024 _) refl
