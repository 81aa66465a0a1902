-- ===== src/Rtmp/CommandExamples.antt =====
-- Runs of the commands, at one input for each theorem.
use streaming.Prelude.{
  Bool, ℕ, All, arith, ◌≡◌, ◌≢◌, refl, true, false, Option, none, some, List, [], ◌∷◌,
}
use streaming.Prelude.Outcome.{ok}
use streaming.Network.Unread
use streaming.Media.Info.{Info, parse_stream, parse_vhost, find_text, find_char, index_if, is_alpha}
use streaming.Media.Sources.{find, lock, set_weak_source}
use streaming.Rtmp.Amf.{Decoder, expect, pop_front, load_string, amf_null, amf_object_end}
use streaming.Rtmp.Packet.{Packet}
use streaming.Rtmp.Chunk.{chunks}
use streaming.Rtmp.Source.{RtmpSource}
use streaming.Rtmp.Commands.{Connection, Client, on_amf_publish}
use streaming.Rtmp.Demuxer.{Any, number, boolean}
use streaming.Rtmp.Script.{script}
use streaming.Rtmp.Script.Keys.{keys, script_bytes, read_script, read_script-script}
use streaming.Rtmp.Commands.Metadata.{read_metadata}
use streaming.Rtmp.Commands.Publisher.{
  Entries, IsEntry, num, flag, metadata_message, first, given_for, read_metadata-message,
}
use streaming.Prelude.Texts.{TextMap, lookup}
use streaming.Rtmp.Commands.Ownership.{on_amf_publish-refused}

abbrev made : Info
made = record {
  schema = 82 ∷ [];
  app = 97 ∷ [];
  vhost = 118 ∷ [];
  stream_id = 98 ∷ [];
  token = [];
  tc_url = [];
}

-- "s"
abbrev name : List ℕ
name = 115 ∷ []

abbrev wanted : Info
wanted = record made { stream_id = name }

abbrev blank : RtmpSource
blank = record {
  this = 0;
  media_info = made;
  demuxer = record {
    duration = 0;
    has_muxer = true;
    video_rtmp_decoder = none;
    audio_rtmp_decoder = none;
  };
  speed = λ i. record { speed = 0; bytes = 0; ticker = record { begin = 0; created = 0 } };
  track_stamps = λ i. 0;
  meta_data = none;
  config_frames = λ i. none;
  dispatcher = none;
}

-- Source 7 is on the air, and its token is taken.
abbrev connection : Connection
connection = record {
  media_info = some made;
  shared_with = none;
  rtmp_source = none;
  src_ownership = none;
  meta_data = [];
  sources = record {
    media_sources = set_weak_source wanted (some 7) [];
    alive = λ i. true;
    is_registered = λ i. true;
    owned = λ i. true;
  };
  streams = λ i. blank;
  fresh = 8;
}

abbrev memory : Packet
memory = record {
  is_abs_stamp = false;
  chunk_stream_id = 0;
  msg_stream_id = 0;
  msg_length = 0;
  msg_type_id = 0;
  ts_delta = 0;
  time_stamp = 0;
  buf = [];
  pkt_header_length = 0;
}

abbrev client : Client
client = record {
  chunk_stream_id = 3;
  msg_stream_id = 1;
  chunk_size_in = 128;
  chunk_size_out = 4096;
  chunked_data_map = λ i. record { now = none; last = none };
  stage = chunks;
  transaction_id = 0;
  bytes_sent = 0;
  bytes_sent_last = 0;
  bytes_recv = 0;
  bytes_recv_last = 0;
  windows_size = 0;
  sent = [];
  memory = memory;
  media = connection;
}

abbrev decoder : List ℕ → Decoder
decoder bytes = record { version = 0; buf = bytes }

no_token : ◌≢◌ {A = Option ℕ} none (some 7)
no_token h = cc

is_null :
    pop_front (decoder (5 ∷ 2 ∷ 0 ∷ 1 ∷ 115 ∷ [])) ≡ ok (amf_null, decoder (2 ∷ 0 ∷ 1 ∷ 115 ∷ []))
unfolding pop_front Unread.read
is_null = refl

is_name : load_string (decoder (2 ∷ 0 ∷ 1 ∷ 115 ∷ [])) ≡ ok (name, decoder [])
unfolding load_string expect pop_front Unread.read Unread.read_string
is_name = refl

is_wanted : parse_stream name made ≡ ok wanted
unfolding parse_stream parse_vhost find_text find_char index_if is_alpha
is_wanted = refl

is_there :
    find wanted.schema wanted.vhost wanted.app wanted.stream_id connection.sources
    ≡ ok (some 7, true)
unfolding find set_weak_source lock
is_there = refl

on_amf_publish-refused_example :
    on_amf_publish (λ e. []) blank (decoder (5 ∷ 2 ∷ 0 ∷ 1 ∷ 115 ∷ [])) client ≢ ok client
on_amf_publish-refused_example =
    on_amf_publish-refused (λ e. []) blank (decoder (5 ∷ 2 ∷ 0 ∷ 1 ∷ 115 ∷ []))
      (decoder (2 ∷ 0 ∷ 1 ∷ 115 ∷ [])) (decoder []) client client name made wanted 7 true is_null
      is_name refl is_wanted is_there no_token refl

-- A width and a flag, behind the head of an array of two entries.
abbrev entries : Entries
entries = (119 ∷ [], num 1280) ∷ (115 ∷ [], flag true) ∷ []

entries-fit : All IsEntry entries
entries-fit = ((omega arith, omega arith, omega arith), ((omega arith, omega arith, tt), tt))

read_metadata-message_example :
    (m' : TextMap Any) × (read_metadata []
        (record { version = 0; buf = metadata_message (8 ∷ 0 ∷ 0 ∷ 0 ∷ 2 ∷ []) entries [] })
      ≡ ok m')
    × ((key : List ℕ) → lookup key m' ≡ first none (given_for key entries))
read_metadata-message_example =
    read_metadata-message (8 ∷ 0 ∷ 0 ∷ 0 ∷ 2 ∷ []) entries [] [] 0 refl entries-fit

-- The metadata of those entries, at the names of a program.
abbrev metadata : TextMap Any
metadata = (119 ∷ [], number 1280) ∷ (115 ∷ [], boolean true) ∷ []

abbrev no_name : Any → List ℕ → Bool
no_name v literal = false

read_script-script_example :
    (script no_name metadata ≡ ok (script_bytes (keys metadata)))
    × (read_script (script_bytes (keys metadata))
        ≡ ok ((119 ∷ []) ∷ (115 ∷ []) ∷ [], amf_object_end ∷ []))
read_script-script_example =
    read_script-script no_name metadata (λ v literal. refl)
      ((omega arith, omega arith), ((omega arith, omega arith), tt))
