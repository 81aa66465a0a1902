-- ===== src/Rtmp/Examples.antt =====
-- Runs of the code of protocol/rtmp, at one input for each theorem.
use streaming.Rtmp.Chunk.Segments.{feed, joined, feed-joined}
use streaming.Prelude.{
  true, some, ◌+◌, ◌%◌, ℕ, ◌^◌, ◌<◌, ◌≡◌, ◌≢◌, refl, arith, false, none, List, [], ◌∷◌, ◌++◌,
  length, replicate, take, drop,
}
use streaming.Prelude.Outcome.{Result, ok, err, out_of_fuel, ◌>>=◌}
use streaming.Rtmp.Amf.{object, encode_value, load_object, load_unsigned}
use streaming.Rtmp.Amf.Map.{key_lt}
use streaming.Rtmp.Amf.RoundTrip.{IsText}
use streaming.Rtmp.Amf.Objects.{members, IsEntry, Ascending, load_object-encode_value}
use streaming.Rtmp.Amf.Ends.{load_object-ends}
use streaming.Rtmp.Amf.Integer.{encode_u29, load_unsigned-encode_u29}
use streaming.Rtmp.Packet.{Packet}
use streaming.Rtmp.Chunk.{Protocol, Stage, await_c0c1, chunks, frame}
use streaming.Rtmp.Chunk.Round.{split_rtmp}
use streaming.Rtmp.Chunk.Total.{Ended, split_rtmp-Ended}
use streaming.Rtmp.Chunk.Delivery.{Delivery}
use streaming.Rtmp.Chunk.Client.{same_length}
use streaming.Rtmp.Chunk.Message.{split_rtmp-frame}
use streaming.Rtmp.Chunk.Compact.{client_message, split_rtmp-client_message}
use streaming.Rtmp.Control.{Handlers, handle_chunk, set_chunk_size, next_step}
use streaming.Rtmp.Control.InStep.{Agreed, set_chunk_size-Agreed}
use streaming.Rtmp.Control.Shaking.{announced, answered, next_step-handshake}

abbrev app : List ℕ
app = 97 ∷ 112 ∷ 112 ∷ []

abbrev live : List ℕ
live = 108 ∷ 105 ∷ 118 ∷ 101 ∷ []

abbrev more : List ℕ
more = 5 ∷ 6 ∷ []

app-IsText : IsText app
app-IsText = record {
  no_nul = (
    (λ e. absurd (omega arith)),
    ((λ e. absurd (omega arith)), ((λ e. absurd (omega arith)), tt)),
  );
  short = omega arith;
}

-- An object with the keys "app" and "live".
abbrev pairs : List (List ℕ × List ℕ)
pairs = (app, app) ∷ (live, app) ∷ []

entry : (k : List ℕ) → k ≢ [] → length k < 2 ^ 16 → IsEntry (k, app)
entry k n s = record { named = n; short = s; text = app-IsText }

pairs-Ascending : Ascending pairs
unfolding key_lt
pairs-Ascending = ((refl, tt), (tt, tt))

load_object-encode_value_example :
    load_object (record { version = 0; buf = encode_value [] (object (members pairs)) ++ more })
    ≡ ok (object (members pairs), record { version = 0; buf = more })
load_object-encode_value_example =
    load_object-encode_value pairs 0 more
      (
        entry app (λ e. absurd (cc)) (omega arith),
        (entry live (λ e. absurd (cc)) (omega arith), tt),
      )
      pairs-Ascending

load_object-ends_example :
    load_object (record { version = 0; buf = 3 ∷ 0 ∷ 1 ∷ [] }) ≢ err out_of_fuel
load_object-ends_example = load_object-ends (record { version = 0; buf = 3 ∷ 0 ∷ 1 ∷ [] })

load_unsigned-encode_u29_example :
    load_unsigned (record { version = 3; buf = encode_u29 300000000 ++ more })
    ≡ ok (300000000, record { version = 3; buf = more })
load_unsigned-encode_u29_example = load_unsigned-encode_u29 300000000 more (omega arith)

-- A connection with the chunk sizes 3, and nothing under way.
abbrev idle : Stage → Protocol (Unit {0})
idle stage = record {
  chunk_stream_id = 0;
  msg_stream_id = 0;
  chunk_size_in = 3;
  chunk_size_out = 3;
  chunked_data_map = λ i. record { now = none; last = none };
  stage = stage;
  transaction_id = 0;
  bytes_sent = 0;
  bytes_sent_last = 0;
  bytes_recv = 0;
  bytes_recv_last = 0;
  windows_size = 0;
  sent = [];
  memory = record {
    is_abs_stamp = false;
    chunk_stream_id = 0;
    msg_stream_id = 0;
    msg_length = 0;
    msg_type_id = 0;
    ts_delta = 0;
    time_stamp = 0;
    buf = [];
    pkt_header_length = 0;
  };
  media = tt;
}

abbrev ignore : Protocol (Unit {0}) → Packet → Result (Protocol (Unit {0}))
ignore st p = ok st

abbrev no_handlers : Handlers (Unit {0})
no_handlers = record {
  on_process_cmd = λ version. ignore;
  on_process_metadata = λ version. ignore;
  has_source = λ m. false;
  process_av_packet = ignore;
}

abbrev zeros : ℕ → ℕ
zeros i = 0

-- Seven bytes in three chunks, with an extended time stamp.
abbrev seven : List ℕ
seven = 1 ∷ 2 ∷ 3 ∷ 4 ∷ 5 ∷ 6 ∷ 7 ∷ []

split_rtmp-frame_example :
    Delivery ignore 4 20000000 more
      (idle chunks)
      9
      1
      seven
      (split_rtmp ignore (idle chunks) (frame 3 9 1 seven 20000000 4 ++ more))
split_rtmp-frame_example =
    split_rtmp-frame ignore 4 20000000 more (omega arith) (omega arith) (omega arith) 9 1 1
      (2 ∷ 3 ∷ 4 ∷ 5 ∷ 6 ∷ 7 ∷ []) (idle chunks) (omega arith) (omega arith) (omega arith)
      (omega arith) refl refl

-- The last message of chunk stream 4, and a connection behind it.
abbrev earlier : Packet
earlier = record {
  is_abs_stamp = true;
  chunk_stream_id = 4;
  msg_stream_id = 1;
  msg_length = 7;
  msg_type_id = 9;
  ts_delta = 5000;
  time_stamp = 5000;
  buf = seven;
  pkt_header_length = 12;
}

abbrev behind_earlier : Protocol (Unit {0})
behind_earlier = record (idle chunks) {
  chunked_data_map = λ i. record { now = none; last = some earlier };
}

split_rtmp-client_message_example :
    Delivery ignore 4
      ((40 + earlier.time_stamp) % 2 ^ 32)
      more
      behind_earlier
      9
      earlier.msg_stream_id
      seven
      (split_rtmp ignore behind_earlier (client_message same_length 3 9 seven 40 4 ++ more))
split_rtmp-client_message_example =
    split_rtmp-client_message ignore 4 40 more (omega arith) (omega arith) (omega arith) 9 1
      (2 ∷ 3 ∷ 4 ∷ 5 ∷ 6 ∷ 7 ∷ []) behind_earlier earlier same_length (omega arith)
      (λ e. (refl, refl)) (omega arith) refl refl refl

split_rtmp-Ended_example : Ended (split_rtmp ignore (idle chunks) (192 ∷ 3 ∷ 0 ∷ more))
split_rtmp-Ended_example =
    split_rtmp-Ended ignore (λ st p w. w) (idle chunks) (192 ∷ 3 ∷ 0 ∷ more) refl

set_chunk_size-Agreed_example :
    Agreed no_handlers zeros more
      (idle chunks)
      (idle chunks)
      4096
      (set_chunk_size 4096 (idle chunks))
set_chunk_size-Agreed_example =
    set_chunk_size-Agreed no_handlers zeros more 4096 (idle chunks) (idle chunks) (omega arith)
      (omega arith) refl refl (omega arith) refl refl

next_step-handshake_example :
    (next_step no_handlers zeros (idle await_c0c1) (3 ∷ replicate 1536 7)
      >>= (λ x. next_step no_handlers zeros x.0 (x.1 ++ (replicate 1536 8 ++ more))))
    ≡ split_rtmp
        (handle_chunk no_handlers zeros)
        (announced (record (answered no_handlers zeros (idle await_c0c1) (replicate 1536 7)) {
          stage = chunks;
        }))
        more
next_step-handshake_example =
    next_step-handshake no_handlers zeros (idle await_c0c1) (replicate 1536 7) (replicate 1536 8)
      more refl refl refl refl

-- A message in three segments, cut inside a header and inside the payload.
abbrev framed : List ℕ
framed = frame 3 9 1 seven 20000000 4

abbrev cut_up : List (List ℕ)
cut_up = take 5 framed ∷ take 14 (drop 5 framed) ∷ drop 19 framed ∷ []

feed-joined_example :
    feed ignore cut_up (idle chunks, []) ≡ split_rtmp ignore (idle chunks) (joined cut_up)
feed-joined_example = feed-joined ignore cut_up (idle chunks)
