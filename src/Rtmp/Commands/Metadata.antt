-- ===== src/Rtmp/Commands/Metadata.antt =====
-- `on_process_metadata` and `on_process_cmd` of protocol/rtmp/rtmp_protocol.cpp, and the handlers
-- that `handle_chunk` calls.
use streaming.Prelude.{
  ℕ, zero, suc, Bool, true, false, not, Option, none, some, List, length, ◌==◌, if◌then◌else◌,
}
use streaming.Prelude.Texts.{TextMap, lookup, put, same_text}
use streaming.Prelude.Outcome.{
  Error, Result, ok, err, ◌>>=◌, ◌>>◌, throw_if, expected_object_end, not_published, out_of_fuel,
}
use streaming.Network.Unread
use streaming.Media.Dispatcher.{Reader}
use streaming.Codec.H264.{SpsInfo}
use streaming.Rtmp.Amf.{
  Decoder, pop_front, peek_front, load_string, load_number, load_boolean, load_key, amf_number,
  amf_boolean, amf_string, amf_object_end,
}
use streaming.Rtmp.Packet.{Packet}
use streaming.Rtmp.Chunk.{update}
use streaming.Rtmp.Demuxer.{Any, number, boolean, other}
use streaming.Rtmp.Source.{RtmpSource, init_tracks, process_av_packet}
use streaming.Rtmp.Control.{Handlers}
use streaming.Rtmp.Commands.{
  Connection, Client, on_amf_connect, on_amf_create_stream, on_amf_publish,
}
use streaming.Rtmp.Commands.Texts

-- The value behind a key. One of another type is not read, and `value` stays what it was.
unfoldable pub load_any : Any → Decoder → Result (Any × Decoder)
load_any value dec = do
  kind ← peek_front dec
  let as_number = load_number dec >>= (λ (n, d). ok (number n, d))
  let as_boolean = load_boolean dec >>= (λ (b, d). ok (boolean b, d))
  let as_string = load_string dec >>= (λ (s, d). ok (other, d))
  if kind == amf_number
      then as_number
      else if kind == amf_boolean
      then as_boolean
      else if kind == amf_string
      then as_string
      else ok (value, dec)

-- `emplace` keeps what is there.
abbrev pub emplace_any : List ℕ → Any → TextMap Any → TextMap Any
emplace_any key value m = elim (lookup key m) [ none ↦ put key value m | some old ↦ m ]

-- The loop over the entries, which the empty key ends.
unfoldable pub load_entries : ℕ → Any → TextMap Any → Decoder → Result (TextMap Any × Decoder)
unfolding load_any
load_entries zero value m dec = err out_of_fuel
load_entries (suc fuel) value m dec = do
  (key, dec1) ← load_key dec
  let more =
      load_any value dec1
      >>= (λ (value', dec2). load_entries fuel value' (emplace_any key value' m) dec2)
  if length key == 0 then ok (m, dec1) else more

-- What stands behind "onMetaData": five bytes are skipped, and an object's entries follow.
unfoldable pub load_metadata : TextMap Any → Decoder → Result (TextMap Any)
unfolding load_entries
load_metadata m dec = do
  rest ← Unread.consume 5 dec.buf
  (m', end) ← load_entries (suc (length rest)) other m (record dec { buf = rest })
  (front, last) ← pop_front end
  throw_if (not (front == amf_object_end)) expected_object_end
  ok m'

-- The names in front of the entries.
unfoldable pub read_metadata : TextMap Any → Decoder → Result (TextMap Any)
unfolding load_metadata
read_metadata m dec = do
  (kind, dec1) ← load_string dec
  let entries = load_string dec1 >>= (λ (name, dec2).
      if same_text name Texts.on_meta_data_text then load_metadata m dec2 else ok m)
  if same_text kind Texts.set_data_frame_text then entries else ok m

module _ (parse_sps : List ℕ → Option SpsInfo) (to_int : ℕ → ℕ) (what : Error → List ℕ) (now : ℕ)
    (readers : ℕ → Reader Packet) (blank : RtmpSource) where
  unfoldable pub on_process_metadata : ℕ → Client → Packet → Result Client
  unfolding read_metadata
  on_process_metadata version st pkt = do
    metadata ← read_metadata st.media.meta_data (record { version = version; buf = pkt.buf })
    tracked metadata st.media.rtmp_source
    where
      tracked : TextMap Any → Option ℕ → Result Client
      tracked metadata none = err not_published
      tracked metadata (some i) = init_tracks to_int readers metadata (st.media.streams i) >>= (λ s.
          ok (record st {
            media = record st.media { meta_data = metadata; streams = update st.media.streams i s };
          }))

  -- A command with another name is ignored.
  unfoldable pub on_process_cmd : ℕ → Client → Packet → Result Client
  on_process_cmd version st pkt = do
    (method, dec) ← load_string (record { version = version; buf = pkt.buf })
    let called = λ (command : Decoder → Client → Result Client).
        load_number dec >>= (λ (id, dec'). command dec' (record st { transaction_id = id }))
    if same_text method Texts.connect_text
        then called on_amf_connect
        else if same_text method Texts.create_stream_text
        then called on_amf_create_stream
        else if same_text method Texts.publish_text
        then called (on_amf_publish what blank)
        else ok st

  abbrev both : Option ℕ → Option ℕ → Bool
  both (some i) (some j) = true
  both _ _ = false

  unfoldable pub on_media : Client → Packet → Result Client
  on_media st pkt = pushed st.media.rtmp_source
    where
      pushed : Option ℕ → Result Client
      pushed none = err not_published
      pushed (some i) =
          process_av_packet parse_sps now pkt (st.media.streams i) st.media.sources
          >>= (λ (s, sources). ok (record st {
            media = record st.media { streams = update st.media.streams i s; sources = sources };
          }))

  -- The handlers of a connection.
  unfoldable pub handlers : Handlers Connection
  unfolding on_process_metadata on_process_cmd on_media
  handlers = record {
    on_process_cmd = on_process_cmd;
    on_process_metadata = on_process_metadata;
    has_source = λ c. both c.rtmp_source c.src_ownership;
    process_av_packet = on_media;
  }
