-- ===== src/Flv/Muxer/Start.antt =====
-- `flv_muxer::start_muxing` and `flv_muxer::~flv_muxer`, with the reader and its dispatcher.
use streaming.Prelude.{ℕ, Bool, true, false, not, Option, none, some, List, [], ◌∷◌, if◌then◌else◌}
use streaming.Prelude.Outcome.{Result, ok, err, throw_if, bad_flv_sources, no_session, undefined}
use streaming.Prelude.Sending.{Call, ◌>>=◌, ◌>>◌, lift, get, modify, send, return}
use streaming.Prelude.Texts.{TextMap}
use streaming.Media.Dispatcher.{Dispatcher, Reader, regist_reader, leave}
use streaming.Rtmp.Chunk.{update}
use streaming.Rtmp.Packet.{Packet}
use streaming.Rtmp.Demuxer.{Any}
use streaming.Rtmp.Source.{RtmpSource, get_dispatcher}
use streaming.Rtmp.Script.{script}
use streaming.Flv.Muxer.{prepare_flv_header, script_data, write_flv, write_config_frame}

-- The sources by their addresses.
abbrev pub Store : Type 0
Store = ℕ → RtmpSource

-- `client_reader::create`, `set_read_cb` and `set_detach`, for a session that there is, or is not.
unfoldable pub create_reader : Bool → Result (Reader Packet)
create_reader has_session =
    if has_session
    then ok (record {
      is_registered = false;
      has_read_cb = true;
      has_detach_cb = true;
      received = [];
      detached = [];
    })
    else err no_session

-- What the unordered map of configurations is iterated in: its keys.
unfoldable pub config_packets : List ℕ → RtmpSource → List Packet
config_packets [] s = []
config_packets (key ∷ keys) s = push (s.config_frames key) (config_packets keys s)
  where
    push : Option Packet → List Packet → List Packet
    push none pkts = pkts
    push (some pkt) pkts = pkt ∷ pkts

-- `*rtmp_src_ptr->get_metadata()`
unfoldable pub metadata_of : RtmpSource → Result (TextMap Any)
metadata_of s = given s.meta_data
  where
    given : Option (TextMap Any) → Result (TextMap Any)
    given none = err undefined
    given (some metadata) = ok metadata

abbrev pub set_dispatcher : Dispatcher Packet → RtmpSource → RtmpSource
set_dispatcher d s = record s { dispatcher = some d }

-- The reader `i` as an entry of the dispatcher's readers.
abbrev pub new_reader : ℕ → Reader Packet → Dispatcher Packet → Dispatcher Packet
new_reader i r d = record d { readers = update d.readers i r }

-- The bytes of one call of `write_flv`, of which the source makes three sends.
abbrev pub send_all : {S : Type 0} → Result (List ℕ) → Call S (Unit {0})
send_all bytes = do b ← lift bytes; send b true false

abbrev pub four_zeros : List ℕ
four_zeros = 0 ∷ 0 ∷ 0 ∷ 0 ∷ []

-- The loop sends nothing more once a call throws.
unfoldable pub send_config_frames : {S : Type 0} → List Packet → Call S (Unit {0})
send_config_frames [] = return tt
send_config_frames (pkt ∷ pkts) = do send_all (write_config_frame pkt); send_config_frames pkts

-- `is_name` compares names of types, `keys` are the keys of the configurations as they are
-- iterated, `i` is the address of the new reader.
module _ (is_name : Any → List ℕ → Bool) (keys : List ℕ) (has_session : Bool) (i : ℕ) where
  -- The steps of the body, each with what follows it: the reader, the configurations, the metadata.
  unfoldable pub add_reader : ℕ → RtmpSource → Dispatcher Packet → Call Store (Unit {0})
  unfolding create_reader
  add_reader src s d = do
    reader ← lift (create_reader has_session)
    modify (λ store.
        update store src (set_dispatcher (regist_reader (some i) (new_reader i reader d)) s))

  unfoldable pub write_configs : ℕ → RtmpSource → Call Store (Unit {0})
  unfolding send_config_frames add_reader
  write_configs src s = do
    send_config_frames (config_packets keys s)
    d ← lift (get_dispatcher s)
    add_reader src s d

  unfoldable pub write_script : ℕ → RtmpSource → List ℕ → Call Store (Unit {0})
  unfolding write_configs
  write_script src s bytes = do send_all (write_flv script_data bytes 0); write_configs src s

  unfoldable pub write_metadata : ℕ → RtmpSource → TextMap Any → Call Store (Unit {0})
  unfolding write_script
  write_metadata src s metadata = do
    bytes ← lift (script is_name metadata)
    write_script src s bytes

  unfoldable pub mux_from : ℕ → RtmpSource → Call Store (Unit {0})
  unfolding write_metadata
  mux_from src s = do
    send prepare_flv_header true false
    send four_zeros true false
    metadata ← lift (metadata_of s)
    write_metadata src s metadata

  -- The source is the one at address `src`, or a null pointer.
  unfoldable pub start_muxing : Option ℕ → Bool → Call Store (Unit {0})
  unfolding mux_from
  start_muxing none has_header = lift (err bad_flv_sources)
  start_muxing (some src) has_header = do
    lift (throw_if (not has_header) bad_flv_sources)
    store ← get
    mux_from src (store src)

-- `~flv_muxer` of a muxer whose reader `i` was registered with the source `src`, while the reader is
-- alive: it leaves its dispatcher.
unfoldable pub destroy : ℕ → ℕ → Store → Store
destroy src i store = left (store src).dispatcher
  where
    left : Option (Dispatcher Packet) → Store
    left none = store
    left (some d) = update store src (set_dispatcher (leave i d) (store src))
