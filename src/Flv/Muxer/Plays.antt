-- ===== src/Flv/Muxer/Plays.antt =====
-- What a client of `flv_muxer::start_muxing` gets, from the header to the packets.
use streaming.Prelude.{
  ℕ, ◌≡◌, refl, sym, ap, ◌∙◌, Bool, true, false, some, List, [], ◌∷◌, ◌++◌, append_assoc,
  append-nil, map, ==_refl,
}
use streaming.Prelude.Outcome.{ok, ◌>>=◌, >>=-eq-ok, ok-injective}
use streaming.Prelude.Sending
use streaming.Prelude.Sending.{Send, lift, Done, Call, behind, lift-ok, >>=-ok}
use streaming.Prelude.Texts.{TextMap}
use streaming.Media.Dispatcher.{Dispatcher, Reader, regist_reader, cache}
use streaming.Media.Dispatcher.Sets.{mem}
use streaming.Media.Dispatcher.Laws.{IsValid}
use streaming.Media.Dispatcher.Runs.{broadcast, broadcast-regist_reader}
use streaming.Rtmp.Chunk.{update}
use streaming.Rtmp.Packet.{Packet}
use streaming.Rtmp.Demuxer.{Any}
use streaming.Rtmp.Script.{script}
use streaming.Rtmp.Source.{get_dispatcher}
use streaming.Flv.Muxer.{prepare_flv_header, script_data, write_flv, write_config_frame, for_each}
use streaming.Flv.Muxer
use streaming.Flv.Muxer.Start.{
  Store, create_reader, config_packets, metadata_of, four_zeros, send_config_frames, mux_from,
  start_muxing, new_reader, send_all, set_dispatcher, write_metadata, write_script, write_configs,
  add_reader,
}

-- The bytes of all sends.
unfoldable pub all_bytes : List Send → List ℕ
all_bytes [] = []
all_bytes (s ∷ sends) = s.bytes ++ all_bytes sends

all_bytes-append : (s t : List Send) → all_bytes (s ++ t) ≡ all_bytes s ++ all_bytes t
unfolding all_bytes
all_bytes-append [] t = refl
all_bytes-append (x ∷ s) t =
    ap (λ l. x.bytes ++ l) (all_bytes-append s t)
    ∙ sym (append_assoc x.bytes (all_bytes s) (all_bytes t))

-- The configurations, one after the other.
send_config_frames-bytes :
    (pkts : List Packet) (bytes : List ℕ) (store : Store)
    → for_each write_config_frame pkts ≡ ok bytes
    → (sends : List Send) × (send_config_frames pkts store
        ≡ record { sent = sends; state = store; value = ok tt })
      × (all_bytes sends ≡ bytes)
unfolding send_config_frames for_each all_bytes
send_config_frames-bytes [] bytes store done = ([], refl, ok-injective done)
send_config_frames-bytes (pkt ∷ pkts) bytes store done =
    let (first, wrote, done') =
      >>=-eq-ok (write_config_frame pkt)
        (λ sent. for_each write_config_frame pkts >>= (λ more. ok (sent ++ more))) done in
    let (more, others, last) =
      >>=-eq-ok (for_each write_config_frame pkts) (λ rest. ok (first ++ rest)) done' in
    let (sends, sent, same) = send_config_frames-bytes pkts more store others in
    (
      record { bytes = first; is_async = true; is_close = false } ∷ sends,
      rw (wrote, sent) refl,
      ap (λ l. first ++ l) same ∙ ok-injective last,
    )

abbrev fresh_reader : Reader Packet
fresh_reader = record {
  is_registered = false;
  has_read_cb = true;
  has_detach_cb = true;
  received = [];
  detached = [];
}

-- What is written, by its parts.
written-parts :
    (b bytes : List ℕ) (configs : List Packet)
    → Muxer.start_muxing b configs ≡ ok bytes
    → (metadata : List ℕ) × (frames : List ℕ) × (write_flv script_data b 0 ≡ ok metadata)
      × (for_each write_config_frame configs ≡ ok frames)
      × (prepare_flv_header ++ (four_zeros ++ (metadata ++ frames)) ≡ bytes)
unfolding Muxer.start_muxing
written-parts b bytes configs wrote =
    let (metadata, first, rest) =
      >>=-eq-ok (write_flv script_data b 0)
        (λ metadata.
          for_each write_config_frame configs
          >>= (λ frames. ok (prepare_flv_header ++ (four_zeros ++ (metadata ++ frames)))))
        wrote in
    let (frames, others, whole) =
      >>=-eq-ok (for_each write_config_frame configs)
        (λ frames. ok (prepare_flv_header ++ (four_zeros ++ (metadata ++ frames)))) rest in
    (metadata, frames, first, others, ok-injective whole)

-- What `start_muxing` sends, and the dispatcher that it leaves.
module _ (is_name : Any → List ℕ → Bool) (keys : List ℕ) (i src : ℕ) (store : Store)
    (m : TextMap Any) (b bytes : List ℕ) (d : Dispatcher Packet) where
  abbrev joined : Dispatcher Packet
  joined = regist_reader (some i) (new_reader i fresh_reader d)

  abbrev started : Done Store (Unit {0})
  started = start_muxing is_name keys true i (some src) true store

  -- What is sent from the metadata on.
  abbrev tail_done : List ℕ → List Send → Done Store (Unit {0})
  tail_done metadata sends =
      behind (record { bytes = metadata; is_async = true; is_close = false } ∷ []) (
        behind sends (record {
          sent = [];
          state = update store src (set_dispatcher joined (store src));
          value = ok tt;
        }))

  write_metadata-joined :
      (metadata frames : List ℕ) (sends : List Send)
      → script is_name m ≡ ok b
      → write_flv script_data b 0 ≡ ok metadata
      → send_config_frames (config_packets keys (store src)) store
        ≡ record { sent = sends; state = store; value = ok tt }
      → get_dispatcher (store src) ≡ ok d
      → write_metadata is_name keys true i src (store src) m store ≡ tail_done metadata sends
  unfolding write_metadata write_script write_configs add_reader create_reader
  write_metadata-joined metadata frames sends has_script first sent has_dispatcher =
      let s = store src in
      let reader = add_reader is_name keys true i src s in
      let script_send = record { bytes = metadata; is_async = true; is_close = false } ∷ [] in
      lift-ok (script is_name m) (write_script is_name keys true i src s) store b has_script
      ∙ >>=-ok (send_all (write_flv script_data b 0))
          (λ done. write_configs is_name keys true i src s) store store script_send tt
          (rw first refl)
      ∙ ap (behind script_send) (
          >>=-ok (send_config_frames (config_packets keys s))
            (λ done. Sending.◌>>=◌ (lift (get_dispatcher s)) reader) store store sends tt sent
          ∙ ap (behind sends) (lift-ok (get_dispatcher s) reader store d has_dispatcher))

  start_muxing-joined :
      metadata_of (store src) ≡ ok m
      → script is_name m ≡ ok b
      → Muxer.start_muxing b (config_packets keys (store src)) ≡ ok bytes
      → get_dispatcher (store src) ≡ ok d
      → (all_bytes started.sent ≡ bytes)
        × (started.value ≡ ok tt)
        × ((started.state src).dispatcher ≡ some joined)
  unfolding start_muxing mux_from all_bytes
  start_muxing-joined has_metadata has_script wrote has_dispatcher =
      let s = store src in
      let (metadata, frames, first, others, whole) =
        written-parts b bytes (config_packets keys s) wrote in
      let (sends, sent, same) =
        send_config_frames-bytes (config_packets keys s) frames store others in
      let next = write_metadata is_name keys true i src s in
      let first_sends =
        record { bytes = prepare_flv_header; is_async = true; is_close = false }
        ∷ record { bytes = four_zeros; is_async = true; is_close = false }
        ∷ [] in
      let begun : started ≡ behind first_sends (tail_done metadata sends) =
        ap (behind first_sends) (
          lift-ok (metadata_of s) next store m has_metadata
          ∙ write_metadata-joined metadata frames sends has_script first sent has_dispatcher) in
      let tail : all_bytes (sends ++ []) ≡ frames = ap all_bytes (append-nil sends) ∙ same in
      (
        ap (λ x. all_bytes x.sent) begun
            ∙ ap (λ l. prepare_flv_header ++ (four_zeros ++ (metadata ++ l))) tail
            ∙ whole,
        ap (λ x. x.value) begun,
        ap (λ x. (x.state src).dispatcher) begun ∙ (rw (==_refl src) refl),
      )

-- A client of a source whose metadata and configurations can be written gets the header, four zero
-- bytes, the metadata and the configurations, and its reader then gets every packet that the
-- source distributes, first the cache that ends in the first of them: if the dispatcher is well
-- formed and has no old reader at the new one's address.
pub start_muxing-broadcast :
    (is_name : Any → List ℕ → Bool) (keys : List ℕ) (i src : ℕ) (store : Store) (m : TextMap Any)
    (b bytes : List ℕ) (d : Dispatcher Packet) (pkt : Packet) (k : Bool) (ps : List (Packet × Bool))
    → metadata_of (store src) ≡ ok m
    → script is_name m ≡ ok b
    → Muxer.start_muxing b (config_packets keys (store src)) ≡ ok bytes
    → get_dispatcher (store src) ≡ ok d
    → IsValid d
    → mem i d.old_clients ≡ false
    → let started = start_muxing is_name keys true i (some src) true store in
      (all_bytes started.sent ≡ bytes)
      × (started.value ≡ ok tt)
      × (d' : Dispatcher Packet) × ((started.state src).dispatcher ≡ some d')
      × (((broadcast ((pkt, k) ∷ ps) d').readers i).received
          ≡ cache d.max_size pkt k d.packet_list ++ map (λ x. x.0) ps)
start_muxing-broadcast is_name keys i src store m b bytes d pkt k ps has_metadata has_script wrote
      has_dispatcher valid new =
    let (sent, done, state) =
      start_muxing-joined is_name keys i src store m b bytes d has_metadata has_script wrote
        has_dispatcher in
    let fresh = new_reader i fresh_reader d in
    let own : fresh.readers i ≡ fresh_reader = rw (==_refl i) refl in
    let fresh_valid : IsValid fresh = record {
      new_set = valid.new_set;
      old_set = valid.old_set;
      room = valid.room;
      bounded = valid.bounded;
    } in
    (
      sent,
      done,
      regist_reader (some i) fresh,
      state,
      broadcast-regist_reader pkt k ps fresh i fresh_valid new (ap (λ r. r.has_read_cb) own)
          ∙ ap (λ r. r.received ++ (cache d.max_size pkt k d.packet_list ++ map (λ x. x.0) ps)) own,
    )
