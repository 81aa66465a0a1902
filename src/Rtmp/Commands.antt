-- ===== src/Rtmp/Commands.antt =====
-- The commands of protocol/rtmp/rtmp_protocol.cpp: what a publisher asks for, and what fills the
-- record of handlers of `handle_chunk`.
pub mod Texts
pub mod Metadata
pub mod Publisher
pub mod Ownership
use streaming.Prelude.{
  ℕ, zero, suc, Bool, true, false, not, Option, none, some, List, [], ◌∷◌, length, ◌==◌, ◌||◌,
  if◌then◌else◌,
}
use streaming.Prelude.Texts.{TextMap, lookup, put, same_text}
use streaming.Prelude.Outcome.{
  Error, Result, ok, err, ◌>>=◌, ◌>>◌, throw_if, map_ok, undefined, publish_expects_null, not_owner,
  bad_media_info, expected_object_end, not_published, out_of_fuel,
}
use streaming.Network.Unread
use streaming.Media.Info.{Info, set_app, set_tc_url, parse_stream}
use streaming.Media.Sources.{Sources, find, get_ownership, release_ownership, is_empty}
use streaming.Media.Dispatcher.{Reader}
use streaming.Codec.H264.{SpsInfo}
use streaming.Rtmp.Amf.{
  AmfValue, object, string, number, Members, none_left, member, emplace, get_member, as_string,
  encode_string, encode_number, encode_null, encode_value, Decoder, pop_front, peek_front,
  load_string, load_number, load_boolean, load_key, load_object, amf_null, amf_number, amf_boolean,
  amf_string, amf_object_end,
}
use streaming.Rtmp.Packet.{Packet, msg_cmd, chunk_client_request_before}
use streaming.Rtmp.Chunk.{Protocol, send_rtmp, send_depth, update}
use streaming.Rtmp.Demuxer
use streaming.Rtmp.Demuxer.{Any}
use streaming.Rtmp.Source.{RtmpSource, init_tracks, process_av_packet}
use streaming.Rtmp.Control.{Handlers}

-- What a connection keeps, and the sources of all of them. `shared_with` is the source that was
-- made with the connection's `media_info_`, of which both have a pointer; `fresh` is the address
-- that the next source gets. `src_ownership` is the source that the token is of.
pub record Connection : Type 0 where
  pub media_info : Option Info
  pub shared_with : Option ℕ
  pub rtmp_source : Option ℕ
  pub src_ownership : Option ℕ
  pub meta_data : TextMap Any
  pub sources : Sources
  pub streams : ℕ → RtmpSource
  pub fresh : ℕ

abbrev pub Client : Type 0
Client = Protocol Connection

unfoldable pub reply : List ℕ → Client → Result Client
reply bytes st =
    send_rtmp send_depth msg_cmd st.msg_stream_id bytes 0 chunk_client_request_before st

-- `AMFValue::set` for each key, in the source's order.
abbrev pub text_members : List (List ℕ × List ℕ) → Members → Members
text_members [] m = m
text_members ((k, v) ∷ kvs) m = text_members kvs (emplace k (string v) m)

unfoldable pub on_status : List (List ℕ × List ℕ) → Client → Result Client
unfolding reply
on_status fields st =
    reply
      (encode_value
        (encode_null (encode_number (encode_string [] Texts.on_status_text) st.transaction_id))
        (object (text_members fields none_left)))
      st

-- What `connect` answers.
unfoldable pub connect_result : ℕ → List ℕ
connect_result transaction_id =
    let version =
      emplace Texts.capabilities_text (number 4629418941960159232)
        (emplace Texts.fms_ver_text (string Texts.fms_version_text) none_left) in
    let status =
      text_members
        ((Texts.level_text, Texts.status_text)
          ∷ (Texts.code_text, Texts.connect_success_text)
          ∷ (Texts.description_text, Texts.connection_succeeded_text)
          ∷ [])
        none_left in
    encode_value
      (encode_value (encode_number (encode_string [] Texts.result_text) transaction_id)
        (object version))
      (object status)

unfoldable pub on_amf_connect : Decoder → Client → Result Client
unfolding reply connect_result
on_amf_connect dec st = do
  (params, rest) ← load_object dec
  app ← get_member params Texts.app_text >>= as_string
  let made : Info = record {
    schema = Texts.rtmp_text;
    app = [];
    vhost = [];
    stream_id = [];
    token = [];
    tc_url = [];
  }
  with_app ← set_app app made
  tc_url ← get_member params Texts.tc_url_text >>= as_string
  info ← set_tc_url tc_url with_app
  let c = record st.media { media_info = some info; shared_with = none }
  answered ← reply (connect_result st.transaction_id) (record st { media = c })
  reply (encode_null (encode_number (encode_string [] Texts.on_bw_done_text) 0)) answered

unfoldable pub on_amf_create_stream : Decoder → Client → Result Client
unfolding reply
on_amf_create_stream dec st =
    reply
      (encode_number
        (encode_null (encode_number (encode_string [] Texts.result_text) st.transaction_id)) 0)
      st

-- The token that the connection had is given up.
unfoldable pub give_up : Connection → Connection
give_up c = given c.src_ownership
  where
    given : Option ℕ → Connection
    given none = c
    given (some i) = record c { src_ownership = none; sources = release_ownership i c.sources }

-- `get_ownership` of a source that the connection then pushes to.
unfoldable pub claim : ℕ → Connection → Result Connection
unfolding give_up
claim i c =
    let free = give_up c in
    let (got, sources) = get_ownership i free.sources in
    if got
    then ok (record free { sources = sources; src_ownership = some i; rtmp_source = some i })
    else err not_owner

-- `rtmp_media_source::create`: a new source at the address `fresh`, made like `blank`.
unfoldable pub create_source : RtmpSource → Info → Connection → Result Connection
create_source blank info c = do
  throw_if (not (same_text info.schema Texts.rtmp_text)) bad_media_info
  throw_if
      (is_empty info.schema || is_empty info.app || is_empty info.vhost || is_empty info.stream_id)
      bad_media_info
  let i = c.fresh
  ok (record c {
    shared_with = some i;
    streams = update c.streams i (record blank { this = i; media_info = info });
    sources = record c.sources {
      alive = update c.sources.alive i true;
      is_registered = update c.sources.is_registered i false;
      owned = update c.sources.owned i false;
    };
    fresh = suc i;
  })

-- The `try` of `on_amf_publish`, with what `find` gave.
unfoldable pub take_source : RtmpSource → Info → Option ℕ → Connection → Result Connection
unfolding claim create_source
take_source blank info none c = create_source blank info c >>= claim c.fresh
take_source blank info (some i) c = claim i c

-- `parse_stream` changes the object that a source made before may have as well.
unfoldable pub rename : Info → Connection → Connection
rename info c = renamed c.shared_with
  where
    renamed : Option ℕ → Connection
    renamed none = record c { media_info = some info }
    renamed (some i) = record c {
      media_info = some info;
      streams = update c.streams i (record (c.streams i) { media_info = info });
    }

abbrev given_info : Option Info → Result Info
given_info none = err undefined
given_info (some info) = ok info

-- `what` gives the text of an exception. It is thrown again when the client was told.
unfoldable pub tell : (Error → List ℕ) → Client → Result Connection → Result Client
unfolding on_status
tell what st (err e) =
    on_status
      ((Texts.level_text, Texts.error_text)
        ∷ (Texts.code_text, Texts.bad_name_text)
        ∷ (Texts.description_text, what e)
        ∷ (Texts.client_id_text, Texts.zero_text)
        ∷ [])
      st
    >>= (λ told. err e)
tell what st (ok c) =
    on_status
      ((Texts.level_text, Texts.status_text)
        ∷ (Texts.code_text, Texts.publish_start_text)
        ∷ (Texts.description_text, Texts.start_publishing_text)
        ∷ (Texts.client_id_text, Texts.zero_text)
        ∷ [])
      (record st { media = c })

unfoldable pub on_amf_publish : (Error → List ℕ) → RtmpSource → Decoder → Client → Result Client
unfolding rename take_source tell
on_amf_publish what blank dec st = do
  (front, dec1) ← pop_front dec
  throw_if (not (front == amf_null)) publish_expects_null
  (text, dec2) ← load_string dec1
  info ← given_info st.media.media_info >>= parse_stream text
  (found, has_created) ← find info.schema info.vhost info.app info.stream_id st.media.sources
  let c = rename info st.media
  tell what (record st { media = c }) (take_source blank info found c)
