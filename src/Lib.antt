-- ===== src/Lib.antt =====
-- A model of a streaming server: it takes RTMP from publishers and gives the stream to readers.
--
-- The parts, from the socket up. src/network/session.cpp reads from a socket into a `flat_buffer`
-- (include/network/flat_buffer.h) and hands it to a protocol. src/protocol/rtmp/rtmp_protocol.cpp does
-- the handshake, cuts the bytes into chunks and puts messages together from them
-- (rtmp_packet.cpp); messages with commands are coded by amf.cpp. Media messages go to
-- rtmp_media_source.cpp, which has rtmp_demuxer.cpp make frames of them for the tracks of codec/,
-- enters the source into the registry of src/media/media_source.cpp, and gives the packets to the
-- readers through include/media/packet_dispatcher.h. A reader of src/protocol/flv/flv_muxer.cpp, which
-- a GET to src/protocol/http/http_protocol.cpp starts, sends them on as FLV. src/network/tcp_server.cpp
-- accepts the connections, and src/main.cpp runs two servers. include/util/resource_pool.h lends out
-- buffers, and src/util/util.cpp loads and stores numbers.
--
-- The files:
--   * Prelude: lists over native numbers, the `Result` of code that can throw, machine words.
--   * Util/Bytes: src/util/util.cpp, `load_*` and `set_*`. Util/Pool: include/util/resource_pool.h.
--   * Network/FlatBuffer: `flat_buffer`, the array and its indices. Network/Unread is the abstract
--     view, the list of unread bytes, that the parsers' models use; FlatBuffer/Refine shows that
--     the buffer implements it. Memory holds `memcpy` and `memmove`, Valid the invariant, Grow the
--     writes, Socket the read cycle of `session::do_read`, Prepend `prepend`, Snapshot the snapshot.
--   * Network/RawBuffer: `buffer_raw` of include/network/buffer.h, with what it holds in Contents
--     and its copies in Copies; FlatBuffer/Copies has those of `flat_buffer`, and FlatBuffer/Dump its
--     text. Network/BufferString: `buffer_string` and the base class `buffer`.
--   * Network/Sessions: `session_manager` and what closes a session, of src/network/session.cpp;
--     Sessions/Lifetime has the constructors and destructors.
--   * Rtmp/Amf: src/protocol/rtmp/amf.cpp. Map has the order of the keys, Ends the decoder's fuel,
--     Integer the integers of AMF3, RoundTrip and Objects what the encoder wrote and is read back.
--     Amf/Typed: `AMFValue` as it is stored, a type and a variant; Sound is about which values are
--     made, Agrees about the values of Rtmp/Amf, where both are one.
--   * Rtmp/Packet: `rtmp_packet`, whose buffer is the list of its unread bytes; Kinds says which
--     packets are configurations.
--   * Rtmp/Chunk: the state of `rtmp_protocol` and `send_rtmp`; Chunk/Round is one round of the
--     loop of `split_rtmp`, and the loop. Stops and Total are about its end, Reads, Growing,
--     Resume and Segments about bytes that come in parts, Header and Framing about one chunk,
--     Delivery, Pending, RoundTrip and Message about all chunks of a message, Client and Compact
--     about the messages whose header leaves out what the last one said.
--   * Rtmp/Control: `handle_chunk`, the handshake and `on_parse_rtmp`; Sending, InStep and Shaking
--     are about the messages that these send.
--   * Media/Dispatcher: `packet_dispatcher` and `client_reader`. Sets are the sets of readers, Laws
--     one call, Runs many calls, and Creation makes readers. Media/Muxing: muxer.h and demuxer.h.
--   * Rtmp/Decoders: h264_rtmp.cpp and aac_rtmp.cpp; Nals, CompositionTime and AacFrames are about
--     the units of H264, the sign of the composition time and the frames of AAC. Rtmp/Demuxer:
--     rtmp_demuxer.cpp. Rtmp/Source: rtmp_media_source.cpp, with runs of packets in Source/Runs.
--   * Codec/Frame, Codec/H264, Codec/Aac: frames and tracks of src/codec; Frame/Pointers has
--     the members that can be null. H264/Config is about the decoder configuration, Aac/Masks,
--     Aac/Octets and Aac/Adts about the ADTS header.
--   * Media/Sources: src/media/media_source.cpp. Slots reads its four maps as one, Registry is about
--     one registration and search, Exclusive about all orders of them.
--   * Flv/Muxer: src/protocol/flv/flv_muxer.cpp; Muxer/Reader is a reader of FLV.
--   * Rtmp/Commands: the commands of a publisher in rtmp_protocol.cpp, with their texts in Texts;
--     Commands/Metadata has the metadata and the handlers for Rtmp/Control, Publisher is about
--     the metadata that a publisher sends, Ownership about the token of a source.
--   * Flv/Muxer/Start: `start_muxing`, with the script data of Rtmp/Script, of which
--     Script/Keys reads what there is, and the reader that it registers; Plays is about what the
--     client gets of it.
--   * Http/Header: src/protocol/http/http_flv_header.cpp; Header/Request is a request and its parts.
--   * Http/Protocol: src/protocol/http/http_protocol.cpp, with its texts in Texts and `send_response`
--     in Response. Lines and Reader are a reader of answers, Tail is about the end of a head, Answers
--     and Twice about what a head is answered, Ending about the destructor.
--   * Network/Sessions/Reading: the read loop of src/network/session.cpp; Sessions/Rounds is
--     about a round whose buffer has room, Sessions/Limit about one whose buffer has none.
--     Http/Session and Rtmp/Session fill in the parsers of http_session.cpp and rtmp_session.cpp,
--     and Session/Parts and Session/Arrival are about requests that come in parts.
--   * Network/Server: src/network/tcp_server.cpp and the names of sessions. Names tells these apart,
--     Closing and Accepting keep the invariant of a server, Ending is about all its runs, and Running
--     has its start and the threads of src/main.cpp.
--   * Prelude/Sending: calls that send, change an object and can throw. Prelude/Decimal: `std::to_string`.
--   * Util/Timer: include/util/timer.h.
--   * Media/Info: `media_info` of include/media/media_info.h, with `parse_stream` in RoundTrip
--     and the text of `info` in Name.
--   * The modules named Examples, AmfExamples, StreamExamples, CommandExamples, SourcesExamples and
--     ProtocolExamples run the theorems at one input.
--
-- A `uint8_t` is a number below 256, a `size_t` a number whose wrap is written out where it can
-- happen. An exception is a value of `Error`, with one constructor for each message; `undefined`
-- stands for what C++ leaves undefined. A call that throws gives no object back, but for a `Call`
-- (Prelude/Sending), which keeps what was done before: `split_nal_frame` says which frames a track has
-- been given when it throws, and the callers of it, which end the session then, do not.
--
-- Loops are recursion on fuel where their end is not plain. `split_rtmp` has one more than the
-- number of bytes, since every round that goes on takes a byte. `load_object` has one more than the
-- bytes of its input. `send_rtmp` has a depth of two calls, for a message and its acknowledgement;
-- a window, which no code sets, would need more than any depth. `split_nal_frame` has one more
-- than the bytes of its payload, of which every round takes four.
--
-- Parameters stand for code that is not part of the model: `handle` for `handle_chunk` in the
-- loop of `split_rtmp`, the record `Handlers` for what `handle_chunk` calls (Commands/Metadata
-- fills it), `what` for the texts of exceptions, `rand` for `std::rand`, `is_name` for the
-- equality of two pointers to names of types, which C++ leaves open and no program has, `Order`
-- for the compiler's choice between the two arguments of a read, `parse_sps` for the copied
-- parser of sequence parameter sets, `to_int` for the machine's conversion of a `double`, `now`
-- for the clock, `resolve` and `listening` for the acceptor of boost::asio, and the record
-- `Around` for the date and what else a request meets outside of its protocol.
--
-- Not modelled: the sockets and threads of boost::asio, locks (each operation is one step),
-- what a translator does with a frame (the muxer does nothing), logging, and the copied code of
-- SPSParser.c, BS_thread_pool.hpp and magic_enum.hpp.
pub mod Prelude
pub mod Util
pub mod Network
pub mod Codec
pub mod Rtmp
pub mod Media
pub mod Flv
pub mod Http
