-- ===== src/Http/ProtocolExamples.antt =====
-- Runs of the protocol and the session of protocol/http, at one input for each theorem.
use streaming.Prelude.{
  ℕ, ◌%◌, ◌^◌, ◌≡◌, ◌↔◌, refl, arith, true, false, none, some, List, [], ◌∷◌, ◌++◌, take, drop,
}
use streaming.Prelude.Texts.{same_text}
use streaming.Prelude.Outcome.{Error, ok, err, undefined}
use streaming.Media.Info.{Info, index_of, starts_with}
use streaming.Media.Sources.{find, set_weak_source, lock}
use streaming.Network.FlatBuffer.{create, unread, unread_length}
use streaming.Network.FlatBuffer.Valid.{create-IsValid}
use streaming.Network.FlatBuffer.Socket.{length_first}
use streaming.Network.Sessions.Reading.{do_read}
use streaming.Network.Sessions.Rounds.{Ready}
use streaming.Rtmp.Commands.Texts.{rtmp_text}
use streaming.Rtmp.Source.{RtmpSource}
use streaming.Http.Header.{Header, build, get_method, stoul}
use streaming.Http.Header.Request.{request, build-request}
use streaming.Http.Protocol.{Protocol, Around, on_search_http_handler}
use streaming.Http.Protocol.Texts.{packet_tail}
use streaming.Http.Protocol.Response.{okay, internal_server_error}
use streaming.Http.Protocol.Lines.{without}
use streaming.Http.Protocol.Reader.{read_answer, answer_of}
use streaming.Http.Protocol.Answers.{
  Answers, expected, head_send, fields_for, on_search_http_handler-Answers,
}
use streaming.Http.Protocol.Tail.{ends_at_nul}
use streaming.Http.Protocol.Twice.{on_search_http_handler-expired}
use streaming.Http.Protocol.Ending.{destroyed, on_search_http_handler-destroyed}
use streaming.Http.Session.{Meets, HttpSession, parse}
use streaming.Http.Session.Parts.{Part, all_arrive, Waits, over, part}
use streaming.Http.Session.Arrival.{do_read-Waits}

-- "live", "12" and the date "now".
abbrev live : List ℕ
live = 108 ∷ 105 ∷ 118 ∷ 101 ∷ []

abbrev twelve : List ℕ
twelve = 49 ∷ 50 ∷ []

abbrev date : List ℕ
date = 110 ∷ 111 ∷ 119 ∷ []

-- A GET of stream "a" of the application "live" at the host "v", with the empty line.
abbrev head : List ℕ
head = request get_method live (97 ∷ []) (118 ∷ []) (116 ∷ []) twelve (72 ∷ packet_tail)

abbrev header : Header
header = record {
  is_get = same_text get_method get_method;
  app = live;
  stream_id = 97 ∷ [];
  vhost = 118 ∷ [];
  token = 116 ∷ [];
  is_flv = true;
  start_pts = 12 % 2 ^ 32;
}

twelve_lem : stoul twelve ≡ ok 12
unfolding stoul
twelve_lem = refl

head-built : build head ≡ ok header
head-built =
    build-request get_method live (97 ∷ []) (118 ∷ []) (116 ∷ []) twelve (72 ∷ packet_tail) 12
      (refl, (refl, (refl, tt))) (refl, (refl, (refl, (refl, tt)))) (refl, tt) (refl, tt) (refl, tt)
      (refl, (refl, tt)) twelve_lem

abbrev path : Info
path = record {
  schema = rtmp_text;
  app = live;
  vhost = 118 ∷ [];
  stream_id = 97 ∷ [];
  token = [];
  tc_url = [];
}

abbrev source : RtmpSource
source = record {
  this = 7;
  media_info = path;
  demuxer = record {
    duration = 0;
    has_muxer = true;
    video_rtmp_decoder = none;
    audio_rtmp_decoder = none;
  };
  speed = λ i. record { speed = 0; bytes = 0; ticker = record { begin = 0; created = 0 } };
  track_stamps = λ i. 0;
  meta_data = none;
  config_frames = λ i. none;
  dispatcher = none;
}

-- Source 7 is entered for the path, and has no owner left.
abbrev protocol : Protocol
protocol = record {
  header = none;
  flv_muxer = none;
  sources = record {
    media_sources = set_weak_source path (some 7) [];
    alive = λ i. false;
    is_registered = λ i. false;
    owned = λ i. false;
  };
  store = λ i. source;
}

abbrev around : Around
around = record {
  date = date;
  has_session = true;
  next_reader = 3;
  config_keys = 8 ∷ 9 ∷ [];
  is_name = λ v name. false;
}

plain_date : without 13 date ≡ true
unfolding without
plain_date = refl

gone : find rtmp_text (118 ∷ []) live (97 ∷ []) protocol.sources ≡ ok (none, true)
unfolding find set_weak_source lock
gone = refl

on_search_http_handler-Answers_example :
    Answers around (expected protocol head) (on_search_http_handler around head protocol).sent
    × (read_answer 12 ((head_send date (expected protocol head)).bytes ++ (70 ∷ []))
        ≡ some (
            answer_of
              (expected protocol head)
              (fields_for date (expected protocol head))
              (70 ∷ [])))
on_search_http_handler-Answers_example =
    on_search_http_handler-Answers around protocol head (70 ∷ []) refl plain_date

on_search_http_handler-expired_example :
    (on_search_http_handler around head protocol).sent
    ≡ head_send date okay ∷ head_send date internal_server_error ∷ []
on_search_http_handler-expired_example =
    on_search_http_handler-expired around protocol head header refl head-built refl refl gone

on_search_http_handler-destroyed_example :
    (destroyed (on_search_http_handler around live protocol).state ≡ err undefined)
    ↔ ((e : Error) × (build live ≡ err e))
on_search_http_handler-destroyed_example =
    on_search_http_handler-destroyed around protocol live refl refl

abbrev meets : Meets
meets = record { behind = 0 ∷ []; around = around }

abbrev session : HttpSession
session = record {
  this = 1;
  ticker = record { begin = 0; created = 0 };
  buffer = create 8;
  protocol = protocol;
  manager = record {
    session_map = [];
    session = λ i. record { id = 115 ∷ []; is_open = true; is_closed = false };
  };
  sent = [];
  thrown = none;
}

session-Ready : Ready [] session
unfolding create unread unread_length
session-Ready = record {
  holds = refl;
  valid = create-IsValid 8 (omega arith);
  bounded = omega arith;
  opened = refl;
  quiet = refl;
}

abbrev first_part : Part
first_part = (take 9 head, (5, meets))

abbrev last_bytes : List ℕ
last_bytes = drop 9 head ++ (71 ∷ [])

plain_head : without 0 head ≡ true
unfolding without
plain_head = refl

tail_found : index_of packet_tail head ≡ some 45
unfolding index_of starts_with
tail_found = refl

in_parts : Waits [] (first_part ∷ []) (take 9 head)
unfolding ends_at_nul
in_parts =
    part [] (take 9 head) 5 meets [] (take 9 head) (omega arith) (omega arith) refl
      (over (take 9 head))

-- The request arrives in two parts, with one byte behind it.
abbrev after : HttpSession
after =
    do_read length_first parse (all_arrive ((first_part ∷ []) ++ ((last_bytes, (6, meets)) ∷ [])))
      session

do_read-Waits_example :
    let answered = on_search_http_handler around head protocol in
    (after.sent ≡ session.sent ++ answered.sent)
    × (after.protocol ≡ answered.state)
    × (after.manager ≡ session.manager)
    × Ready (71 ∷ []) after
do_read-Waits_example =
    do_read-Waits head [] (take 9 head) last_bytes (71 ∷ []) 45 (first_part ∷ []) 6 meets session
      plain_head tail_found refl (omega arith) session-Ready in_parts (omega arith) (omega arith)
      refl
