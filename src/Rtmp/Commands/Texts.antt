-- ===== src/Rtmp/Commands/Texts.antt =====
-- The texts of the commands in protocol/rtmp/rtmp_protocol.cpp, as bytes.
use streaming.Prelude.{ℕ, List, [], ◌∷◌}

-- "connect"
abbrev pub connect_text : List ℕ
connect_text = 99 ∷ 111 ∷ 110 ∷ 110 ∷ 101 ∷ 99 ∷ 116 ∷ []

-- "createStream"
abbrev pub create_stream_text : List ℕ
create_stream_text = 99 ∷ 114 ∷ 101 ∷ 97 ∷ 116 ∷ 101 ∷ 83 ∷ 116 ∷ 114 ∷ 101 ∷ 97 ∷ 109 ∷ []

-- "publish"
abbrev pub publish_text : List ℕ
publish_text = 112 ∷ 117 ∷ 98 ∷ 108 ∷ 105 ∷ 115 ∷ 104 ∷ []

-- "_result"
abbrev pub result_text : List ℕ
result_text = 95 ∷ 114 ∷ 101 ∷ 115 ∷ 117 ∷ 108 ∷ 116 ∷ []

-- "onBWDone"
abbrev pub on_bw_done_text : List ℕ
on_bw_done_text = 111 ∷ 110 ∷ 66 ∷ 87 ∷ 68 ∷ 111 ∷ 110 ∷ 101 ∷ []

-- "onStatus"
abbrev pub on_status_text : List ℕ
on_status_text = 111 ∷ 110 ∷ 83 ∷ 116 ∷ 97 ∷ 116 ∷ 117 ∷ 115 ∷ []

-- "fmsVer"
abbrev pub fms_ver_text : List ℕ
fms_ver_text = 102 ∷ 109 ∷ 115 ∷ 86 ∷ 101 ∷ 114 ∷ []

-- "FMS/3,0,1,123"
abbrev pub fms_version_text : List ℕ
fms_version_text = 70 ∷ 77 ∷ 83 ∷ 47 ∷ 51 ∷ 44 ∷ 48 ∷ 44 ∷ 49 ∷ 44 ∷ 49 ∷ 50 ∷ 51 ∷ []

-- "capabilities"
abbrev pub capabilities_text : List ℕ
capabilities_text = 99 ∷ 97 ∷ 112 ∷ 97 ∷ 98 ∷ 105 ∷ 108 ∷ 105 ∷ 116 ∷ 105 ∷ 101 ∷ 115 ∷ []

-- "level"
abbrev pub level_text : List ℕ
level_text = 108 ∷ 101 ∷ 118 ∷ 101 ∷ 108 ∷ []

-- "status"
abbrev pub status_text : List ℕ
status_text = 115 ∷ 116 ∷ 97 ∷ 116 ∷ 117 ∷ 115 ∷ []

-- "code"
abbrev pub code_text : List ℕ
code_text = 99 ∷ 111 ∷ 100 ∷ 101 ∷ []

-- "NetConnection.Connect.Success"
abbrev pub connect_success_text : List ℕ
connect_success_text =
    78 ∷ 101 ∷ 116 ∷ 67 ∷ 111 ∷ 110 ∷ 110 ∷ 101 ∷ 99 ∷ 116 ∷ 105 ∷ 111 ∷ 110 ∷ 46 ∷ 67 ∷ 111 ∷ 110
    ∷ 110 ∷ 101 ∷ 99 ∷ 116 ∷ 46 ∷ 83 ∷ 117 ∷ 99 ∷ 99 ∷ 101 ∷ 115 ∷ 115 ∷ []

-- "description"
abbrev pub description_text : List ℕ
description_text = 100 ∷ 101 ∷ 115 ∷ 99 ∷ 114 ∷ 105 ∷ 112 ∷ 116 ∷ 105 ∷ 111 ∷ 110 ∷ []

-- "Connection succeeded"
abbrev pub connection_succeeded_text : List ℕ
connection_succeeded_text =
    67 ∷ 111 ∷ 110 ∷ 110 ∷ 101 ∷ 99 ∷ 116 ∷ 105 ∷ 111 ∷ 110 ∷ 32 ∷ 115 ∷ 117 ∷ 99 ∷ 99 ∷ 101 ∷ 101
    ∷ 100 ∷ 101 ∷ 100 ∷ []

-- "error"
abbrev pub error_text : List ℕ
error_text = 101 ∷ 114 ∷ 114 ∷ 111 ∷ 114 ∷ []

-- "NetStream.Publish.BadName"
abbrev pub bad_name_text : List ℕ
bad_name_text =
    78 ∷ 101 ∷ 116 ∷ 83 ∷ 116 ∷ 114 ∷ 101 ∷ 97 ∷ 109 ∷ 46 ∷ 80 ∷ 117 ∷ 98 ∷ 108 ∷ 105 ∷ 115 ∷ 104
    ∷ 46 ∷ 66 ∷ 97 ∷ 100 ∷ 78 ∷ 97 ∷ 109 ∷ 101 ∷ []

-- "NetStream.Publish.Start"
abbrev pub publish_start_text : List ℕ
publish_start_text =
    78 ∷ 101 ∷ 116 ∷ 83 ∷ 116 ∷ 114 ∷ 101 ∷ 97 ∷ 109 ∷ 46 ∷ 80 ∷ 117 ∷ 98 ∷ 108 ∷ 105 ∷ 115 ∷ 104
    ∷ 46 ∷ 83 ∷ 116 ∷ 97 ∷ 114 ∷ 116 ∷ []

-- "Start publishing"
abbrev pub start_publishing_text : List ℕ
start_publishing_text =
    83 ∷ 116 ∷ 97 ∷ 114 ∷ 116 ∷ 32 ∷ 112 ∷ 117 ∷ 98 ∷ 108 ∷ 105 ∷ 115 ∷ 104 ∷ 105 ∷ 110 ∷ 103 ∷ []

-- "clientid"
abbrev pub client_id_text : List ℕ
client_id_text = 99 ∷ 108 ∷ 105 ∷ 101 ∷ 110 ∷ 116 ∷ 105 ∷ 100 ∷ []

-- "0"
abbrev pub zero_text : List ℕ
zero_text = 48 ∷ []

-- "app"
abbrev pub app_text : List ℕ
app_text = 97 ∷ 112 ∷ 112 ∷ []

-- "tcUrl"
abbrev pub tc_url_text : List ℕ
tc_url_text = 116 ∷ 99 ∷ 85 ∷ 114 ∷ 108 ∷ []

-- "RTMP"
abbrev pub rtmp_text : List ℕ
rtmp_text = 82 ∷ 84 ∷ 77 ∷ 80 ∷ []

-- "@setDataFrame"
abbrev pub set_data_frame_text : List ℕ
set_data_frame_text = 64 ∷ 115 ∷ 101 ∷ 116 ∷ 68 ∷ 97 ∷ 116 ∷ 97 ∷ 70 ∷ 114 ∷ 97 ∷ 109 ∷ 101 ∷ []

-- "onMetaData"
abbrev pub on_meta_data_text : List ℕ
on_meta_data_text = 111 ∷ 110 ∷ 77 ∷ 101 ∷ 116 ∷ 97 ∷ 68 ∷ 97 ∷ 116 ∷ 97 ∷ []
