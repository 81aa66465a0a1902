-- ===== src/Http/Protocol/Texts.antt =====
-- The texts of src/protocol/http/http_protocol.cpp, http_protocol.h, meta.cpp and meta.h, in UTF-8.
use streaming.Prelude.{ℕ, List, [], ◌∷◌}

-- "\r\n"
abbrev pub line_break : List ℕ
line_break = 13 ∷ 10 ∷ []

-- "\r\n\r\n"
abbrev pub packet_tail : List ℕ
packet_tail = 13 ∷ 10 ∷ 13 ∷ 10 ∷ []

-- "OBS-Streaming"
abbrev pub server_name : List ℕ
server_name = 79 ∷ 66 ∷ 83 ∷ 45 ∷ 83 ∷ 116 ∷ 114 ∷ 101 ∷ 97 ∷ 109 ∷ 105 ∷ 110 ∷ 103 ∷ []

-- "HTTP/1.1 "
abbrev pub http_version : List ℕ
http_version = 72 ∷ 84 ∷ 84 ∷ 80 ∷ 47 ∷ 49 ∷ 46 ∷ 49 ∷ 32 ∷ []

-- "server"
abbrev pub server_key : List ℕ
server_key = 115 ∷ 101 ∷ 114 ∷ 118 ∷ 101 ∷ 114 ∷ []

-- "date"
abbrev pub date_key : List ℕ
date_key = 100 ∷ 97 ∷ 116 ∷ 101 ∷ []

-- "Connection"
abbrev pub connection_key : List ℕ
connection_key = 67 ∷ 111 ∷ 110 ∷ 110 ∷ 101 ∷ 99 ∷ 116 ∷ 105 ∷ 111 ∷ 110 ∷ []

-- "close"
abbrev pub close_text : List ℕ
close_text = 99 ∷ 108 ∷ 111 ∷ 115 ∷ 101 ∷ []

-- "keep-alive"
abbrev pub keep_alive_text : List ℕ
keep_alive_text = 107 ∷ 101 ∷ 101 ∷ 112 ∷ 45 ∷ 97 ∷ 108 ∷ 105 ∷ 118 ∷ 101 ∷ []

-- "Keep-Alive"
abbrev pub keep_alive_key : List ℕ
keep_alive_key = 75 ∷ 101 ∷ 101 ∷ 112 ∷ 45 ∷ 65 ∷ 108 ∷ 105 ∷ 118 ∷ 101 ∷ []

-- "timeout=20, max=100"
abbrev pub keep_alive_limits : List ℕ
keep_alive_limits =
    116 ∷ 105 ∷ 109 ∷ 101 ∷ 111 ∷ 117 ∷ 116 ∷ 61 ∷ 50 ∷ 48 ∷ 44 ∷ 32 ∷ 109 ∷ 97 ∷ 120 ∷ 61 ∷ 49 ∷ 48
    ∷ 48 ∷ []

-- "Access-Control-Allow-Origin"
abbrev pub allow_origin_key : List ℕ
allow_origin_key =
    65 ∷ 99 ∷ 99 ∷ 101 ∷ 115 ∷ 115 ∷ 45 ∷ 67 ∷ 111 ∷ 110 ∷ 116 ∷ 114 ∷ 111 ∷ 108 ∷ 45 ∷ 65 ∷ 108
    ∷ 108 ∷ 111 ∷ 119 ∷ 45 ∷ 79 ∷ 114 ∷ 105 ∷ 103 ∷ 105 ∷ 110 ∷ []

-- "*"
abbrev pub any_origin : List ℕ
any_origin = 42 ∷ []

-- "Access-Control-Allow-Credentials"
abbrev pub allow_credentials_key : List ℕ
allow_credentials_key =
    65 ∷ 99 ∷ 99 ∷ 101 ∷ 115 ∷ 115 ∷ 45 ∷ 67 ∷ 111 ∷ 110 ∷ 116 ∷ 114 ∷ 111 ∷ 108 ∷ 45 ∷ 65 ∷ 108
    ∷ 108 ∷ 111 ∷ 119 ∷ 45 ∷ 67 ∷ 114 ∷ 101 ∷ 100 ∷ 101 ∷ 110 ∷ 116 ∷ 105 ∷ 97 ∷ 108 ∷ 115 ∷ []

-- "true"
abbrev pub true_text : List ℕ
true_text = 116 ∷ 114 ∷ 117 ∷ 101 ∷ []

-- "Content-Length"
abbrev pub content_length_key : List ℕ
content_length_key =
    67 ∷ 111 ∷ 110 ∷ 116 ∷ 101 ∷ 110 ∷ 116 ∷ 45 ∷ 76 ∷ 101 ∷ 110 ∷ 103 ∷ 116 ∷ 104 ∷ []

-- "text/plain"
abbrev pub text_plain : List ℕ
text_plain = 116 ∷ 101 ∷ 120 ∷ 116 ∷ 47 ∷ 112 ∷ 108 ∷ 97 ∷ 105 ∷ 110 ∷ []

-- "Content-Type"
abbrev pub content_type_key : List ℕ
content_type_key = 67 ∷ 111 ∷ 110 ∷ 116 ∷ 101 ∷ 110 ∷ 116 ∷ 45 ∷ 84 ∷ 121 ∷ 112 ∷ 101 ∷ []

-- "; charset=utf-8"
abbrev pub charset : List ℕ
charset = 59 ∷ 32 ∷ 99 ∷ 104 ∷ 97 ∷ 114 ∷ 115 ∷ 101 ∷ 116 ∷ 61 ∷ 117 ∷ 116 ∷ 102 ∷ 45 ∷ 56 ∷ []

-- ": "
abbrev pub separator : List ℕ
separator = 58 ∷ 32 ∷ []

-- "Cache-Control"
abbrev pub cache_control_key : List ℕ
cache_control_key = 67 ∷ 97 ∷ 99 ∷ 104 ∷ 101 ∷ 45 ∷ 67 ∷ 111 ∷ 110 ∷ 116 ∷ 114 ∷ 111 ∷ 108 ∷ []

-- "no-store"
abbrev pub no_store : List ℕ
no_store = 110 ∷ 111 ∷ 45 ∷ 115 ∷ 116 ∷ 111 ∷ 114 ∷ 101 ∷ []

-- "video/x-flv"
abbrev pub video_flv : List ℕ
video_flv = 118 ∷ 105 ∷ 100 ∷ 101 ∷ 111 ∷ 47 ∷ 120 ∷ 45 ∷ 102 ∷ 108 ∷ 118 ∷ []

-- "text/html"
abbrev pub text_html : List ℕ
text_html = 116 ∷ 101 ∷ 120 ∷ 116 ∷ 47 ∷ 104 ∷ 116 ∷ 109 ∷ 108 ∷ []

-- "OK"
abbrev pub ok_msg : List ℕ
ok_msg = 79 ∷ 75 ∷ []

-- "Bad Request"
abbrev pub bad_request_msg : List ℕ
bad_request_msg = 66 ∷ 97 ∷ 100 ∷ 32 ∷ 82 ∷ 101 ∷ 113 ∷ 117 ∷ 101 ∷ 115 ∷ 116 ∷ []

-- "Not Found"
abbrev pub not_found_msg : List ℕ
not_found_msg = 78 ∷ 111 ∷ 116 ∷ 32 ∷ 70 ∷ 111 ∷ 117 ∷ 110 ∷ 100 ∷ []

-- "Method Not Allowed"
abbrev pub method_not_allowed_msg : List ℕ
method_not_allowed_msg =
    77 ∷ 101 ∷ 116 ∷ 104 ∷ 111 ∷ 100 ∷ 32 ∷ 78 ∷ 111 ∷ 116 ∷ 32 ∷ 65 ∷ 108 ∷ 108 ∷ 111 ∷ 119 ∷ 101
    ∷ 100 ∷ []

-- "Unsupported Media Type"
abbrev pub unsupported_media_type_msg : List ℕ
unsupported_media_type_msg =
    85 ∷ 110 ∷ 115 ∷ 117 ∷ 112 ∷ 112 ∷ 111 ∷ 114 ∷ 116 ∷ 101 ∷ 100 ∷ 32 ∷ 77 ∷ 101 ∷ 100 ∷ 105 ∷ 97
    ∷ 32 ∷ 84 ∷ 121 ∷ 112 ∷ 101 ∷ []

-- "Internal Server Error"
abbrev pub internal_server_error_msg : List ℕ
internal_server_error_msg =
    73 ∷ 110 ∷ 116 ∷ 101 ∷ 114 ∷ 110 ∷ 97 ∷ 108 ∷ 32 ∷ 83 ∷ 101 ∷ 114 ∷ 118 ∷ 101 ∷ 114 ∷ 32 ∷ 69
    ∷ 114 ∷ 114 ∷ 111 ∷ 114 ∷ []

-- `k404Body`, without the NUL behind it.
abbrev pub not_found_body : List ℕ
not_found_body =
    60 ∷ 104 ∷ 116 ∷ 109 ∷ 108 ∷ 62 ∷ 60 ∷ 104 ∷ 101 ∷ 97 ∷ 100 ∷ 62 ∷ 60 ∷ 116 ∷ 105 ∷ 116 ∷ 108
    ∷ 101 ∷ 62 ∷ 52 ∷ 48 ∷ 52 ∷ 32 ∷ 78 ∷ 111 ∷ 116 ∷ 32 ∷ 70 ∷ 111 ∷ 117 ∷ 110 ∷ 100 ∷ 60 ∷ 47
    ∷ 116 ∷ 105 ∷ 116 ∷ 108 ∷ 101 ∷ 62 ∷ 60 ∷ 47 ∷ 104 ∷ 101 ∷ 97 ∷ 100 ∷ 62 ∷ 60 ∷ 98 ∷ 111 ∷ 100
    ∷ 121 ∷ 32 ∷ 98 ∷ 103 ∷ 99 ∷ 111 ∷ 108 ∷ 111 ∷ 114 ∷ 61 ∷ 34 ∷ 119 ∷ 104 ∷ 105 ∷ 116 ∷ 101 ∷ 34
    ∷ 62 ∷ 60 ∷ 99 ∷ 101 ∷ 110 ∷ 116 ∷ 101 ∷ 114 ∷ 62 ∷ 60 ∷ 104 ∷ 49 ∷ 62 ∷ 230 ∷ 130 ∷ 168 ∷ 232
    ∷ 174 ∷ 191 ∷ 233 ∷ 151 ∷ 174 ∷ 231 ∷ 154 ∷ 132 ∷ 232 ∷ 181 ∷ 132 ∷ 230 ∷ 186 ∷ 144 ∷ 228 ∷ 184
    ∷ 141 ∷ 229 ∷ 173 ∷ 152 ∷ 229 ∷ 156 ∷ 168 ∷ 239 ∷ 188 ∷ 129 ∷ 60 ∷ 47 ∷ 104 ∷ 49 ∷ 62 ∷ 60 ∷ 47
    ∷ 99 ∷ 101 ∷ 110 ∷ 116 ∷ 101 ∷ 114 ∷ 62 ∷ 60 ∷ 104 ∷ 114 ∷ 62 ∷ 60 ∷ 99 ∷ 101 ∷ 110 ∷ 116 ∷ 101
    ∷ 114 ∷ 62 ∷ 78 ∷ 111 ∷ 116 ∷ 32 ∷ 70 ∷ 111 ∷ 117 ∷ 110 ∷ 100 ∷ 33 ∷ 60 ∷ 47 ∷ 99 ∷ 101 ∷ 110
    ∷ 116 ∷ 101 ∷ 114 ∷ 62 ∷ 60 ∷ 47 ∷ 98 ∷ 111 ∷ 100 ∷ 121 ∷ 62 ∷ 60 ∷ 47 ∷ 104 ∷ 116 ∷ 109 ∷ 108
    ∷ 62 ∷ []
