-- ===== src/Http/Protocol/Response.antt =====
-- `http_protocol::send_response` and protocol/http/meta.h: the bytes of an answer.
use streaming.Prelude.{
  ℕ, Bool, true, false, not, Option, none, some, List, [], ◌∷◌, ◌++◌, length, ◌==◌, if◌then◌else◌,
}
use streaming.Prelude.Decimal.{to_string}
use streaming.Prelude.Sending.{Call, ◌>>◌, return, send}
use streaming.Http.Protocol.Texts.{
  line_break, server_name, http_version, server_key, date_key, connection_key, close_text,
  keep_alive_text, keep_alive_key, keep_alive_limits, allow_origin_key, any_origin,
  allow_credentials_key, true_text, content_length_key, text_plain, content_type_key, charset,
  separator, ok_msg, bad_request_msg, not_found_msg, method_not_allowed_msg,
  unsupported_media_type_msg, internal_server_error_msg,
}
use streaming.Rtmp.Amf.Map.{key_lt}

-- `enum class Status`; `ok` is `okay`.
pub data Status : Type 0 where
  okay bad_request not_found method_not_allowed unsupported_media_type : Status
  internal_server_error : Status

-- `magic_enum::enum_integer(status)`
unfoldable pub enum_integer : Status → ℕ
enum_integer okay = 200
enum_integer bad_request = 400
enum_integer not_found = 404
enum_integer method_not_allowed = 405
enum_integer unsupported_media_type = 415
enum_integer internal_server_error = 500

unfoldable pub code_to_msg : Status → List ℕ
code_to_msg okay = ok_msg
code_to_msg bad_request = bad_request_msg
code_to_msg not_found = not_found_msg
code_to_msg method_not_allowed = method_not_allowed_msg
code_to_msg unsupported_media_type = unsupported_media_type_msg
code_to_msg internal_server_error = internal_server_error_msg

-- `std::multimap` of texts, in the order of its iteration.
abbrev pub Fields : Type 0
Fields = List (List ℕ × List ℕ)

-- `emplace` puts an element behind those whose keys are not greater.
unfoldable pub emplace : List ℕ → List ℕ → Fields → Fields
emplace key value [] = (key, value) ∷ []
emplace key value ((k, v) ∷ fields) =
    let later = (k, v) ∷ emplace key value fields in
    if key_lt key k then (key, value) ∷ (k, v) ∷ fields else later

unfoldable pub emplace_if : Bool → List ℕ → List ℕ → Fields → Fields
unfolding emplace
emplace_if b key value fields = if b then emplace key value fields else fields

-- A body that is a null pointer is `none`.
unfoldable pub has_response_body : Option (List ℕ) → Bool
has_response_body none = false
has_response_body (some body) = not (length body == 0)

abbrev pub body_size : Option (List ℕ) → ℕ
body_size none = 0
body_size (some body) = length body

abbrev type_or_default : Option (List ℕ) → List ℕ
type_or_default none = text_plain
type_or_default (some content_type) = content_type

-- The fields of an answer. `date` is what `util::http_date` gives.
unfoldable pub response_fields : List ℕ → Bool → Option (List ℕ) → Option (List ℕ) → Fields → Fields
unfolding emplace emplace_if has_response_body to_string
response_fields date is_close http_body content_type headers =
    let response = emplace server_key server_name headers in
    let response = emplace date_key date response in
    let response =
      emplace connection_key (if is_close then close_text else keep_alive_text) response in
    let response = emplace_if (not is_close) keep_alive_key keep_alive_limits response in
    let response = emplace allow_origin_key any_origin response in
    let response = emplace allow_credentials_key true_text response in
    let response =
      emplace_if (has_response_body http_body) content_length_key (to_string (body_size http_body))
        response in
    emplace content_type_key (type_or_default content_type ++ charset) response

unfoldable pub field_lines : Fields → List ℕ
field_lines [] = []
field_lines ((key, value) ∷ fields) =
    key ++ (separator ++ (value ++ (line_break ++ field_lines fields)))

unfoldable pub response_head : Status → Fields → List ℕ
unfolding to_string enum_integer code_to_msg field_lines
response_head status fields =
    http_version
    ++ (to_string (enum_integer status)
        ++ ((32 ∷ [])
            ++ (code_to_msg status ++ (line_break ++ (field_lines fields ++ line_break)))))

-- The last argument of the second call is the function `close` of the system, not `is_close`: a
-- pointer that is not null.
unfoldable pub send_body : {S : Type 0} → Option (List ℕ) → Call S (Unit {0})
send_body none = return tt
send_body (some body) = if length body == 0 then return tt else send body true true

unfoldable pub send_response :
    {S : Type 0}
    → List ℕ
    → Status
    → Bool
    → Option (List ℕ)
    → Option (List ℕ)
    → Fields
    → Call S (Unit {0})
unfolding response_head response_fields send_body
send_response date status is_close http_body content_type headers = do
  send (response_head status (response_fields date is_close http_body content_type headers)) true
      is_close
  send_body http_body
