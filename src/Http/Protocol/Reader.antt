-- ===== src/Http/Protocol/Reader.antt =====
-- A client that reads the answers of src/protocol/http/http_protocol.cpp: the status line, the
-- fields and what stands behind them.
use streaming.Prelude.{
  ℕ, ◌+◌, ◌*◌, ◌-◌, ◌<◌, ◌≡◌, refl, ap, ◌∙◌, Option, none, some, List, [], ◌∷◌, ◌++◌, append_assoc,
  length, All, drop, if◌then◌else◌,
}
use streaming.Media.Info.{starts_with}
use streaming.Media.Info.RoundTrip.{Without}
use streaming.Http.Protocol.Texts.{http_version, line_break}
use streaming.Prelude.Decimal.{to_string, decimal}
use streaming.Http.Protocol.Response.{
  Status, okay, bad_request, not_found, method_not_allowed, unsupported_media_type,
  internal_server_error, enum_integer, code_to_msg, Fields, field_lines, response_head,
}
use streaming.Http.Protocol.Lines.{
  Read, IsField, read_line, read_fields, without, without-Without, read_line-line_break,
  read_fields-field_lines,
}

-- The code, the message, the fields and what stands behind the head.
pub record Answer : Type 0 where
  pub code : ℕ
  pub message : List ℕ
  pub fields : Fields
  pub body : List ℕ

-- "HTTP/1.1 ", three digits, a blank and the message.
unfoldable pub read_status : List ℕ → Option (ℕ × List ℕ)
unfolding starts_with
read_status line =
    let code = drop (length http_version) line in
    if starts_with http_version line then digits code else none
  where
    digits : List ℕ → Option (ℕ × List ℕ)
    digits (a ∷ b ∷ c ∷ d ∷ message) = some ((a - 48) * 100 + (b - 48) * 10 + (c - 48), message)
    digits other = none

abbrev all_of : Option (ℕ × List ℕ) → Read → Option Answer
all_of none more = none
all_of (some status) none = none
all_of (some (code, message)) (some (fields, body)) =
    some (record { code = code; message = message; fields = fields; body = body })

abbrev behind_status : ℕ → Option (List ℕ × List ℕ) → Option Answer
behind_status fuel none = none
behind_status fuel (some (line, rest)) = all_of (read_status line) (read_fields fuel rest)

unfoldable pub read_answer : ℕ → List ℕ → Option Answer
unfolding read_line read_status read_fields
read_answer fuel bytes = behind_status fuel (read_line bytes)

-- What the client reads: status, message, fields and the body behind them.
abbrev pub answer_of : Status → Fields → List ℕ → Answer
answer_of status fields body = record {
  code = enum_integer status;
  message = code_to_msg status;
  fields = fields;
  body = body;
}

abbrev status_line : Status → List ℕ
status_line status =
    http_version ++ (to_string (enum_integer status) ++ ((32 ∷ []) ++ code_to_msg status))

read_status-status_line :
    (status : Status)
    → read_status (status_line status) ≡ some (enum_integer status, code_to_msg status)
unfolding read_status starts_with enum_integer code_to_msg to_string decimal
read_status-status_line okay = refl
read_status-status_line bad_request = refl
read_status-status_line not_found = refl
read_status-status_line method_not_allowed = refl
read_status-status_line unsupported_media_type = refl
read_status-status_line internal_server_error = refl

status_line-Without : (status : Status) → Without 13 (status_line status)
unfolding enum_integer code_to_msg to_string decimal without
status_line-Without okay = without-Without 13 (status_line okay) refl
status_line-Without bad_request = without-Without 13 (status_line bad_request) refl
status_line-Without not_found = without-Without 13 (status_line not_found) refl
status_line-Without method_not_allowed = without-Without 13 (status_line method_not_allowed) refl
status_line-Without unsupported_media_type =
    without-Without 13 (status_line unsupported_media_type) refl
status_line-Without internal_server_error =
    without-Without 13 (status_line internal_server_error) refl

regroup_head :
    (a b c m fields body : List ℕ)
    → (a ++ (b ++ (c ++ (m ++ (line_break ++ (fields ++ line_break)))))) ++ body
      ≡ (a ++ (b ++ (c ++ m))) ++ (line_break ++ (fields ++ (line_break ++ body)))
regroup_head a b c m fields body = simp append_assoc

-- An answer whose fields have lines of their own is read back as its status, message, fields and
-- body.
pub read_answer-response_head :
    (status : Status) (fields : Fields) (body : List ℕ) (fuel : ℕ)
    → All IsField fields
    → length fields < fuel
    → read_answer fuel (response_head status fields ++ body) ≡ some (answer_of status fields body)
unfolding read_answer response_head
read_answer-response_head status fields body fuel ok room =
    let rest = field_lines fields ++ (line_break ++ body) in
    ap (read_answer fuel) (
      regroup_head http_version (to_string (enum_integer status)) (32 ∷ []) (code_to_msg status)
        (field_lines fields) body)
    ∙ ap (behind_status fuel)
        (read_line-line_break (status_line status) rest (status_line-Without status))
    ∙ (rw (read_status-status_line status, read_fields-field_lines fields body fuel ok room) refl)
