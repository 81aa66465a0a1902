-- ===== src/Prelude/Outcome.antt =====
-- What a call of the program gives back: a value, or the exception that it throws.
use mathlib.Core.Path.{◌≡◌, refl}
use mathlib.Core.Bool.{Bool, true, false}
use mathlib.Core.Logic.{◌⊎◌, inl, inr}

-- One constructor for each message that the modelled code throws. `undefined` marks what C++
-- leaves undefined, such as a read past the end of an array.
pub data Error : Type 0 where
  -- network/flat_buffer.h, network/buffer.h
  not_enough_data cannot_consume lacks_required_length : Error
  read_buffer_limit write_index_out_of_range size_beyond_capacity : Error
  -- protocol/rtmp/amf.cpp
  expected_string expected_number expected_bool expected_object expected_object_end : Error
  not_a_string not_a_number not_a_bool not_an_object : Error
  -- protocol/rtmp/rtmp_protocol.cpp
  bad_version bad_chunk_stream control_too_short not_published : Error
  -- codec and protocol/rtmp: tracks, decoders, source
  bad_aac_config bad_sample_index bad_sps bad_nal_lengths : Error
  publish_expects_null not_owner bad_media_info : Error
  empty_metadata bad_any_cast unsupported_codec no_muxer not_av no_dispatcher : Error
  -- media/media_info.h, media/media_source.cpp
  empty_field already_pushed : Error
  -- protocol/flv and protocol/http
  invalid_flv bad_http_header no_http_method no_end_label not_a_number_text : Error
  bad_http_packet bad_flv_sources no_session : Error
  -- null pointers and empty callbacks that setters and getters refuse
  empty_read_cb empty_detach_cb invalid_session empty_frame_buffer lost_frame_buffer : Error
  empty_translator empty_muxer lost_muxer null_string no_decoder_buffer : Error
  -- network/tcp_server.cpp
  no_tcp_address : Error
  out_of_fuel undefined : Error

pub data Result {ℓ} (A : Type ℓ) : Type ℓ where
  err : Error → Result A
  ok : A → Result A

infixl 5 ◌>>=◌
-- A call, and what is done with its value.
abbrev pub ◌>>=◌ {ℓ κ} : {A : Type ℓ} {B : Type κ} → Result A → (A → Result B) → Result B
err e >>= next = err e
ok a >>= next = next a

-- `if (c) throw e;`
abbrev pub throw_if : Bool → Error → Result (Unit {0})
throw_if true e = err e
throw_if false e = ok tt

infixl 5 ◌>>◌
abbrev pub ◌>>◌ {ℓ} : {B : Type ℓ} → Result (Unit {0}) → Result B → Result B
call >> next = call >>= (λ done. next)

abbrev pub map_ok {ℓ κ} : {A : Type ℓ} {B : Type κ} → (A → B) → Result A → Result B
map_ok f (ok a) = ok (f a)
map_ok f (err e) = err e

pub Result-cases {ℓ} :
    {A : Type ℓ} (r : Result A) → ((a : A) × (r ≡ ok a)) ⊎ ((e : Error) × (r ≡ err e))
Result-cases (ok a) = inl (a, refl)
Result-cases (err e) = inr (e, refl)

-- A sequence that succeeds has a first step that succeeds.
pub >>=-eq-ok {ℓ κ} :
    {A : Type ℓ} {B : Type κ} (call : Result A) (next : A → Result B) {last : B}
    → (call >>= next) ≡ ok last
    → (first : A) × (call ≡ ok first) × (next first ≡ ok last)
>>=-eq-ok (err e) next thrown = absurd (cc)
>>=-eq-ok (ok a) next done = (a, refl, done)

pub ok-injective {ℓ} : {A : Type ℓ} {a b : A} → ok a ≡ ok b → a ≡ b
ok-injective h = cc

pub err-injective {ℓ} : {A : Type ℓ} {x y : Error} → ◌≡◌ {A = Result A} (err x) (err y) → x ≡ y
err-injective h = cc

-- `P` holds of the value, if there is one.
abbrev pub Ensures {ℓ κ} : {A : Type ℓ} → (A → Type κ) → Result A → Type κ
Ensures P (ok a) = P a
Ensures P (err e) = Unit {κ}
