-- ===== src/Rtmp/Amf/RoundTrip.antt =====
-- The decoder reads back the strings, numbers and booleans that the encoder wrote.
use streaming.Prelude.{
  ℕ, zero, suc, ◌/◌, ◌%◌, ◌^◌, ◌<◌, ◌≢◌, ◌≡◌, refl, ap, arith, Bool, true, false, List, [], ◌∷◌,
  ◌++◌, length, All, append_assoc,
}
use streaming.Prelude.Outcome.{Error, ok, expected_string, expected_number, expected_bool}
use streaming.Prelude.Words.{put16, put32}
use streaming.Network.Unread.Laws.{read_byte, read-put16, read-put64, read_string-append}
use streaming.Rtmp.Amf.{
  c_string, encode_string, encode_number, encode_boolean, write_key, pop_front, expect, load_string,
  load_number, load_boolean, load_key, amf_string, amf_number, amf_boolean, amf_switch_3,
}

-- A string that a C string can hold, short enough for its length field.
pub record IsText (s : List ℕ) : Type 0 where
  pub no_nul : All (λ c. c ≢ 0) s
  pub short : length s < 2 ^ 16

pub c_string-id : (s : List ℕ) → All (λ c. c ≢ 0) s → c_string s ≡ s
unfolding c_string
c_string-id [] h = refl
c_string-id (zero ∷ s) h = absurd (h.0 refl)
c_string-id (suc c ∷ s) h = ap (λ l. suc c ∷ l) (c_string-id s h.1)

pub pop_front_lem :
    (x v : ℕ) (u : List ℕ)
    → x ≢ amf_switch_3
    → pop_front (record { version = v; buf = x ∷ u }) ≡ ok (x, record { version = v; buf = u })
unfolding pop_front
pop_front_lem x v u h = rw (read_byte x u) (ground arith)

pub expect_lem :
    (x v : ℕ) (e : Error) (u : List ℕ)
    → x ≢ amf_switch_3
    → expect x e (record { version = v; buf = x ∷ u }) ≡ ok (tt, record { version = v; buf = u })
unfolding expect
expect_lem x v e u h = rw (pop_front_lem x v u h) (ground arith)

-- What `load<std::string>` makes of a string marker, a length and that many bytes.
pub load_string_lem :
    (n v : ℕ) (s u : List ℕ)
    → n ≡ length s
    → n < 2 ^ 16
    → load_string (record { version = v; buf = amf_string ∷ (put16 n ++ (s ++ u)) })
      ≡ ok (s, record { version = v; buf = u })
unfolding load_string
load_string_lem n v s u e h = ground (
  arith,
  expect_lem amf_string v expected_string (put16 n ++ (s ++ u)),
  read-put16 n (s ++ u) h,
  read_string-append n s u e,
)

-- A string without NUL and shorter than 2 ^ 16 bytes is decoded from its encoding, and what
-- follows is left.
pub load_string-encode_string :
    (s u : List ℕ) (v : ℕ)
    → IsText s
    → load_string (record { version = v; buf = encode_string [] s ++ u })
      ≡ ok (s, record { version = v; buf = u })
unfolding encode_string
load_string-encode_string s u v t = rw (c_string-id s t.no_nul) (
    ground (
      arith,
      load_string_lem (length s % 2 ^ 16) v s u,
      append_assoc (put16 (length s % 2 ^ 16)) s u,
    ))

-- The 64 bits of a number are decoded from its encoding, and what follows is left.
pub load_number-encode_number :
    (n v : ℕ) (u : List ℕ)
    → n < 2 ^ 64
    → load_number (record { version = v; buf = encode_number [] n ++ u })
      ≡ ok (n, record { version = v; buf = u })
unfolding encode_number load_number
load_number-encode_number n v u h = ground (
  arith,
  expect_lem amf_number v expected_number (put32 (n / 2 ^ 32 % 2 ^ 32) ++ put32 (n % 2 ^ 32) ++ u),
  read-put64 n u h,
)

pub load_boolean-encode_boolean :
    (b : Bool) (v : ℕ) (u : List ℕ)
    → load_boolean (record { version = v; buf = encode_boolean [] b ++ u })
      ≡ ok (b, record { version = v; buf = u })
unfolding encode_boolean load_boolean
load_boolean-encode_boolean true v u =
    ground (arith, expect_lem amf_boolean v expected_bool (1 ∷ u), pop_front_lem 1 v u)
load_boolean-encode_boolean false v u =
    ground (arith, expect_lem amf_boolean v expected_bool (0 ∷ u), pop_front_lem 0 v u)

-- A key of fewer than 2 ^ 16 bytes is read back as it was written, and leaves what follows.
pub load_key-write_key :
    (k u : List ℕ) (v : ℕ)
    → length k < 2 ^ 16
    → load_key (record { version = v; buf = write_key [] k ++ u })
      ≡ ok (k, record { version = v; buf = u })
unfolding write_key load_key
load_key-write_key k u v h = ground (
  arith,
  read-put16 (length k) (k ++ u) h,
  read_string-append (length k) k u refl,
  append_assoc (put16 (length k)) k u,
)
