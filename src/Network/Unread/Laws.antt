-- ===== src/Network/Unread/Laws.antt =====
-- Reading back from the front of the unread bytes what a writer put there.
use streaming.Prelude.{
  ℕ, ◌/◌, ◌%◌, ◌^◌, ◌<◌, ◌≡◌, arith, List, ◌∷◌, ◌++◌, length, length-append, take-append,
  drop-append,
}
use streaming.Prelude.Outcome.{ok}
use streaming.Prelude.Words.{put16, put32}
use streaming.Network.Unread.{peek, read, read_string, consume}

pub peek_byte : (x : ℕ) (u : List ℕ) → peek 1 (x ∷ u) ≡ ok x
unfolding peek
peek_byte x u = ground arith

pub read_byte : (x : ℕ) (u : List ℕ) → read 1 (x ∷ u) ≡ ok (x, u)
unfolding read
read_byte x u = ground arith

pub read-put16 : (n : ℕ) (u : List ℕ) → n < 2 ^ 16 → read 2 (put16 n ++ u) ≡ ok (n, u)
unfolding read
read-put16 n u h = ground arith

pub read-put64 :
    (n : ℕ) (u : List ℕ)
    → n < 2 ^ 64
    → read 8 ((put32 (n / 2 ^ 32 % 2 ^ 32) ++ put32 (n % 2 ^ 32)) ++ u) ≡ ok (n, u)
unfolding read
read-put64 n u h = ground arith

pub read_string-append : (n : ℕ) (s u : List ℕ) → n ≡ length s → read_string n (s ++ u) ≡ ok (s, u)
unfolding read_string
read_string-append n s u e =
    ground (arith, length-append s u, take-append n s u e, drop-append n s u e)

pub consume-append : (n : ℕ) (s u : List ℕ) → n ≡ length s → consume n (s ++ u) ≡ ok u
unfolding consume
consume-append n s u e = ground (arith, length-append s u, drop-append n s u e)

pub read-put32 : (n : ℕ) (u : List ℕ) → n < 2 ^ 32 → read 4 (put32 n ++ u) ≡ ok (n, u)
unfolding read
read-put32 n u h = ground arith

pub read-put24 :
    (n : ℕ) (u : List ℕ)
    → n < 2 ^ 24
    → read 3 ((n / 2 ^ 16 % 256) ∷ (n / 2 ^ 8 % 256) ∷ (n % 256) ∷ u) ≡ ok (n, u)
unfolding read
read-put24 n u h = ground arith
