-- ===== src/Rtmp/Amf/Ends.antt =====
-- The loop of `load_object` ends on every input: each round takes bytes from the buffer.
use streaming.Prelude.{
  ℕ, zero, suc, ◌+◌, ◌≤◌, ◌<◌, ◌≢◌, ◌≡◌, ap, ◌∙◌, arith, List, [], ◌∷◌, length, length-drop, inl,
  inr,
}
use streaming.Prelude.Outcome.{
  Error, Result-cases, ok, err, ◌>>=◌, >>=-eq-ok, err-injective, out_of_fuel, expected_string,
}
use streaming.Network.Unread
use streaming.Rtmp.Amf.{
  Decoder, lift, load_value, Members, pop_front, expect, load_members, load_object, load_key,
  load_string, amf_string,
}

read-shrinks :
    (n : ℕ) (u : List ℕ) (p : ℕ × List ℕ) → Unread.read n u ≡ ok p → length p.1 + n ≡ length u
unfolding Unread.read
read-shrinks n u p e = ground (arith, length-drop n u)

read_string-shrinks :
    (n : ℕ) (u : List ℕ) (p : List ℕ × List ℕ)
    → Unread.read_string n u ≡ ok p
    → length p.1 ≤ length u
unfolding Unread.read_string
read_string-shrinks n u p e = ground (arith, length-drop n u)

read-fuel : (n : ℕ) (u : List ℕ) → Unread.read n u ≢ err out_of_fuel
unfolding Unread.read
read-fuel n u e = ground arith

read_string-fuel : (n : ℕ) (u : List ℕ) → Unread.read_string n u ≢ err out_of_fuel
unfolding Unread.read_string
read_string-fuel n u e = ground arith

pop_front-fuel : (d : Decoder) → pop_front d ≢ err out_of_fuel
unfolding pop_front
pop_front-fuel d e = ground (arith, read-fuel 1 d.buf)

pop_front-shrinks :
    (d : Decoder) (p : ℕ × Decoder) → pop_front d ≡ ok p → length p.1.buf + 1 ≡ length d.buf
unfolding pop_front
pop_front-shrinks d p e = grind (arith, read-shrinks)

lift-read-shrinks :
    (n : ℕ) (d : Decoder) (p : ℕ × Decoder)
    → lift (Unread.read n) d ≡ ok p
    → length p.1.buf + n ≡ length d.buf
lift-read-shrinks n d p e =
    let (q, r, f) = >>=-eq-ok (Unread.read n d.buf) (λ q. ok (q.0, record d { buf = q.1 })) e in
    ground (arith, read-shrinks n d.buf q r, f)

lift-read_string-shrinks :
    (n : ℕ) (d : Decoder) (p : List ℕ × Decoder)
    → lift (Unread.read_string n) d ≡ ok p
    → length p.1.buf ≤ length d.buf
lift-read_string-shrinks n d p e =
    let (q, r, f) =
      >>=-eq-ok (Unread.read_string n d.buf) (λ q. ok (q.0, record d { buf = q.1 })) e in
    ground (arith, read_string-shrinks n d.buf q r, f)

load_key-shrinks :
    (d : Decoder) (p : List ℕ × Decoder) → load_key d ≡ ok p → length p.1.buf < length d.buf
unfolding load_key
load_key-shrinks d p e =
    let (q, r, f) = >>=-eq-ok (lift (Unread.read 2) d) (λ q. lift (Unread.read_string q.0) q.1) e in
    omega (arith, lift-read-shrinks 2 d q r, lift-read_string-shrinks q.0 q.1 p f)

load_key-fuel : (d : Decoder) → load_key d ≢ err out_of_fuel
unfolding load_key
load_key-fuel d e = grind (arith, read-fuel, read_string-fuel)

expect-fuel : (t : ℕ) (x : Error) (d : Decoder) → x ≢ out_of_fuel → expect t x d ≢ err out_of_fuel
unfolding expect
expect-fuel t x d h e = grind (arith, pop_front-fuel)

expect-shrinks :
    (t : ℕ) (x : Error) (d : Decoder) (p : Unit {0} × Decoder)
    → expect t x d ≡ ok p
    → length p.1.buf ≤ length d.buf
unfolding expect
expect-shrinks t x d p e = grind (arith, pop_front-shrinks)

load_string-fuel : (d : Decoder) → load_string d ≢ err out_of_fuel
unfolding load_string
load_string-fuel d e = grind (arith, expect-fuel, read-fuel, read_string-fuel)

load_string-shrinks :
    (d : Decoder) (p : List ℕ × Decoder) → load_string d ≡ ok p → length p.1.buf ≤ length d.buf
unfolding load_string
load_string-shrinks d p e =
    let after = λ (q : ℕ × Decoder). lift (Unread.read_string q.0) q.1 in
    let (x, g, h) =
      >>=-eq-ok (expect amf_string expected_string d) (λ x. lift (Unread.read 2) x.1 >>= after) e in
    let (q, r, f) = >>=-eq-ok (lift (Unread.read 2) x.1) after h in
    omega (
      arith,
      expect-shrinks amf_string expected_string d x g,
      lift-read-shrinks 2 x.1 q r,
      lift-read_string-shrinks q.0 q.1 p f,
    )

load_value-fuel :
    (fuel : ℕ) (m : Members) (k : List ℕ) (d : Decoder)
    → ((m : Members) (d : Decoder) → length d.buf < fuel → load_members fuel m d ≢ err out_of_fuel)
    → length d.buf < fuel
    → load_value (load_members fuel) m k d ≢ err out_of_fuel
unfolding load_value
load_value-fuel fuel m [] d ih h e = cc
load_value-fuel fuel m (c ∷ cs) d ih h e = elim (Result-cases (load_string d)) [
  | inr (x, r) ↦ load_string-fuel d (r ∙ ap err (err-injective (rw r at e)))
  | inl (p, r) ↦ ih _ p.1 (omega (arith, load_string-shrinks d p r)) (rw r at e)
]

-- More fuel than unread bytes is enough for the loop.
load_members-fuel :
    (fuel : ℕ) (m : Members) (d : Decoder)
    → length d.buf < fuel
    → load_members fuel m d ≢ err out_of_fuel
unfolding load_members
load_members-fuel zero m d h e = absurd (omega arith)
load_members-fuel (suc fuel) m d h e = elim (Result-cases (load_key d)) [
  | inr (x, r) ↦ load_key-fuel d (r ∙ ap err (err-injective (rw r at e)))
  | inl ((k, d'), r) ↦
      load_value-fuel fuel m k d' (load_members-fuel fuel)
        (omega (arith, load_key-shrinks d (k, d') r)) (rw r at e)
]

-- `load_object` never runs out of the model's fuel: the loop of the decoder ends on every input.
pub load_object-ends : (d : Decoder) → load_object d ≢ err out_of_fuel
unfolding load_object
load_object-ends d e = grind (arith, expect-fuel, load_members-fuel)
