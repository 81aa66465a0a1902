-- ===== src/Rtmp/Decoders/Nals.antt =====
-- `split_nal_frame` on units that each stand behind their length.
use streaming.Prelude.{
  ℕ, zero, suc, ◌-◌, if◌then◌else◌, ◌==◌, not, ◌+◌, ◌^◌, ◌<◌, ◌≤◌, ◌≡◌, refl, sym, ap, ◌∙◌, ◌⊎◌,
  inl, inr, arith, Bool, true, false, List, [], ◌∷◌, ◌++◌, All, length, take, drop, ltb, ge→ltb,
  lt→ltb, append_assoc, length-append, length-drop, take-append, drop-append, length-take,
  take-append-drop, All-drop,
}
use streaming.Prelude.Outcome.{ok, err, throw_if, bad_nal_lengths}
use streaming.Prelude.Words.{put32, be32, put32-be32, IsByte}
use streaming.Network.Unread.Laws.{read-put32}
use streaming.Codec.Frame.{Track, input_frame}
use streaming.Codec.H264.{prefixed}
use streaming.Rtmp.Decoders.{split_loop, split_nal_frame}

-- A unit behind its length, and a sequence of them.
abbrev pub unit : List ℕ → List ℕ
unit n = put32 (length n) ++ n

abbrev pub encoded : List (List ℕ) → List ℕ
encoded [] = []
encoded (n ∷ ns) = unit n ++ encoded ns

abbrev pub ShortUnit : List ℕ → Type 0
ShortUnit n = length n < 2 ^ 32

-- A track that was given frames.
abbrev pub fed : ℕ → ℕ → List (List ℕ) → Track → Track
fed dts pts [] t = t
fed dts pts (n ∷ ns) t = fed dts pts ns (input_frame (prefixed dts pts n) t)

length-encoded : (ns : List (List ℕ)) → length ns ≤ length (encoded ns)
length-encoded [] = omega arith
length-encoded (n ∷ ns) = omega (
  arith,
  length-encoded ns,
  length-append (put32 (length n)) n,
  length-append (unit n) (encoded ns),
)

-- What stands behind the last whole unit, and what the loop leaves of it: fewer than four bytes, or
-- a length and fewer bytes than it says.
pub data Ending : List ℕ → List ℕ → Type 0 where
  few : {rest : List ℕ} → length rest < 4 → Ending rest rest
  cut : {part : List ℕ} (n : ℕ) → n < 2 ^ 32 → length part < n → Ending (put32 n ++ part) part

checked : (b : Bool) → throw_if (not b) bad_nal_lengths ≡ (if b then ok tt else err bad_nal_lengths)
checked true = refl
checked false = refl

module _ (dts pts : ℕ) where
  -- One round: a whole unit is cut off.
  split_loop-unit :
      (fuel : ℕ) (n rest : List ℕ) (t : Track)
      → ShortUnit n
      → split_loop (suc fuel) dts pts (unit n ++ rest) t
        ≡ split_loop fuel dts pts rest (input_frame (prefixed dts pts n) t)
  unfolding split_loop
  split_loop-unit fuel n rest t short =
      let long : ltb (length (unit n ++ rest)) 4 ≡ false =
        ge→ltb (length (unit n ++ rest)) 4
          (omega (arith, length-append (unit n) rest, length-append (put32 (length n)) n)) in
      let whole : ltb (length (n ++ rest)) (length n) ≡ false =
        ge→ltb (length (n ++ rest)) (length n) (omega (arith, length-append n rest)) in
      rw
        (
          long,
          append_assoc (put32 (length n)) n rest,
          read-put32 (length n) (n ++ rest) short,
          whole,
          take-append (length n) n rest refl,
          drop-append (length n) n rest refl,
        )
        refl

  split_loop-encoded :
      (ns : List (List ℕ)) (fuel more : ℕ) (rest : List ℕ) (t : Track)
      → All ShortUnit ns
      → fuel ≡ length ns + more
      → split_loop fuel dts pts (encoded ns ++ rest) t
        ≡ split_loop more dts pts rest (fed dts pts ns t)
  split_loop-encoded [] fuel more rest t short e =
      let same : fuel ≡ more = omega arith in ap (λ (f : ℕ). split_loop f dts pts rest t) same
  split_loop-encoded (n ∷ ns) zero more rest t short e = absurd (omega arith)
  split_loop-encoded (n ∷ ns) (suc fuel) more rest t short e =
      rw (append_assoc (unit n) (encoded ns) rest) (
        split_loop-unit fuel n (encoded ns ++ rest) t short.0
        ∙ split_loop-encoded ns fuel more rest (input_frame (prefixed dts pts n) t) short.1
            (omega arith))

  split_loop-Ending :
      (fuel : ℕ) (rest left : List ℕ) (t : Track)
      → Ending rest left
      → split_loop (suc fuel) dts pts rest t ≡ ok (left, t)
  unfolding split_loop
  split_loop-Ending fuel rest left t (few short) = rw (lt→ltb (length rest) 4 short) refl
  split_loop-Ending fuel rest left t (cut n small less) =
      let long : ltb (length (put32 n ++ left)) 4 ≡ false =
        ge→ltb (length (put32 n ++ left)) 4 (omega (arith, length-append (put32 n) left)) in
      rw (long, read-put32 n left small, lt→ltb (length left) n less) refl

  -- Units of fewer than 2^32 bytes with their lengths give one frame each, which the track is given in
  -- their order, whatever ends the payload; behind that, the call throws exactly if that end leaves
  -- bytes unread.
  pub split_nal_frame-encoded :
      (ns : List (List ℕ)) (rest left : List ℕ) (t : Track)
      → All ShortUnit ns
      → Ending rest left
      → split_nal_frame dts pts (encoded ns ++ rest) t ≡ record {
        sent = [];
        state = fed dts pts ns t;
        value = if length left == 0 then ok tt else err bad_nal_lengths;
      }
  unfolding split_nal_frame
  split_nal_frame-encoded ns rest left t short end =
      let room = length (encoded ns ++ rest) - length ns in
      let e : suc (length (encoded ns ++ rest)) ≡ length ns + suc room =
        omega (arith, length-encoded ns, length-append (encoded ns) rest) in
      rw
        (
          split_loop-encoded ns (suc (length (encoded ns ++ rest))) (suc room) rest t short e,
          split_loop-Ending room rest left (fed dts pts ns t) end,
        )
        (ap (λ v. record { sent = []; state = fed dts pts ns t; value = v })
          (checked (length left == 0)))

-- A payload, as whole units and an ending.
abbrev pub Units : List ℕ → Type 0
Units buf =
    (ns : List (List ℕ)) × (rest : List ℕ) × (left : List ℕ) × (buf ≡ encoded ns ++ rest)
    × All ShortUnit ns
    × Ending rest left

Units-unit :
    (bytes : List ℕ) (n : ℕ) (more : List ℕ)
    → put32 n ≡ bytes
    → n < 2 ^ 32
    → n ≤ length more
    → Units (drop n more)
    → Units (bytes ++ more)
Units-unit bytes n more e small whole (ns, rest, left, behind, short, end) =
    let long : length (take n more) ≡ n = omega (arith, length-take n more) in
    let first : unit (take n more) ≡ bytes ++ take n more =
      ap (λ l. l ++ take n more) (ap (λ (k : ℕ). put32 k) long ∙ e) in
    let regrouped : ((bytes ++ take n more) ++ encoded ns) ++ rest ≡ bytes ++ more =
      rw
        (
          append_assoc (bytes ++ take n more) (encoded ns) rest,
          append_assoc bytes (take n more) (encoded ns ++ rest),
          sym behind,
          take-append-drop n more,
        )
        refl in
    let joined = sym (ap (λ l. (l ++ encoded ns) ++ rest) first ∙ regrouped) in
    (take n more ∷ ns, rest, left, joined, (omega (arith, long), short), end)

Units-cut :
    (bytes : List ℕ) (n : ℕ) (more : List ℕ)
    → put32 n ≡ bytes
    → n < 2 ^ 32
    → length more < n
    → Units (bytes ++ more)
Units-cut bytes n more e small less =
    ([], put32 n ++ more, more, ap (λ l. l ++ more) (sym e), tt, cut n small less)

-- Every payload of bytes is a sequence of whole units and an ending, so the loop ends on each.
pub cut_apart : (fuel : ℕ) (buf : List ℕ) → length buf < fuel → All IsByte buf → Units buf
cut_apart zero buf h bytes = absurd (omega arith)
cut_apart (suc fuel) [] h bytes = ([], [], [], refl, tt, few (omega arith))
cut_apart (suc fuel) (a ∷ []) h bytes = ([], a ∷ [], a ∷ [], refl, tt, few (omega arith))
cut_apart (suc fuel) (a ∷ b ∷ []) h bytes =
    ([], a ∷ b ∷ [], a ∷ b ∷ [], refl, tt, few (omega arith))
cut_apart (suc fuel) (a ∷ b ∷ c ∷ []) h bytes =
    ([], a ∷ b ∷ c ∷ [], a ∷ b ∷ c ∷ [], refl, tt, few (omega arith))
cut_apart (suc fuel) (a ∷ b ∷ c ∷ d ∷ more) h (ha, (hb, (hc, (hd, hs)))) =
    let n = be32 a b c d in
    let length_bytes : put32 n ≡ (a ∷ b ∷ c ∷ d ∷ []) = put32-be32 a b c d ha hb hc hd in
    let small : n < 2 ^ 32 = omega (arith, ha, hb, hc, hd) in
    let behind =
      cut_apart fuel (drop n more) (omega (arith, length-drop n more))
        (All-drop IsByte n more hs) in
    elim fits [
      | inl less ↦ Units-cut (a ∷ b ∷ c ∷ d ∷ []) n more length_bytes small less
      | inr whole ↦ Units-unit (a ∷ b ∷ c ∷ d ∷ []) n more length_bytes small whole behind
    ]
  where
    fits : (length more < be32 a b c d) ⊎ (be32 a b c d ≤ length more)
    fits = omega arith

-- On each payload of bytes `split_nal_frame` ends: the track is given the frames of the whole units in
-- front, and the call throws if bytes are left behind them.
pub split_nal_frame-total :
    (dts pts : ℕ) (buf : List ℕ) (t : Track)
    → All IsByte buf
    → (u : Units buf) × (split_nal_frame dts pts buf t ≡ record {
      sent = [];
      state = fed dts pts (u.0) t;
      value = if length (u.2) == 0 then ok tt else err bad_nal_lengths;
    })
split_nal_frame-total dts pts buf t bytes =
    let u = cut_apart (suc (length buf)) buf (omega arith) bytes in
    (
      u,
      ap (λ b. split_nal_frame dts pts b t) (u.3)
          ∙ split_nal_frame-encoded dts pts (u.0) (u.1) (u.2) t (u.4) (u.5),
    )
