-- ===== src/Network/FlatBuffer/Snapshot.antt =====
-- A snapshot around code that consumes, as `rtmp_demuxer::input_rtmp` takes it.
use streaming.Prelude.{
  ℕ, ◌+◌, ◌≡◌, sym, ap, ◌∙◌, Bool, List, [], ◌∷◌, leb, if◌then◌else◌, Bool-cases, inl, inr,
}
use streaming.Prelude.Outcome.{Result, ok, err, ◌>>=◌, >>=-eq-ok, ok-injective, cannot_consume}
use streaming.Network.FlatBuffer.{
  FlatBuffer, unread_length, unread, consume_or_fail, capture_snapshot, restore_snapshot, size_t,
}

-- A sequence of calls of `consume_or_fail`.
unfoldable pub consume_all : List ℕ → FlatBuffer → Result FlatBuffer
consume_all [] b = ok b
consume_all (n ∷ ns) b = consume_or_fail b n >>= (λ b'. consume_all ns b')

restore_snapshot-consume_or_fail :
    (n : ℕ) (b b' : FlatBuffer)
    → consume_or_fail b n ≡ ok b'
    → restore_snapshot b' ≡ restore_snapshot b
unfolding consume_or_fail restore_snapshot
restore_snapshot-consume_or_fail n b b' done = elim (Bool-cases (leb n (unread_length b))) [
  | inl fits ↦ ap restore_snapshot (sym (ok-injective (ap chosen (sym fits) ∙ done)))
  | inr short ↦ absurd (refused (ap chosen (sym short) ∙ done))
]
  where
    chosen : Bool → Result FlatBuffer
    chosen fits =
        if fits
        then ok (record b { read_index = size_t (b.read_index + n) })
        else err cannot_consume

    refused : ◌≡◌ {A = Result FlatBuffer} (err cannot_consume) (ok b') → ⊥
    refused h = cc

restore_snapshot-consume_all :
    (ns : List ℕ) (b b' : FlatBuffer)
    → consume_all ns b ≡ ok b'
    → restore_snapshot b' ≡ restore_snapshot b
unfolding consume_all
restore_snapshot-consume_all [] b b' done = ap restore_snapshot (sym (ok-injective done))
restore_snapshot-consume_all (n ∷ ns) b b' done =
    let (next, first, rest) = >>=-eq-ok (consume_or_fail b n) (consume_all ns) done in
    restore_snapshot-consume_all ns next b' rest ∙ restore_snapshot-consume_or_fail n b next first

-- Whatever is consumed between `capture_snapshot` and `restore_snapshot`, in any number of calls of
-- which none throws, the same bytes are unread afterwards, and what was stored is the same.
pub restore_snapshot-unread :
    (ns : List ℕ) (b b' : FlatBuffer)
    → consume_all ns (capture_snapshot b) ≡ ok b'
    → (unread (restore_snapshot b') ≡ unread b) × (restore_snapshot b' ≡ capture_snapshot b)
unfolding restore_snapshot capture_snapshot unread
restore_snapshot-unread ns b b' done =
    let same = restore_snapshot-consume_all ns (capture_snapshot b) b' done in
    (ap unread same, same)
