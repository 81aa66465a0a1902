-- ===== src/Network/FlatBuffer/Grow.antt =====
-- Growing keeps the unread bytes, and a write appends to them.
use streaming.Prelude.{
  ℕ, ◌+◌, ◌-◌, ◌*◌, ◌≤◌, ◌≡◌, sym, ap, ◌∙◌, arith, List, ◌++◌, length, ltb, Bool-cases, inl, inr,
}
use streaming.Network.FlatBuffer.Memory.{
  blit, fresh, length-fresh, slice-blit_front, slice-blit_behind,
}
use streaming.Network.FlatBuffer.{
  FlatBuffer, size_t, unread_length, unread, move_unread_to_begin, grow, ensure_writable_bytes,
  write,
}
use streaming.Network.FlatBuffer.Valid.{
  IsValid, Fits, ensure_writable_bytes-IsValid, ensure_writable_bytes-room,
}
use streaming.Network.FlatBuffer.Refine.{length-unread}

unread-front :
    (b : FlatBuffer) (bytes mem : List ℕ) (c : ℕ)
    → length bytes ≤ length mem
    → unread (record b {
      mem = blit 0 bytes mem;
      capacity = c;
      read_index = 0;
      write_index = length bytes;
    })
      ≡ bytes
unfolding unread
unread-front b bytes mem c h = slice-blit_front (length bytes - 0) bytes mem (omega arith) h

pub move_unread_to_begin-unread :
    (b : FlatBuffer) → IsValid b → unread (move_unread_to_begin b) ≡ unread b
unfolding move_unread_to_begin
move_unread_to_begin-unread b v =
    ap
      (λ (k : ℕ).
        unread (record b { mem = blit 0 (unread b) b.mem; read_index = 0; write_index = k }))
      (sym (length-unread b v))
    ∙ unread-front b (unread b) b.mem b.capacity
        (unfold unread_length in omega (arith, length-unread b v))

pub grow-unread : (b : FlatBuffer) (n : ℕ) → Fits b n → IsValid b → unread (grow b n) ≡ unread b
unfolding grow
grow-unread b n f v =
    let c : ℕ = size_t (size_t (b.capacity * 2) + n) in
    let copied =
      ap
        (λ (k : ℕ). unread (record b {
          mem = blit 0 (unread b) (fresh c);
          capacity = c;
          read_index = 0;
          write_index = k;
        }))
        (sym (length-unread b v))
      ∙ unread-front b (unread b) (fresh c) c
          (unfold unread_length in omega (arith, length-unread b v, length-fresh c)) in
    elim (Bool-cases (ltb (b.capacity - b.write_index) n)) [
      | inl e ↦ rw e copied
      | inr e ↦ rw e (move_unread_to_begin-unread b v)
    ]

pub ensure_writable_bytes-unread :
    (b : FlatBuffer) (n : ℕ) → Fits b n → IsValid b → unread (ensure_writable_bytes b n) ≡ unread b
unfolding ensure_writable_bytes
ensure_writable_bytes-unread b n f v = ground (arith, grow-unread b n f v)

-- A write into a valid buffer appends the bytes to the unread ones, growing the array if it has
-- to, as long as twice the capacity and the bytes are a `size_t`.
pub write_refines :
    (b : FlatBuffer) (bytes : List ℕ)
    → Fits b (length bytes)
    → IsValid b
    → unread (write b bytes) ≡ unread b ++ bytes
write_refines b bytes f v =
    let b' = ensure_writable_bytes b (length bytes) in
    let v' = ensure_writable_bytes-IsValid b (length bytes) f v in
    let room = ensure_writable_bytes-room b (length bytes) f v in
    unfold write unread unread_length in
    (slice-blit_behind b'.read_index (b'.write_index - b'.read_index) b'.write_index _ bytes b'.mem
        (omega (arith, v')) (omega (arith, v', room)) (omega (arith, v', room))
      ∙ ap (λ l. l ++ bytes) (ensure_writable_bytes-unread b (length bytes) f v))
