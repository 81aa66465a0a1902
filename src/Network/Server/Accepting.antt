-- ===== src/Network/Server/Accepting.antt =====
-- A connection that a server of src/network/tcp_server.cpp accepts keeps what the server keeps to.
use streaming.Prelude.{
  ℕ, suc, ◌+◌, ◌^◌, ◌<◌, ◌⊎◌, ◌≡◌, ◌≢◌, refl, sym, ap, ◌∙◌, arith, Bool, true, false, none, some,
  List, ◌∷◌, ◌==◌, ==_iff, inl, inr, subst,
}
use streaming.Rtmp.Amf.Map.{key_eq_refl}
use streaming.Rtmp.Chunk.{update}
use streaming.Network.Sessions.{Session, Manager, find, add}
use streaming.Network.Sessions.Entries.{key_eq-differs}
use streaming.Network.Server.{Server, session_alloc}
use streaming.Network.Server.Names.{session_id-generate_session_prefix}
use streaming.Network.Server.Closing.{Inv, id_of}

add-new :
    (i : ℕ) (m : Manager)
    → find (m.session i).id m.session_map ≡ none
    → add (some i) m ≡ record m { session_map = ((m.session i).id, i) ∷ m.session_map }
unfolding add
add-new i m nothing =
    ap
      (λ o. elim o [
        | some j ↦ m
        | none ↦ record m { session_map = ((m.session i).id, i) ∷ m.session_map }
      ])
      nothing

-- A session more, under a name that the map does not have.
module _ (raw_fd : ℕ) (sv : Server) (opened : sv.is_open ≡ true)
    (room : sv.session_index + 1 < 2 ^ 64) (inv : Inv sv) where
  abbrev new_id : List ℕ
  new_id = id_of sv (sv.session_index + 1) raw_fd

  abbrev made : Session
  made = record { id = new_id; is_open = true; is_closed = false }

  abbrev sessions : ℕ → Session
  sessions = update sv.manager.session sv.next made

  abbrev entered : Server
  entered = record sv {
    session_index = sv.session_index + 1;
    manager = record {
      session_map = (new_id, sv.next) ∷ sv.manager.session_map;
      session = sessions;
    };
    next = suc sv.next;
  }

  old_or_new : (i : ℕ) → i < suc sv.next → (i < sv.next) ⊎ (i ≡ sv.next)
  old_or_new i known = ground arith

  is_made : (i : ℕ) → i ≡ sv.next → sessions i ≡ made
  is_made i new = rw ((==_iff i sv.next).1 new) refl

  session_alloc-entered : session_alloc raw_fd sv ≡ entered
  unfolding session_alloc
  session_alloc-entered =
      let m : Manager = record sv.manager { session = sessions } in
      let new = is_made sv.next refl in
      ap
        (λ m'. record sv { session_index = sv.session_index + 1; manager = m'; next = suc sv.next })
        (add-new sv.next m (
            ap (λ x. find x.id sv.manager.session_map) new
            ∙ inv.absent (sv.session_index + 1) raw_fd (omega arith) room)
          ∙ ap (λ x. record m { session_map = (x.id, sv.next) ∷ sv.manager.session_map }) new)

  is_kept : (i : ℕ) → i < sv.next → sessions i ≡ sv.manager.session i
  is_kept i old = let other : (i == sv.next) ≡ false = ground arith in rw other refl

  unused_name :
      (n raw_fd' : ℕ) → sv.session_index + 1 < n → n < 2 ^ 64 → new_id ≢ id_of sv n raw_fd'
  unused_name n raw_fd' later fits =
      session_id-generate_session_prefix sv.server_name (sv.session_index + 1) n raw_fd raw_fd' room
        fits (omega arith)

  old_name : (i : ℕ) → i < sv.next → (sessions i).id ≢ new_id
  old_name i old same =
      inv.unused i (sv.session_index + 1) raw_fd old (omega arith) room
        (ap (λ x. x.id) (sym (is_kept i old)) ∙ same)

  entered-listed :
      (i : ℕ)
      → i < suc sv.next
      → (sessions i).is_closed ≡ false
      → find (sessions i).id ((new_id, sv.next) ∷ sv.manager.session_map) ≡ some i
  unfolding find
  entered-listed i known alive = elim (old_or_new i known) [
    | inl old ↦
        let other = key_eq-differs new_id (sessions i).id (λ same. old_name i old (sym same)) in
        let kept = is_kept i old in
        rw other (
          ap (λ x. find x.id sv.manager.session_map) kept
          ∙ inv.listed i old (ap (λ x. x.is_closed) (sym kept) ∙ alive))
    | inr new ↦
        let same : (sessions i).id ≡ new_id = ap (λ x. x.id) (is_made i new) in
        rw (same, key_eq_refl new_id) (ap some (sym new))
  ]

  entered-apart :
      (i j : ℕ) → i < suc sv.next → j < suc sv.next → i ≢ j → (sessions i).id ≢ (sessions j).id
  entered-apart i j known known' other same = elim (old_or_new i known) [
    | inl old ↦ elim (old_or_new j known') [
      | inl old' ↦
          inv.apart i j old old' other
            (ap (λ x. x.id) (sym (is_kept i old)) ∙ same ∙ ap (λ x. x.id) (is_kept j old'))
      | inr new' ↦ old_name i old (same ∙ ap (λ x. x.id) (is_made j new'))
    ]
    | inr new ↦ elim (old_or_new j known') [
      | inl old' ↦ old_name j old' (sym same ∙ ap (λ x. x.id) (is_made i new))
      | inr new' ↦ other (new ∙ sym new')
    ]
  ]

  entered-unused :
      (i n raw_fd' : ℕ)
      → i < suc sv.next
      → sv.session_index + 1 < n
      → n < 2 ^ 64
      → (sessions i).id ≢ id_of sv n raw_fd'
  entered-unused i n raw_fd' known later fits same = elim (old_or_new i known) [
    | inl old ↦
        inv.unused i n raw_fd' old (omega arith) fits (ap (λ x. x.id) (sym (is_kept i old)) ∙ same)
    | inr new ↦ unused_name n raw_fd' later fits (ap (λ x. x.id) (sym (is_made i new)) ∙ same)
  ]

  entered-absent :
      (n raw_fd' : ℕ)
      → sv.session_index + 1 < n
      → n < 2 ^ 64
      → find (id_of sv n raw_fd') ((new_id, sv.next) ∷ sv.manager.session_map) ≡ none
  unfolding find
  entered-absent n raw_fd' later fits =
      rw (key_eq-differs new_id (id_of sv n raw_fd') (unused_name n raw_fd' later fits))
        (inv.absent n raw_fd' (omega arith) fits)

  pub Inv-session_alloc : Inv (session_alloc raw_fd sv)
  Inv-session_alloc = subst Inv (sym session_alloc-entered) (record {
    listed = entered-listed;
    apart = entered-apart;
    unused = entered-unused;
    absent = entered-absent;
    ended = λ closed i known. absurd (clash (sym opened ∙ closed));
  })
    where
      clash : ◌≡◌ {A = Bool} true false → ⊥
      clash h = cc
