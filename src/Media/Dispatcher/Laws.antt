-- ===== src/Media/Dispatcher/Laws.antt =====
-- One call of `distribute`: who gets which packets, and what stays well formed.
use streaming.Prelude.{
  ℕ, suc, ◌≤◌, ◌<◌, ◌≡◌, refl, ap, ◌∙◌, sym, arith, Bool, true, false, ◌||◌, some, List, [], ◌∷◌,
  ◌++◌, length, ◌==◌, if◌then◌else◌, Bool-cases, inl, inr, ==_refl, append_assoc, append-nil,
  length-append,
}
use streaming.Media.Dispatcher.{
  Reader, Dispatcher, on_read, create, regist_reader, visit, trim, cache, replay, distribute,
}
use streaming.Media.Dispatcher.Sets.{
  mem, IsAscending, mem-below, insert-IsAscending, merge-IsAscending, mem-merge,
}

-- The sets are sets, and the cache keeps to its size.
pub record IsValid {T : Type 0} (d : Dispatcher T) : Type 0 where
  pub new_set : IsAscending d.new_clients
  pub old_set : IsAscending d.old_clients
  pub room : 32 ≤ d.max_size
  pub bounded : length d.packet_list ≤ d.max_size

module _ {T : Type 0} where
  visit-not_mem :
      (f : Reader T → Reader T) (is : List ℕ) (m : ℕ → Reader T) (i : ℕ)
      → mem i is ≡ false
      → visit f is m i ≡ m i
  unfolding visit
  visit-not_mem f [] m i e = refl
  visit-not_mem f (j ∷ js) m i e =
      let other : (i == j) ≡ false = ground arith in
      let later : mem i js ≡ false = ground arith in visit-not_mem f js _ i later ∙ (rw other refl)

  visit-mem :
      (f : Reader T → Reader T) (is : List ℕ) (m : ℕ → Reader T) (i : ℕ)
      → IsAscending is
      → mem i is ≡ true
      → visit f is m i ≡ f (m i)
  unfolding visit
  visit-mem f [] m i s e = absurd (cc)
  visit-mem f (j ∷ js) m i s e = elim (Bool-cases (i == j)) [
    | inl h ↦
        let same : i ≡ j = ground arith in
        rw same (visit-not_mem f js _ j (mem-below j js s.0) ∙ (rw (==_refl j) refl))
    | inr h ↦
        let later : mem i js ≡ true = ground arith in visit-mem f js _ i s.1 later ∙ (rw h refl)
  ]

  -- A reader that is given some packets.
  abbrev pub reads : List T → Reader T → Reader T
  reads [] r = r
  reads (p ∷ ps) r = reads ps (on_read p r)

  replay-mem :
      (ps : List T) (is : List ℕ) (m : ℕ → Reader T) (i : ℕ)
      → IsAscending is
      → mem i is ≡ true
      → replay ps is m i ≡ reads ps (m i)
  unfolding replay
  replay-mem [] is m i s e = refl
  replay-mem (p ∷ ps) is m i s e =
      replay-mem ps is _ i s e ∙ ap (reads ps) (visit-mem (on_read p) is m i s e)

  replay-not_mem :
      (ps : List T) (is : List ℕ) (m : ℕ → Reader T) (i : ℕ)
      → mem i is ≡ false
      → replay ps is m i ≡ m i
  unfolding replay
  replay-not_mem [] is m i e = refl
  replay-not_mem (p ∷ ps) is m i e = replay-not_mem ps is _ i e ∙ visit-not_mem (on_read p) is m i e

  pub reads-received :
      (ps : List T) (r : Reader T) → r.has_read_cb ≡ true → (reads ps r).received ≡ r.received ++ ps
  unfolding on_read
  reads-received [] r h = sym (append-nil r.received)
  reads-received (p ∷ ps) r h =
      let more : (on_read p r).received ≡ r.received ++ (p ∷ []) = rw h refl in
      let cb : (on_read p r).has_read_cb ≡ true = ground arith in
      reads-received ps (on_read p r) cb
      ∙ ap (λ l. l ++ ps) more
      ∙ append_assoc r.received (p ∷ []) ps

  pub reads-has_read_cb : (ps : List T) (r : Reader T) → (reads ps r).has_read_cb ≡ r.has_read_cb
  unfolding on_read
  reads-has_read_cb [] r = refl
  reads-has_read_cb (p ∷ ps) r = reads-has_read_cb ps (on_read p r) ∙ (ground arith)

  -- What one call does to each reader of a well-formed dispatcher: a new reader is given the whole
  -- cache with the new packet in it, an old reader the packet, any other nothing; one that is in
  -- both sets is given the packet and then the cache.
  pub distribute-readers :
      (pkt : T) (is_idr : Bool) (d : Dispatcher T) (i : ℕ)
      → IsValid d
      → (distribute pkt is_idr d).readers i ≡ (
          let shown = if mem i d.old_clients then on_read pkt (d.readers i) else d.readers i in
          if mem i d.new_clients
          then reads (cache d.max_size pkt is_idr d.packet_list) shown
          else shown)
  unfolding distribute
  distribute-readers pkt is_idr d i v =
      let packets = cache d.max_size pkt is_idr d.packet_list in
      let m = visit (on_read pkt) d.old_clients d.readers in
      let shown : m i ≡ (if mem i d.old_clients then on_read pkt (d.readers i) else d.readers i) =
        elim (Bool-cases (mem i d.old_clients)) [
          | inl e ↦ rw e (visit-mem (on_read pkt) d.old_clients d.readers i v.old_set e)
          | inr e ↦ rw e (visit-not_mem (on_read pkt) d.old_clients d.readers i e)
        ] in
      elim (Bool-cases (mem i d.new_clients)) [
        | inl e ↦ rw e (replay-mem packets d.new_clients m i v.new_set e ∙ ap (reads packets) shown)
        | inr e ↦ rw e (replay-not_mem packets d.new_clients m i e ∙ shown)
      ]

  -- After the call every reader of either set is an old one, and none is new.
  pub distribute-mem :
      (pkt : T) (is_idr : Bool) (d : Dispatcher T) (i : ℕ)
      → mem i (distribute pkt is_idr d).old_clients ≡ (mem i d.new_clients || mem i d.old_clients)
  unfolding distribute
  distribute-mem pkt is_idr d i = mem-merge i d.old_clients d.new_clients

  trim_le : (max_size : ℕ) (ps : List T) → 0 < max_size → suc (length (trim max_size ps)) ≤ max_size
  unfolding trim
  trim_le max_size [] h = omega arith
  trim_le max_size (p ∷ ps) h = ground (arith, trim_le max_size ps h)

  cache_le :
      (max_size : ℕ) (pkt : T) (is_idr : Bool) (ps : List T)
      → 0 < max_size
      → length (cache max_size pkt is_idr ps) ≤ max_size
  unfolding cache
  cache_le max_size pkt true ps h = omega arith
  cache_le max_size pkt false ps h =
      omega (arith, trim_le max_size ps h, length-append (trim max_size ps) (pkt ∷ []))

  -- A dispatcher is well formed from its creation on, and each call keeps it so: the cache never
  -- holds more than `max_size_` packets, and no reader is twice in a set.
  pub create-IsValid : (n : ℕ) (m : ℕ → Reader T) → IsValid (create n m)
  unfolding create
  create-IsValid n m = record {
    new_set = tt;
    old_set = tt;
    room = ground arith;
    bounded = omega arith;
  }

  pub regist_reader-IsValid :
      (i : ℕ) (d : Dispatcher T) → IsValid d → IsValid (regist_reader (some i) d)
  unfolding regist_reader
  regist_reader-IsValid i d v = record {
    new_set = insert-IsAscending i d.new_clients v.new_set;
    old_set = v.old_set;
    room = v.room;
    bounded = v.bounded;
  }

  -- A call of `distribute` on a well-formed dispatcher leaves it well formed: no reader is twice in
  -- a set, and the cache holds no more than `max_size_` packets.
  pub distribute-IsValid :
      (pkt : T) (is_idr : Bool) (d : Dispatcher T) → IsValid d → IsValid (distribute pkt is_idr d)
  unfolding distribute
  distribute-IsValid pkt is_idr d v = record {
    new_set = tt;
    old_set = merge-IsAscending d.old_clients d.new_clients v.old_set;
    room = v.room;
    bounded = cache_le d.max_size pkt is_idr d.packet_list (omega (arith, v.room));
  }
