-- ===== src/Media/Dispatcher/Runs.antt =====
-- What a reader of media/packet_dispatcher.h sees over many calls of `distribute`.
use streaming.Prelude.{
  ℕ, ◌≡◌, refl, ap, ◌∙◌, sym, Bool, true, false, some, List, [], ◌∷◌, ◌++◌, map, ==_refl,
  append_assoc, append-nil,
}
use streaming.Media.Dispatcher.{
  Dispatcher, distribute, regist_reader, deregist_reader, cache, set_registered,
}
use streaming.Media.Dispatcher.Sets.{mem, mem-insert, erase-not_mem}
use streaming.Media.Dispatcher.Laws.{
  IsValid, distribute-readers, distribute-mem, distribute-IsValid, reads-received,
  reads-has_read_cb, reads, regist_reader-IsValid,
}

module _ {T : Type 0} where
  -- The calls of `distribute` of a stream, in their order.
  abbrev pub broadcast : List (T × Bool) → Dispatcher T → Dispatcher T
  broadcast [] d = d
  broadcast ((pkt, is_idr) ∷ ps) d = broadcast ps (distribute pkt is_idr d)

  -- In a well-formed dispatcher, a reader that is old, not new again, and has a read callback gets
  -- every packet once and in order.
  pub broadcast-old :
      (ps : List (T × Bool)) (d : Dispatcher T) (i : ℕ)
      → IsValid d
      → mem i d.old_clients ≡ true
      → mem i d.new_clients ≡ false
      → (d.readers i).has_read_cb ≡ true
      → ((broadcast ps d).readers i).received ≡ (d.readers i).received ++ map (λ x. x.0) ps
  broadcast-old [] d i v o n cb = sym (append-nil (d.readers i).received)
  broadcast-old ((pkt, k) ∷ ps) d i v o n cb =
      let d' = distribute pkt k d in
      let one : d'.readers i ≡ reads (pkt ∷ []) (d.readers i) =
        distribute-readers pkt k d i v ∙ (rw (o, n) refl) in
      broadcast-old ps d' i (distribute-IsValid pkt k d v)
        (distribute-mem pkt k d i ∙ (rw (o, n) refl)) (unfold distribute in refl)
        (ap (λ r. r.has_read_cb) one ∙ reads-has_read_cb (pkt ∷ []) (d.readers i) ∙ cb)
      ∙ ap (λ r. r.received ++ map (λ x. x.0) ps) one
      ∙ ap (λ l. l ++ map (λ x. x.0) ps) (reads-received (pkt ∷ []) (d.readers i) cb)
      ∙ append_assoc (d.readers i).received (pkt ∷ []) (map (λ x. x.0) ps)

  -- In a well-formed dispatcher, a reader that has a read callback, registers and is not an old
  -- reader gets, with the next packet, the cache that ends in that packet, and then every further
  -- packet, all of it once and in order.
  pub broadcast-regist_reader :
      (pkt : T) (k : Bool) (ps : List (T × Bool)) (d : Dispatcher T) (i : ℕ)
      → IsValid d
      → mem i d.old_clients ≡ false
      → (d.readers i).has_read_cb ≡ true
      → ((broadcast ((pkt, k) ∷ ps) (regist_reader (some i) d)).readers i).received
        ≡ (d.readers i).received ++ (cache d.max_size pkt k d.packet_list ++ map (λ x. x.0) ps)
  unfolding regist_reader set_registered
  broadcast-regist_reader pkt k ps d i v o cb =
      let d1 = regist_reader (some i) d in
      let v1 = regist_reader-IsValid i d v in
      let packets = cache d.max_size pkt k d.packet_list in
      let new : mem i d1.new_clients ≡ true =
        mem-insert i i d.new_clients ∙ (rw (==_refl i) refl) in
      let d2 = distribute pkt k d1 in
      let cb1 : (d1.readers i).has_read_cb ≡ true = rw (==_refl i) cb in
      let got1 : (d1.readers i).received ≡ (d.readers i).received = rw (==_refl i) refl in
      let all : d2.readers i ≡ reads packets (d1.readers i) =
        distribute-readers pkt k d1 i v1 ∙ (rw (o, new) refl) in
      broadcast-old ps d2 i (distribute-IsValid pkt k d1 v1)
        (distribute-mem pkt k d1 i ∙ (rw new refl)) (unfold distribute in refl)
        (ap (λ r. r.has_read_cb) all ∙ reads-has_read_cb packets (d1.readers i) ∙ cb1)
      ∙ ap (λ r. r.received ++ map (λ x. x.0) ps) all
      ∙ ap (λ l. l ++ map (λ x. x.0) ps) (reads-received packets (d1.readers i) cb1)
      ∙ ap (λ l. (l ++ packets) ++ map (λ x. x.0) ps) got1
      ∙ append_assoc (d.readers i).received packets (map (λ x. x.0) ps)

  -- In a well-formed dispatcher, a reader that is old, not new again, and has a read callback
  -- still gets every packet after `deregist_reader`, which looks for it among the new readers
  -- only.
  pub deregist_reader-keeps :
      (ps : List (T × Bool)) (d : Dispatcher T) (i : ℕ)
      → IsValid d
      → mem i d.old_clients ≡ true
      → mem i d.new_clients ≡ false
      → (d.readers i).has_read_cb ≡ true
      → ((broadcast ps (deregist_reader (some i) d)).readers i).received
        ≡ (d.readers i).received ++ map (λ x. x.0) ps
  unfolding deregist_reader
  deregist_reader-keeps ps d i v o n cb =
      let same = erase-not_mem i d.new_clients n in
      ap (λ l. ((broadcast ps (record d { new_clients = l })).readers i).received) same
      ∙ broadcast-old ps d i v o n cb
