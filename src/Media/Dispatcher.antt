-- ===== src/Media/Dispatcher.antt =====
-- media/packet_dispatcher.h: the readers of a stream and the packets that they are given. A
-- `shared_ptr` to a reader is a number, its address, and a null pointer is `none`; the callbacks
-- are code of the caller, and their calls are kept in the reader's record.
pub mod Sets
pub mod Laws
pub mod Runs
pub mod Creation
use streaming.Prelude.{
  ℕ, suc, ◌+◌, Bool, true, false, ◌&&◌, Option, none, some, List, [], ◌∷◌, ◌++◌, length, ltb, leb,
  ◌==◌, if◌then◌else◌,
}
use streaming.Rtmp.Chunk.{update}

-- `read_cb_` and `detach_cb_` can be empty. `received` and `detached` are the arguments of their
-- calls so far.
pub record Reader (T : Type 0) : Type 0 where
  pub is_registered : Bool
  pub has_read_cb : Bool
  pub has_detach_cb : Bool
  pub received : List T
  pub detached : List Bool

-- The sets are lists in the order of the addresses.
pub record Dispatcher (T : Type 0) : Type 0 where
  pub max_size : ℕ
  pub packet_list : List T
  pub new_clients : List ℕ
  pub old_clients : List ℕ
  pub readers : ℕ → Reader T

-- `std::set` of pointers: `insert`, `erase` and `merge`, of which what stays behind is cleared.
unfoldable pub insert : ℕ → List ℕ → List ℕ
insert i [] = i ∷ []
insert i (j ∷ js) =
    let rest = insert i js in if i == j then j ∷ js else if ltb i j then i ∷ j ∷ js else j ∷ rest

unfoldable pub erase : ℕ → List ℕ → List ℕ
erase i [] = []
erase i (j ∷ js) = let rest = erase i js in if i == j then js else j ∷ rest

unfoldable pub merge : List ℕ → List ℕ → List ℕ
merge old [] = old
merge old (i ∷ is) = merge (insert i old) is

module _ {T : Type 0} where
  unfoldable pub on_read : T → Reader T → Reader T
  on_read pkt r = if r.has_read_cb then record r { received = r.received ++ (pkt ∷ []) } else r

  unfoldable pub detach : Bool → Reader T → Reader T
  detach is_normal r =
      if r.is_registered && r.has_detach_cb
      then record r { detached = r.detached ++ (is_normal ∷ []) }
      else r

  unfoldable pub set_registered : Bool → Reader T → Reader T
  set_registered b r = record r { is_registered = b }

  -- The constructor: a cache of at least `kMinPacketCacheSize` packets.
  unfoldable pub create : ℕ → (ℕ → Reader T) → Dispatcher T
  create max_size readers = record {
    max_size = if ltb max_size 32 then 32 else max_size;
    packet_list = [];
    new_clients = [];
    old_clients = [];
    readers = readers;
  }

  unfoldable pub regist_reader : Option ℕ → Dispatcher T → Dispatcher T
  regist_reader none d = d
  regist_reader (some i) d = record d {
    readers = update d.readers i (set_registered true (d.readers i));
    new_clients = insert i d.new_clients;
  }

  unfoldable pub deregist_reader : Option ℕ → Dispatcher T → Dispatcher T
  deregist_reader none d = d
  deregist_reader (some i) d = record d { new_clients = erase i d.new_clients }

  -- `leave` of reader `i`, whose weak pointer leads to this dispatcher.
  unfoldable pub leave : ℕ → Dispatcher T → Dispatcher T
  leave i d = if (d.readers i).is_registered then deregist_reader (some i) d else d

  -- A loop over the readers of a set.
  unfoldable pub visit : (Reader T → Reader T) → List ℕ → (ℕ → Reader T) → ℕ → Reader T
  visit f [] readers = readers
  visit f (i ∷ is) readers = visit f is (update readers i (f (readers i)))

  -- `while (packet_list_.size() >= max_size_) packet_list_.pop_front();`
  unfoldable pub trim : ℕ → List T → List T
  trim max_size [] = []
  trim max_size (p ∷ ps) =
      let rest = trim max_size ps in if leb max_size (length (p ∷ ps)) then rest else p ∷ ps

  unfoldable pub cache : ℕ → T → Bool → List T → List T
  cache max_size pkt is_idr packets = (if is_idr then [] else trim max_size packets) ++ (pkt ∷ [])

  -- The new readers are given the packets of the cache.
  unfoldable pub replay : List T → List ℕ → (ℕ → Reader T) → ℕ → Reader T
  replay [] is readers = readers
  replay (p ∷ ps) is readers = replay ps is (visit (on_read p) is readers)

  -- No set holds a null pointer, since `regist_reader` takes none.
  unfoldable pub distribute : T → Bool → Dispatcher T → Dispatcher T
  distribute pkt is_idr d =
      let packets = cache d.max_size pkt is_idr d.packet_list in
      record d {
        packet_list = packets;
        readers = replay packets d.new_clients (visit (on_read pkt) d.old_clients d.readers);
        old_clients = merge d.old_clients d.new_clients;
        new_clients = [];
      }

  -- `is_normal` is not passed on: `ptr->detach()` calls with the default `false`.
  unfoldable pub detach_all_readers : Bool → Dispatcher T → Dispatcher T
  detach_all_readers is_normal d =
      let leaving = λ (r : Reader T). set_registered false (detach false r) in
      record d {
        readers = visit leaving d.old_clients (visit leaving d.new_clients d.readers);
        new_clients = [];
        old_clients = [];
      }
