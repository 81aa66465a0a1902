-- ===== src/Util/Pool.antt =====
-- util/resource_pool.h: objects that are handed out and taken back. A pointer is a number, the
-- objects are what `new` gave: `next` is the address that the next call gives, and `deleted` the
-- addresses that were given to `delete`.
pub mod Laws
use streaming.Prelude.{
  ℕ, zero, suc, ◌+◌, Bool, true, false, List, [], ◌∷◌, ◌++◌, length, ltb, leb, ◌==◌, if◌then◌else◌,
}

-- `objs_` is a stack whose top, `back()`, is the head. `busy` is the flag `busy_`, held by a call
-- on another thread.
pub record Pool : Type 0 where
  pub pool_size : ℕ
  pub objs : List ℕ
  pub busy : Bool
  pub next : ℕ
  pub deleted : List ℕ

-- The loop of the constructor over the `n` places of `objs_`: the last one is the top.
abbrev pub fill : ℕ → ℕ → List ℕ → List ℕ
fill zero next objs = objs
fill (suc n) next objs = fill n (suc next) (next ∷ objs)

-- `create`: the constructor does not set `pool_size_`, which is 0 by its initializer.
unfoldable pub create : ℕ → ℕ → Pool
create pool_size next =
    let n = if pool_size == 0 then 64 else pool_size in
    record { pool_size = 0; objs = fill n next []; busy = false; next = next + n; deleted = [] }

abbrev pub alloc : Pool → ℕ × Pool
alloc p = (p.next, record p { next = suc p.next })

abbrev pub pop : List ℕ → Pool → ℕ × Pool
pop [] p = alloc p
pop (o ∷ os) p = (o, record p { objs = os })

-- `obtain`: the pointer of `get_obj_ptr`.
unfoldable pub get_obj_ptr : Pool → ℕ × Pool
get_obj_ptr p = if p.busy then alloc p else pop p.objs p

abbrev pub delete : ℕ → Pool → Pool
delete o p = record p { deleted = o ∷ p.deleted }

-- What the deleter of a `shared_ptr` does while the pool lives.
unfoldable pub recycle : ℕ → Pool → Pool
recycle o p =
    if p.busy
    then delete o p
    else if leb p.pool_size (length p.objs)
    then delete o p
    else record p { objs = o ∷ p.objs }
