-- ===== src/Util/Pool/Laws.antt =====
-- No object of util/resource_pool.h is in two hands, and none is used after its end.
use streaming.Prelude.{
  ℕ, zero, suc, ◌+◌, ◌<◌, ◌≡◌, ◌≢◌, refl, sym, arith, true, false, List, [], ◌∷◌, ◌==◌,
  if◌then◌else◌, All,
}
use native.Mathlib.Nat.{add-zero}
use streaming.Util.Pool.{Pool, fill, create, alloc, pop, get_obj_ptr}

abbrev pub Apart : ℕ → List ℕ → Type 0
Apart o l = All (λ k. o ≢ k) l

abbrev pub IsDistinct : List ℕ → Type 0
IsDistinct [] = Unit
IsDistinct (o ∷ os) = Apart o os × IsDistinct os

abbrev pub Disjoint : List ℕ → List ℕ → Type 0
Disjoint l m = All (λ o. Apart o m) l

-- The objects are in the pool, in use or deleted, each in one place; `used` lists those in use.
pub record IsValid (used : List ℕ) (p : Pool) : Type 0 where
  pub objs_new : All (λ o. o < p.next) p.objs
  pub used_new : All (λ o. o < p.next) used
  pub deleted_new : All (λ o. o < p.next) p.deleted
  pub objs_once : IsDistinct p.objs
  pub used_once : IsDistinct used
  pub deleted_once : IsDistinct p.deleted
  pub objs_used : Disjoint p.objs used
  pub used_deleted : Disjoint used p.deleted
  pub objs_deleted : Disjoint p.objs p.deleted

below-Apart : (n : ℕ) (l : List ℕ) → All (λ o. o < n) l → Apart n l
below-Apart n [] h = tt
below-Apart n (o ∷ os) h = ((λ e. absurd (omega (arith, h.0))), below-Apart n os h.1)

below-suc : (n : ℕ) (l : List ℕ) → All (λ o. o < n) l → All (λ o. o < suc n) l
below-suc n [] h = tt
below-suc n (o ∷ os) h = (omega (arith, h.0), below-suc n os h.1)

Disjoint-cons : (o : ℕ) (l m : List ℕ) → Disjoint l m → Apart o l → Disjoint l (o ∷ m)
Disjoint-cons o [] m d a = tt
Disjoint-cons o (k ∷ ks) m d a = (((λ e. a.0 (sym e)), d.0), Disjoint-cons o ks m d.1 a.1)

alloc-IsValid : (used : List ℕ) (p : Pool) → IsValid used p → IsValid (p.next ∷ used) (alloc p).1
alloc-IsValid used p v = record {
  objs_new = below-suc p.next p.objs v.objs_new;
  used_new = (omega arith, below-suc p.next used v.used_new);
  deleted_new = below-suc p.next p.deleted v.deleted_new;
  objs_once = v.objs_once;
  used_once = (below-Apart p.next used v.used_new, v.used_once);
  deleted_once = v.deleted_once;
  objs_used = Disjoint-cons p.next p.objs used v.objs_used (below-Apart p.next p.objs v.objs_new);
  used_deleted = (below-Apart p.next p.deleted v.deleted_new, v.used_deleted);
  objs_deleted = v.objs_deleted;
}

pop-IsValid :
    (used : List ℕ) (p : Pool) (os : List ℕ)
    → p.objs ≡ os
    → IsValid used p
    → IsValid ((pop os p).0 ∷ used) (pop os p).1
pop-IsValid used p [] e v = alloc-IsValid used p v
pop-IsValid used p (o ∷ os) e v =
    let fresh : All (λ k. k < p.next) (o ∷ os) = rw e at v.objs_new in
    let once : IsDistinct (o ∷ os) = rw e at v.objs_once in
    let apart : Disjoint (o ∷ os) used = rw e at v.objs_used in
    let alive : Disjoint (o ∷ os) p.deleted = rw e at v.objs_deleted in
    record {
      objs_new = fresh.1;
      used_new = (fresh.0, v.used_new);
      deleted_new = v.deleted_new;
      objs_once = once.1;
      used_once = (apart.0, v.used_once);
      deleted_once = v.deleted_once;
      objs_used = Disjoint-cons o os used apart.1 once.0;
      used_deleted = (alive.0, v.used_deleted);
      objs_deleted = alive.1;
    }

-- In a well-formed pool, `obtain` gives an object that nobody else has and that was not deleted,
-- whether the flag is taken or not, and the pool stays well formed.
pub get_obj_ptr-IsValid :
    (used : List ℕ) (p : Pool)
    → IsValid used p
    → IsValid ((get_obj_ptr p).0 ∷ used) (get_obj_ptr p).1
unfolding get_obj_ptr
get_obj_ptr-IsValid used p v =
    elim p.busy as (λ b. let r = if b then alloc p else pop p.objs p in IsValid (r.0 ∷ used) r.1) [
      | true ↦ alloc-IsValid used p v
      | false ↦ pop-IsValid used p p.objs refl v
    ]

fill_lem :
    (n next : ℕ) (objs : List ℕ)
    → All (λ o. o < next) objs
    → IsDistinct objs
    → All (λ o. o < next + n) (fill n next objs) × IsDistinct (fill n next objs)
fill_lem zero next objs b d = (rw (add-zero next) b, d)
fill_lem (suc n) next objs b d =
    let more =
      fill_lem n (suc next) (next ∷ objs) (omega arith, below-suc next objs b)
        (below-Apart next objs b, d) in
    let e : suc next + n ≡ next + suc n = omega arith in (rw e at more.0, more.1)

none_Disjoint : (l : List ℕ) → Disjoint l []
none_Disjoint [] = tt
none_Disjoint (o ∷ os) = (tt, none_Disjoint os)

-- A new pool is well formed, with no object in use.
pub create-IsValid : (n next : ℕ) → IsValid [] (create n next)
unfolding create
create-IsValid n next =
    let k = if n == 0 then 64 else n in
    let filled = fill_lem k next [] tt tt in
    record {
      objs_new = filled.0;
      used_new = tt;
      deleted_new = tt;
      objs_once = filled.1;
      used_once = tt;
      deleted_once = tt;
      objs_used = none_Disjoint (fill k next []);
      used_deleted = tt;
      objs_deleted = none_Disjoint (fill k next []);
    }
