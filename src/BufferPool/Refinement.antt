-- ===== src/BufferPool/Refinement.antt =====
-- `put` and `get` implement the ideal cache, and keep the list and the table linked.
use mathlib.Core.Path.{subst}
use the_city_crdb.Common.{
  ℕ, suc, ◌≤◌, ◌<◌, ◌≡◌, ◌∙◌, refl, sym, ap, true, false, Option, none, some, List, [], ◌∷◌, arith,
  ltb, length, Option-cases, Bool-cases, inl, inr, ok, take, take_of_length-le,
}
use the_city_crdb.Common.OrdMap
use the_city_crdb.Common.OrdMap.{
  All, IsSorted, find-upsert_ℕ, find-remove_ℕ, upsert-IsSorted, remove-IsSorted, length-upsert,
  length-remove, ltb-StrictWeak,
}
use the_city_crdb.BufferPool.{
  Page, PageId, BufferPool, new_pool, unlink, touch, evict_if_needed, contains, put, get,
}
use the_city_crdb.BufferPool.Recency.{
  elem, collect, recent_pages, drop_page, find_page, IsValid, elem-unlink, unlink-IsDistinct,
  length-unlink, drop_page-collect, collect-unlink, find_page-collect, length-collect_le,
}
use the_city_crdb.BufferPool.Eviction.{
  evict_lem, in_front, recent-in_front, known-IsLinked, new-IsLinked,
}

-- What `put` and `get` do to the ideal cache.
abbrev pub Puts : Page → BufferPool → BufferPool → Type 0
Puts page pool pool' =
    IsValid pool'
    × (pool'.capacity ≡ pool.capacity)
    × (recent_pages pool' ≡ take pool.capacity (page ∷ drop_page page.id (recent_pages pool)))

put_known :
    (page : Page) (pool : BufferPool) (v : IsValid pool)
    → elem page.id pool.lru ≡ true
    → Puts page pool (in_front page pool v.linked (unlink page.id pool.lru))
unfolding recent_pages
put_known page pool v e =
    let ks = unlink page.id pool.lru in
    let w = known-IsLinked page pool v.linked e in
    let short : suc (length ks) ≤ pool.capacity =
      ground (arith, length-unlink page.id pool.lru e, v.bounded) in
    (
      record { linked = w; positive = v.positive; bounded = short },
      refl,
      recent-in_front page pool v.linked ks w.distinct.0
          ∙ ap (◌∷◌ page)
              (collect-unlink page.id pool.lru pool.pages v.linked.keyed v.linked.distinct)
          ∙ sym (
              take_of_length-le pool.capacity _ (
                ground (
                  arith,
                  ap length
                      (collect-unlink page.id pool.lru pool.pages v.linked.keyed v.linked.distinct),
                  length-collect_le ks pool.pages,
                  short,
                ))),
    )

put_new :
    (page : Page) (pool : BufferPool) (v : IsValid pool)
    → elem page.id pool.lru ≡ false
    → Puts page pool (evict_if_needed (in_front page pool v.linked pool.lru))
put_new page pool v e =
    let s = in_front page pool v.linked pool.lru in
    let (w, c, b, r) =
      evict_lem s page.id pool.lru (new-IsLinked page pool v.linked e) refl v.bounded in
    (
      record { linked = w; positive = rw c v.positive; bounded = rw c b },
      c,
      unfold recent_pages in
          (r
            ∙ ap (take pool.capacity) (
                recent-in_front page pool v.linked pool.lru e
                ∙ ap (◌∷◌ page)
                    (sym (drop_page-collect page.id pool.lru pool.pages v.linked.keyed e)))),
    )

-- From a valid pool, `put` stores the page as the most recent one, drops the least recent page
-- when the pool was full and the page new, keeps all others in their order, and leaves a valid pool.
pub put-Puts : (page : Page) (pool : BufferPool) → IsValid pool → Puts page pool (put page pool)
unfolding put touch
put-Puts page pool v = elim (Bool-cases (contains page.id pool)) [
  | inl e ↦ rw e (put_known page pool v (sym (v.linked.same_ids page.id) ∙ e))
  | inr e ↦ rw e (put_new page pool v (sym (v.linked.same_ids page.id) ∙ e))
]

-- `get` on the ideal cache: the page under the id, moved to the front.
unfoldable pub use_page : PageId → List Page → List Page
use_page id ps = elim (find_page id ps) [ none ↦ ps | some p ↦ p ∷ drop_page id ps ]

touch-IsValid :
    (id : PageId) (pool : BufferPool)
    → IsValid pool
    → elem id pool.lru ≡ true
    → IsValid (touch id pool)
unfolding touch contains
touch-IsValid id pool v e = record {
  linked = record {
    distinct = (
      ground (arith, elem-unlink id id pool.lru v.linked.distinct),
      unlink-IsDistinct id pool.lru v.linked.distinct,
    );
    sorted = v.linked.sorted;
    same_ids =
        λ j. ground (arith, elem-unlink id j pool.lru v.linked.distinct, v.linked.same_ids j);
    same_size = ground (arith, v.linked.same_size, length-unlink id pool.lru e);
    keyed = v.linked.keyed;
  };
  positive = v.positive;
  bounded = ground (arith, v.bounded, length-unlink id pool.lru e);
}

abbrev pub Gets : PageId → BufferPool → Option Page × BufferPool → Type 0
Gets id pool r =
    IsValid r.1
    × (r.0 ≡ find_page id (recent_pages pool))
    × (recent_pages r.1 ≡ use_page id (recent_pages pool))

-- From a valid pool, `get` returns the page that the ideal cache has under the id, if any, moves it
-- to the front of the pages and leaves a valid pool.
pub get-Gets : (id : PageId) (pool : BufferPool) → IsValid pool → Gets id pool (get id pool)
unfolding get use_page recent_pages contains
get-Gets id pool v =
    let f = find_page-collect id pool.lru pool.pages v.linked.keyed in
    elim (Option-cases (OrdMap.find ltb id pool.pages)) [
      | inl n ↦ rw (n, get) (v, ground (arith, f, n), ground (arith, f, n))
      | inr (p, h) ↦
          let e : elem id pool.lru ≡ true = ground (arith, v.linked.same_ids id) in
          rw (h, get)
            (
              touch-IsValid id pool v e,
              ground (arith, f, h),
              unfold touch collect in
                  ground (
                    arith,
                    f,
                    h,
                    collect-unlink id pool.lru pool.pages v.linked.keyed v.linked.distinct,
                  ),
            )
    ]

empty_pool : ℕ → BufferPool
empty_pool capacity = record { capacity = capacity; lru = []; pages = [] }

empty_pool-IsValid : (capacity : ℕ) → 0 < capacity → IsValid (empty_pool capacity)
unfolding empty_pool contains OrdMap.find
empty_pool-IsValid capacity h = record {
  linked = record {
    distinct = tt;
    sorted = tt;
    same_ids = λ k. refl;
    same_size = refl;
    keyed = λ k p e. absurd (ground arith);
  };
  positive = h;
  bounded = omega arith;
}

-- The constructor refuses the capacity 0, and builds a valid pool with no pages for any other.
pub new_pool-IsValid :
    (capacity : ℕ) {pool : BufferPool}
    → new_pool capacity ≡ ok pool
    → IsValid pool × (pool.capacity ≡ capacity) × (recent_pages pool ≡ [])
unfolding new_pool recent_pages empty_pool
new_pool-IsValid capacity {pool} e =
    let built : empty_pool capacity ≡ pool = ground arith in
    (
      subst IsValid built (empty_pool-IsValid capacity (ground arith)),
      ap (λ (q : BufferPool). q.capacity) (sym built),
      ap (λ (q : BufferPool). collect q.lru q.pages) (sym built),
    )
