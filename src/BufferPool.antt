-- ===== src/BufferPool.antt =====
-- The LRU buffer pool: include/VertexDB/storage/buffer_pool.hpp and src/storage/buffer_pool.cpp.
-- An iterator into `lru_` is the page id that it points to.
pub mod Recency
pub mod Eviction
pub mod Refinement
use the_city_crdb.Common.{
  ℕ, zero, suc, Bool, true, false, Option, none, some, List, [], ◌∷◌, ltb, ◌==◌, if◌then◌else◌,
  length, Result, ok, err, zero_capacity,
}
use the_city_crdb.Common.OrdMap

abbrev pub PageId : Type 0
PageId = ℕ

pub record Page : Type 0 where
  pub id : PageId
  pub bytes : List ℕ
  pub dirty : Bool

-- `lru` has the most recent page first; `pages` is the `std::unordered_map`.
pub record BufferPool : Type 0 where
  pub capacity : ℕ
  pub lru : List PageId
  pub pages : List (PageId × Page)

unfoldable pub new_pool : ℕ → Result BufferPool
new_pool capacity =
    if capacity == 0
    then err zero_capacity
    else ok (record { capacity = capacity; lru = []; pages = [] })

-- `splice` takes the node that the iterator points to out of the list.
pub unlink : PageId → List PageId → List PageId
unlink id [] = []
unlink id (k ∷ ks) = let rest = unlink id ks in if k == id then ks else k ∷ rest

touch : PageId → BufferPool → BufferPool
unfolding unlink
touch id pool = record pool { lru = id ∷ unlink id pool.lru }

pub last : List PageId → Option PageId
last [] = none
last (k ∷ []) = some k
last (k ∷ j ∷ ks) = last (j ∷ ks)

pub init : List PageId → List PageId
init [] = []
init (k ∷ []) = []
init (k ∷ j ∷ ks) = k ∷ init (j ∷ ks)

-- `while (pages_.size() > capacity_)`, with fuel. `back()` of an empty list is not reached.
evict_loop : ℕ → BufferPool → BufferPool
evict_loop zero pool = pool
evict_loop (suc fuel) pool =
    let evicted = last pool.lru in
    let next : BufferPool = elim evicted [
      | none ↦ pool
      | some id ↦
          evict_loop fuel
            (record pool { lru = init pool.lru; pages = OrdMap.remove ltb id pool.pages })
    ] in
    if ltb pool.capacity (length pool.pages) then next else pool

-- Each round takes a page out, so as many rounds as there are pages are enough.
pub evict_if_needed : BufferPool → BufferPool
unfolding evict_loop last init
evict_if_needed pool = evict_loop (length pool.pages) pool

unfoldable pub contains : PageId → BufferPool → Bool
contains id pool = elim (OrdMap.find ltb id pool.pages) [ none ↦ false | some _ ↦ true ]

unfoldable pub put : Page → BufferPool → BufferPool
unfolding touch evict_if_needed contains
put page pool =
    let stored = OrdMap.upsert ltb page.id (λ _. page) pool.pages in
    if contains page.id pool
    then touch page.id (record pool { pages = stored })
    else evict_if_needed (record pool { lru = page.id ∷ pool.lru; pages = stored })

-- A found page becomes the most recent one.
unfoldable pub get : PageId → BufferPool → Option Page × BufferPool
unfolding touch
get id pool = elim (OrdMap.find ltb id pool.pages) [
  | none ↦ (none, pool)
  | some page ↦ (some page, touch id pool)
]

unfoldable pub size : BufferPool → ℕ
size pool = length pool.pages
