-- ===== src/BufferPool/Eviction.antt =====
-- What the eviction loop and a new first page leave of the list and the table of pages.
-- (src/storage/buffer_pool.cpp)
use the_city_crdb.Common.{
  ℕ, zero, suc, ◌≤◌, ◌≡◌, ◌∙◌, refl, sym, ap, true, false, some, List, ◌∷◌, arith, ltb, ◌==◌,
  if◌then◌else◌, length, Option-cases, Bool-cases, inl, inr, take, take_of_length-le,
}
use the_city_crdb.Common.OrdMap
use the_city_crdb.Common.OrdMap.{
  All, IsSorted, find-upsert_ℕ, find-remove_ℕ, upsert-IsSorted, remove-IsSorted, length-upsert,
  length-remove, ltb-StrictWeak,
}
use the_city_crdb.BufferPool.{
  Page, PageId, BufferPool, unlink, last, init, evict_loop, evict_if_needed, contains,
}
use the_city_crdb.BufferPool.Recency.{
  elem, IsDistinct, collect, recent_pages, IsLinked, elem-unlink, unlink-IsDistinct, length-unlink,
  collect-upsert, collect-remove, length-collect_le, elem-last, elem-init, init-IsDistinct,
  length-init, last-some, collect-init,
}

found_of_elem :
    (pool : BufferPool)
    → IsLinked pool
    → (j : ℕ) → elem j pool.lru ≡ true
    → (p : Page) × (OrdMap.find ltb j pool.pages ≡ some p)
unfolding contains
found_of_elem pool v j e = elim (Option-cases (OrdMap.find ltb j pool.pages)) [
  | inl n ↦ absurd (ground (arith, v.same_ids j))
  | inr f ↦ f
]

-- The pool with its least recent page, `e`, taken out.
abbrev popped : ℕ → BufferPool → BufferPool
popped e pool = record pool { lru = init pool.lru; pages = OrdMap.remove ltb e pool.pages }

popped-IsLinked :
    (pool : BufferPool) (k e : ℕ) (ks : List ℕ)
    → IsLinked pool
    → pool.lru ≡ k ∷ ks
    → last (k ∷ ks) ≡ some e
    → IsLinked (popped e pool)
unfolding contains
popped-IsLinked pool k e ks v l h =
    let d : IsDistinct (k ∷ ks) = rw l at v.distinct in
    let (p, f) = found_of_elem pool v e (rw l (elem-last k e ks h)) in
    record {
      distinct = rw l (init-IsDistinct k ks d);
      sorted = remove-IsSorted ltb ltb-StrictWeak e pool.pages v.sorted;
      same_ids = λ j. rw l (
          ground
            (arith, find-remove_ℕ e j pool.pages v.sorted, elem-init k j e ks d h, v.same_ids j));
      same_size =
          rw l (ground (arith, length-remove ltb e pool.pages, length-init k ks, v.same_size));
      keyed = λ j q g. ground (arith, find-remove_ℕ e j pool.pages v.sorted, v.keyed j q);
    }

evict_none :
    (fuel : ℕ) (pool : BufferPool) → length pool.pages ≤ pool.capacity → evict_loop fuel pool ≡ pool
unfolding evict_loop
evict_none zero pool h = refl
evict_none (suc fuel) pool h = ground arith

evict_one :
    (fuel : ℕ) (pool : BufferPool) (k e : ℕ) (ks : List ℕ)
    → IsLinked pool
    → pool.lru ≡ k ∷ ks
    → last (k ∷ ks) ≡ some e
    → length ks ≡ pool.capacity
    → evict_loop (suc fuel) pool ≡ popped e pool
unfolding evict_loop
evict_one fuel pool k e ks v l h n =
    let w = popped-IsLinked pool k e ks v l h in
    ground (arith, evict_none fuel (popped e pool), v.same_size, w.same_size, length-init k ks)

abbrev Evicts : BufferPool → BufferPool → Type 0
Evicts pool pool' =
    IsLinked pool'
    × (pool'.capacity ≡ pool.capacity)
    × (length pool'.lru ≤ pool.capacity)
    × (recent_pages pool' ≡ take pool.capacity (recent_pages pool))

evict_big :
    (pool : BufferPool) (k e : ℕ) (ks : List ℕ)
    → IsLinked pool
    → pool.lru ≡ k ∷ ks
    → last (k ∷ ks) ≡ some e
    → length ks ≡ pool.capacity
    → evict_if_needed pool ≡ popped e pool
unfolding evict_if_needed
evict_big pool k e ks v l h n =
    let e0 : length pool.pages ≡ suc (length ks) = v.same_size ∙ ap length l in
    ap (λ f. evict_loop f pool) e0 ∙ evict_one (length ks) pool k e ks v l h n

popped-Evicts :
    (pool : BufferPool) (k e : ℕ) (ks : List ℕ)
    → IsLinked pool
    → pool.lru ≡ k ∷ ks
    → last (k ∷ ks) ≡ some e
    → length ks ≡ pool.capacity
    → Evicts pool (popped e pool)
unfolding recent_pages
popped-Evicts pool k e ks v l h n =
    let d : IsDistinct (k ∷ ks) = rw l at v.distinct in
    (
      popped-IsLinked pool k e ks v l h,
      refl,
      rw l (omega (arith, length-init k ks)),
      rw l (
          collect-remove e (init (k ∷ ks)) pool.pages v.sorted
            (ground (arith, elem-init k e e ks d h))
          ∙ collect-init k ks pool.pages (λ j x. found_of_elem pool v j (rw l x))
          ∙ ap (λ c. take c (collect (k ∷ ks) pool.pages)) n),
    )

pub evict_lem :
    (pool : BufferPool) (k : ℕ) (ks : List ℕ)
    → IsLinked pool
    → pool.lru ≡ k ∷ ks
    → length ks ≤ pool.capacity
    → Evicts pool (evict_if_needed pool)
evict_lem pool k ks v l n = elim (Bool-cases (ltb pool.capacity (length pool.pages))) [
  | inr small ↦
      unfold evict_if_needed recent_pages in
      rw (evict_none (length pool.pages) pool (ground arith)) (
        v,
        refl,
        ground (arith, v.same_size),
        sym (
            take_of_length-le pool.capacity (collect pool.lru pool.pages)
              (ground (arith, length-collect_le pool.lru pool.pages, v.same_size))),
      )
  | inl big ↦
      let (e, h) = last-some k ks in
      let full : length ks ≡ pool.capacity = ground (arith, v.same_size, ap length l) in
      rw (evict_big pool k e ks v l h full) (popped-Evicts pool k e ks v l h full)
]

-- The page is stored under its id, and its id is put in front.
module _ (page : Page) (pool : BufferPool) (v : IsLinked pool) where
  abbrev stored : List (PageId × Page)
  stored = OrdMap.upsert ltb page.id (λ _. page) pool.pages

  abbrev pub in_front : List PageId → BufferPool
  in_front ks = record pool { lru = page.id ∷ ks; pages = stored }

  in_front-IsLinked :
      (ks : List PageId)
      → IsDistinct (page.id ∷ ks)
      → ((j : ℕ) → elem j (page.id ∷ ks) ≡ (if page.id == j then true else elem j pool.lru))
      → length stored ≡ suc (length ks)
      → IsLinked (in_front ks)
  unfolding contains
  in_front-IsLinked ks d same n = record {
    distinct = d;
    sorted = upsert-IsSorted ltb ltb-StrictWeak page.id (λ _. page) pool.pages v.sorted;
    same_ids =
        λ j. ground (arith, find-upsert_ℕ page.id j (λ _. page) pool.pages, same j, v.same_ids j);
    same_size = n;
    keyed = λ j q g. ground (arith, find-upsert_ℕ page.id j (λ _. page) pool.pages, v.keyed j q);
  }

  pub recent-in_front :
      (ks : List PageId)
      → elem page.id ks ≡ false
      → collect (page.id ∷ ks) stored ≡ page ∷ collect ks pool.pages
  unfolding collect
  recent-in_front ks e = ground (
    arith,
    find-upsert_ℕ page.id page.id (λ _. page) pool.pages,
    collect-upsert page.id (λ _. page) ks pool.pages e,
  )

  length-stored :
      length stored ≡ (if elem page.id pool.lru then length pool.lru else suc (length pool.lru))
  unfolding contains
  length-stored =
      ground
        (arith, length-upsert ltb page.id (λ _. page) pool.pages, v.same_ids page.id, v.same_size)

  pub known-IsLinked : elem page.id pool.lru ≡ true → IsLinked (in_front (unlink page.id pool.lru))
  known-IsLinked e =
      in_front-IsLinked (unlink page.id pool.lru)
        (
          ground (arith, elem-unlink page.id page.id pool.lru v.distinct),
          unlink-IsDistinct page.id pool.lru v.distinct,
        )
        (λ j. ground (arith, elem-unlink page.id j pool.lru v.distinct))
        (ground (arith, length-stored, length-unlink page.id pool.lru e))

  pub new-IsLinked : elem page.id pool.lru ≡ false → IsLinked (in_front pool.lru)
  new-IsLinked e =
      in_front-IsLinked pool.lru (e, v.distinct) (λ j. ground arith) (ground (arith, length-stored))
