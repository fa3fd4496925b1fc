-- ===== src/BufferPool/Recency.antt =====
-- The pool against an ideal cache: a list of pages, most recently used first, cut at the capacity.
use the_city_crdb.Common.{
  ℕ, suc, ◌≤◌, ◌<◌, ◌≡◌, refl, Bool, true, false, Option, none, some, List, [], ◌∷◌, arith, ltb,
  ◌==◌, if◌then◌else◌, length, Option-cases, inl, inr, take, ◌||◌,
}
use the_city_crdb.Common.OrdMap
use the_city_crdb.Common.OrdMap.{
  All, IsSorted, find-upsert_ℕ, find-remove_ℕ, upsert-IsSorted, remove-IsSorted, length-upsert,
  length-remove, ltb-StrictWeak,
}
use the_city_crdb.BufferPool.{Page, PageId, BufferPool, unlink, last, init, contains}

abbrev pub elem : ℕ → List ℕ → Bool
elem k [] = false
elem k (j ∷ ks) = j == k || elem k ks

abbrev pub IsDistinct : List ℕ → Type 0
IsDistinct [] = Unit {0}
IsDistinct (k ∷ ks) = (elem k ks ≡ false) × IsDistinct ks

-- The pages of a list of ids.
unfoldable pub collect : List PageId → List (PageId × Page) → List Page
collect [] m = []
collect (k ∷ ks) m = elim (OrdMap.find ltb k m) [ none ↦ collect ks m | some p ↦ p ∷ collect ks m ]

-- The pool as its users see it.
unfoldable pub recent_pages : BufferPool → List Page
unfolding collect
recent_pages pool = collect pool.lru pool.pages

-- The ideal cache.
unfoldable pub drop_page : PageId → List Page → List Page
drop_page id [] = []
drop_page id (p ∷ ps) = let rest = drop_page id ps in if p.id == id then rest else p ∷ rest

unfoldable pub find_page : PageId → List Page → Option Page
find_page id [] = none
find_page id (p ∷ ps) = let rest = find_page id ps in if p.id == id then some p else rest

-- The list and the table hold the same ids, once each, within the capacity.
pub record IsLinked (pool : BufferPool) : Type 0 where
  pub distinct : IsDistinct pool.lru
  pub sorted : IsSorted ltb pool.pages
  pub same_ids : (k : ℕ) → contains k pool ≡ elem k pool.lru
  pub same_size : length pool.pages ≡ length pool.lru
  pub keyed : (k : ℕ) (p : Page) → OrdMap.find ltb k pool.pages ≡ some p → p.id ≡ k

pub record IsValid (pool : BufferPool) : Type 0 where
  pub linked : IsLinked pool
  pub positive : 0 < pool.capacity
  pub bounded : length pool.lru ≤ pool.capacity

pub elem-unlink :
    (k j : ℕ) (ks : List ℕ)
    → IsDistinct ks
    → elem j (unlink k ks) ≡ (if k == j then false else elem j ks)
unfolding unlink
elem-unlink k j [] d = ground arith
elem-unlink k j (i ∷ ks) d = ground (arith, elem-unlink k j ks d.1, d.0)

pub unlink-IsDistinct : (k : ℕ) (ks : List ℕ) → IsDistinct ks → IsDistinct (unlink k ks)
unfolding unlink
unlink-IsDistinct k [] d = tt
unlink-IsDistinct k (i ∷ ks) d =
    ground (arith, unlink-IsDistinct k ks d.1, elem-unlink k i ks d.1, d.0)

pub length-unlink :
    (k : ℕ) (ks : List ℕ) → elem k ks ≡ true → suc (length (unlink k ks)) ≡ length ks
unfolding unlink
length-unlink k [] e = cc
length-unlink k (i ∷ ks) e = ground (arith, length-unlink k ks)

pub collect-upsert :
    (k : ℕ) (f : Option Page → Page) (ks : List ℕ) (m : List (ℕ × Page))
    → elem k ks ≡ false
    → collect ks (OrdMap.upsert ltb k f m) ≡ collect ks m
unfolding collect
collect-upsert k f [] m e = refl
collect-upsert k f (j ∷ ks) m e = ground (arith, collect-upsert k f ks m, find-upsert_ℕ k j f m)

pub collect-remove :
    (k : ℕ) (ks : List ℕ) (m : List (ℕ × Page))
    → IsSorted ltb m
    → elem k ks ≡ false
    → collect ks (OrdMap.remove ltb k m) ≡ collect ks m
unfolding collect
collect-remove k [] m s e = refl
collect-remove k (j ∷ ks) m s e = ground (arith, collect-remove k ks m s, find-remove_ℕ k j m s)

abbrev Keyed : List (ℕ × Page) → Type 0
Keyed m = (k : ℕ) (p : Page) → OrdMap.find ltb k m ≡ some p → p.id ≡ k

pub drop_page-collect :
    (k : ℕ) (ks : List ℕ) (m : List (ℕ × Page))
    → Keyed m
    → elem k ks ≡ false
    → drop_page k (collect ks m) ≡ collect ks m
unfolding collect drop_page
drop_page-collect k [] m h e = refl
drop_page-collect k (j ∷ ks) m h e = elim (Option-cases (OrdMap.find ltb j m)) [
  | inl n ↦ ground (arith, n, drop_page-collect k ks m h)
  | inr (p, f) ↦ ground (arith, f, h j p f, drop_page-collect k ks m h)
]

pub collect-unlink :
    (k : ℕ) (ks : List ℕ) (m : List (ℕ × Page))
    → Keyed m
    → IsDistinct ks
    → collect (unlink k ks) m ≡ drop_page k (collect ks m)
unfolding unlink collect drop_page
collect-unlink k [] m h d = refl
collect-unlink k (j ∷ ks) m h d = elim (Option-cases (OrdMap.find ltb j m)) [
  | inl n ↦ ground (arith, n, collect-unlink k ks m h d.1, drop_page-collect k ks m h, d.0)
  | inr (p, f) ↦
      ground (arith, f, h j p f, collect-unlink k ks m h d.1, drop_page-collect k ks m h, d.0)
]

pub find_page-collect :
    (k : ℕ) (ks : List ℕ) (m : List (ℕ × Page))
    → Keyed m
    → find_page k (collect ks m) ≡ (if elem k ks then OrdMap.find ltb k m else none)
unfolding find_page collect
find_page-collect k [] m h = refl
find_page-collect k (j ∷ ks) m h = elim (Option-cases (OrdMap.find ltb j m)) [
  | inl n ↦ ground (arith, n, find_page-collect k ks m h)
  | inr (p, f) ↦ ground (arith, f, h j p f, find_page-collect k ks m h)
]

pub length-collect_le : (ks : List ℕ) (m : List (ℕ × Page)) → length (collect ks m) ≤ length ks
unfolding collect
length-collect_le [] m = omega arith
length-collect_le (k ∷ ks) m = ground (arith, length-collect_le ks m)

pub last-some : (k : ℕ) (ks : List ℕ) → (e : ℕ) × (last (k ∷ ks) ≡ some e)
unfolding last
last-some k [] = (k, refl)
last-some k (j ∷ ks) = last-some j ks

pub elem-last : (k e : ℕ) (ks : List ℕ) → last (k ∷ ks) ≡ some e → elem e (k ∷ ks) ≡ true
unfolding last
elem-last k e [] h = ground arith
elem-last k e (j ∷ ks) h = ground (arith, elem-last j e ks h)

pub elem-init :
    (k j e : ℕ) (ks : List ℕ)
    → IsDistinct (k ∷ ks)
    → last (k ∷ ks) ≡ some e
    → elem j (init (k ∷ ks)) ≡ (if e == j then false else elem j (k ∷ ks))
unfolding last init
elem-init k j e [] d h = ground arith
elem-init k j e (i ∷ ks) d h = ground (arith, elem-init i j e ks d.1 h, elem-last i e ks h, d.0)

pub init-IsDistinct : (k : ℕ) (ks : List ℕ) → IsDistinct (k ∷ ks) → IsDistinct (init (k ∷ ks))
unfolding init
init-IsDistinct k [] d = tt
init-IsDistinct k (i ∷ ks) d =
    let (e, h) = last-some i ks in
    (ground (arith, elem-init i k e ks d.1 h, d.0), init-IsDistinct i ks d.1)

pub length-init : (k : ℕ) (ks : List ℕ) → length (init (k ∷ ks)) ≡ length ks
unfolding init
length-init k [] = refl
length-init k (i ∷ ks) = omega (arith, length-init i ks)

-- Without its least recent page the pool's pages are a prefix of what they were.
pub collect-init :
    (k : ℕ) (ks : List ℕ) (m : List (ℕ × Page))
    → ((j : ℕ) → elem j (k ∷ ks) ≡ true → (p : Page) × (OrdMap.find ltb j m ≡ some p))
    → collect (init (k ∷ ks)) m ≡ take (length ks) (collect (k ∷ ks) m)
unfolding init collect
collect-init k [] m h = refl
collect-init k (i ∷ ks) m h =
    let (p, f) = h k (ground arith) in
    ground (arith, f, collect-init i ks m (λ j e. h j (ground arith)))
