-- ===== src/Common/OrdMap.antt =====
-- `std::map` with a comparator: an association list in key order. Two keys are one key when neither
-- is less than the other, and a lookup goes along the list as it would go down the tree.
pub mod Texts
use the_city_crdb.Common.Tests.{
  text_lt, text_lt_irrefl, text_lt_trans, text_lt_cotrans, if◌then◌else◌, Bool-cases, ltb, ◌==◌,
}
use mathlib.Core.Bool.{Bool, true, false, ◌&&◌, not}
use Prim.Native.Nat.{ℕ, suc}
use the_city_crdb.Common.Lists.{length}
use mathlib.Core.List.{List, [], ◌∷◌}
use mathlib.Core.Logic.{◌⊎◌, inl, inr}
use mathlib.Core.Option.{Option, none, some}
use mathlib.Core.Path.{◌≡◌, refl}
use native.Mathlib.Omega.{arith}

-- The comparator, and what a map relies on: keys that are not in `Good` (NaN) may break the order.
pub record StrictWeak {ℓ} {K : Type ℓ} (lt : K → K → Bool) (Good : K → Type 0) : Type ℓ where
  pub irrefl : (a : K) → lt a a ≡ false
  pub trans : (a b c : K) → lt a b ≡ true → lt b c ≡ true → lt a c ≡ true
  pub cotrans : (a b c : K) → Good b → lt a c ≡ true → (lt a b ≡ true) ⊎ (lt b c ≡ true)

module _ {ℓ κ} {K : Type ℓ} {V : Type κ} where
  abbrev pub keys : List (K × V) → List K
  keys [] = []
  keys ((k, v) ∷ m) = k ∷ keys m

abbrev pub All {ℓ κ} : {A : Type ℓ} → (A → Type κ) → List A → Type κ
All P [] = Unit
All P (x ∷ xs) = P x × All P xs

pub All-imp {ℓ κ ι} :
    {A : Type ℓ} {P : A → Type κ} {Q : A → Type ι}
    → ((a : A) → P a → Q a)
    → (xs : List A) → All P xs
    → All Q xs
All-imp f [] h = tt
All-imp f (x ∷ xs) h = (f x h.0, All-imp f xs h.1)

-- Neither key is less than the other.
abbrev pub is_same {ℓ} : {K : Type ℓ} → (K → K → Bool) → K → K → Bool
is_same lt k j = not (lt k j) && not (lt j k)

module _ {ℓ κ} {K : Type ℓ} {V : Type κ} (lt : K → K → Bool) where
  unfoldable pub find : K → List (K × V) → Option V
  find k [] = none
  find k ((j, v) ∷ m) =
      let rest = find k m in if lt j k then rest else if lt k j then none else some v

  -- `m[k] = f(m[k])`, where `f none` is the value for a key that was not there.
  unfoldable pub upsert : K → (Option V → V) → List (K × V) → List (K × V)
  upsert k f [] = (k, f none) ∷ []
  upsert k f ((j, v) ∷ m) =
      let rest = upsert k f m in
      if lt j k
      then (j, v) ∷ rest
      else if lt k j
      then (k, f none) ∷ (j, v) ∷ m
      else (j, f (some v)) ∷ m

  -- `m.erase(k)`
  unfoldable pub remove : K → List (K × V) → List (K × V)
  remove k [] = []
  remove k ((j, v) ∷ m) =
      let rest = remove k m in if lt j k then (j, v) ∷ rest else if lt k j then (j, v) ∷ m else m

  -- The keys ascend.
  abbrev pub IsSorted : List (K × V) → Type ℓ
  IsSorted [] = Unit
  IsSorted ((k, v) ∷ m) = All (λ j. lt k j ≡ true) (keys m) × IsSorted m

  module _ {Good : K → Type 0} (laws : StrictWeak lt Good) where
    pub find-upsert :
        (k q : K) (f : Option V → V) (m : List (K × V))
        → Good k
        → Good q
        → All Good (keys m)
        → find q (upsert k f m) ≡ (if is_same lt k q then some (f (find k m)) else find q m)
    unfolding find upsert
    find-upsert k q f [] g gq gs = ground arith
    find-upsert k q f ((j, v) ∷ m) g gq gs = ground (
      arith,
      find-upsert k q f m g gq gs.1,
      laws.trans q j k,
      laws.trans q k j,
      laws.trans q j q,
      laws.irrefl q,
      laws.cotrans j q k gq,
      laws.cotrans j k q g,
      laws.cotrans q k j g,
      laws.cotrans k j q gs.0,
      laws.cotrans q j k gs.0,
    )

    -- Keys that are one key are found together.
    pub find_congr :
        (k q : K) (m : List (K × V)) → Good k → Good q → is_same lt k q ≡ true → find k m ≡ find q m
    unfolding find
    find_congr k q [] g gq e = refl
    find_congr k q ((j, v) ∷ m) g gq e = ground (
      arith,
      find_congr k q m g gq e,
      laws.cotrans j q k gq,
      laws.cotrans j k q g,
      laws.cotrans q k j g,
      laws.cotrans k q j gq,
    )

    pub All-upsert :
        (P : K → Type 0) (k : K) (f : Option V → V) (m : List (K × V))
        → P k
        → All P (keys m)
        → All P (keys (upsert k f m))
    unfolding upsert
    All-upsert P k f [] p a = (p, tt)
    All-upsert P k f ((j, v) ∷ m) p a = ground (arith, All-upsert P k f m p a.1)

    pub upsert-IsSorted :
        (k : K) (f : Option V → V) (m : List (K × V)) → IsSorted m → IsSorted (upsert k f m)
    unfolding upsert
    upsert-IsSorted k f [] s = (tt, tt)
    upsert-IsSorted k f ((j, v) ∷ m) s = elim (Bool-cases (lt j k)) [
      | inl jk ↦ rw jk (All-upsert (λ x. lt j x ≡ true) k f m jk s.0, upsert-IsSorted k f m s.1)
      | inr njk ↦ elim (Bool-cases (lt k j)) [
        | inl kj ↦ rw (njk, kj) ((kj, All-imp (λ x h. laws.trans k j x kj h) (keys m) s.0), s)
        | inr nkj ↦ rw (njk, nkj) s
      ]
    ]

module _ {ℓ κ} {K : Type ℓ} {V : Type κ} (lt : K → K → Bool) {Good : K → Type 0}
    (laws : StrictWeak lt Good) where
  -- Nothing is found under a key that is less than all keys.
  pub find_below :
      (q : K) (m : List (K × V)) → All (λ j. lt q j ≡ true) (keys m) → find lt q m ≡ none
  unfolding find
  find_below q [] a = refl
  find_below q ((j, v) ∷ m) a = ground (arith, a.0, laws.trans q j q, laws.irrefl q)

  find_below_same :
      (q j : K) (m : List (K × V))
      → Good q
      → lt j q ≡ false
      → All (λ i. lt j i ≡ true) (keys m)
      → find lt q m ≡ none
  find_below_same q j m gq e a =
      find_below q m (All-imp (λ i h. ground (arith, laws.cotrans j q i gq h)) (keys m) a)

  pub find-remove :
      (k q : K) (m : List (K × V))
      → IsSorted lt m
      → Good k
      → Good q
      → All Good (keys m)
      → find lt q (remove lt k m) ≡ (if is_same lt k q then none else find lt q m)
  unfolding find remove
  find-remove k q [] s g gq gs = ground arith
  find-remove k q ((j, v) ∷ m) s g gq gs = ground (
    arith,
    find-remove k q m s.1 g gq gs.1,
    find_below_same q j m gq,
    laws.trans q j k,
    laws.trans q k j,
    laws.trans q j q,
    laws.irrefl q,
    laws.cotrans j q k gq,
    laws.cotrans j k q g,
    laws.cotrans q k j g,
    laws.cotrans k j q gs.0,
    laws.cotrans q j k gs.0,
    laws.cotrans k q j gq,
  )

  pub All-remove :
      (P : K → Type 0) (k : K) (m : List (K × V)) → All P (keys m) → All P (keys (remove lt k m))
  unfolding remove
  All-remove P k [] a = tt
  All-remove P k ((j, v) ∷ m) a = ground (arith, All-remove P k m a.1)

  pub remove-IsSorted : (k : K) (m : List (K × V)) → IsSorted lt m → IsSorted lt (remove lt k m)
  unfolding remove
  remove-IsSorted k [] s = tt
  remove-IsSorted k ((j, v) ∷ m) s = elim (Bool-cases (lt j k)) [
    | inl jk ↦ rw jk (All-remove (λ x. lt j x ≡ true) k m s.0, remove-IsSorted k m s.1)
    | inr njk ↦ elim (Bool-cases (lt k j)) [ inl kj ↦ rw (njk, kj) s | inr nkj ↦ rw (njk, nkj) s.1 ]
  ]

module _ {ℓ κ} {K : Type ℓ} {V : Type κ} (lt : K → K → Bool) where
  pub length-upsert :
      (k : K) (f : Option V → V) (m : List (K × V))
      → length (upsert lt k f m)
        ≡ (elim (find lt k m) [ none ↦ suc (length m) | some _ ↦ length m ])
  unfolding find upsert
  length-upsert k f [] = refl
  length-upsert k f ((j, v) ∷ m) = ground (arith, length-upsert k f m)

  pub length-remove :
      (k : K) (m : List (K × V))
      → length m ≡ (elim (find lt k m) [
        | none ↦ length (remove lt k m)
        | some _ ↦ suc (length (remove lt k m))
      ])
  unfolding find remove
  length-remove k [] = refl
  length-remove k ((j, v) ∷ m) = ground (arith, length-remove k m)

-- Maps keyed by numbers: `std::map<std::size_t, …>`, and `std::unordered_map<std::uint64_t, …>` where
-- the order is never observed.
pub ltb-StrictWeak : StrictWeak ltb (λ _. Unit {0})
ltb-StrictWeak = record {
  irrefl = λ a. ground arith;
  trans = λ a b c h k. ground arith;
  cotrans = λ a b c _ h. ground arith;
}

pub All-Unit {ℓ} : {A : Type ℓ} (xs : List A) → All (λ _. Unit {0}) xs
All-Unit [] = tt
All-Unit (x ∷ xs) = (tt, All-Unit xs)

pub find-upsert_ℕ {ℓ} :
    {V : Type ℓ} (k q : ℕ) (f : Option V → V) (m : List (ℕ × V))
    → find ltb q (upsert ltb k f m) ≡ (if k == q then some (f (find ltb k m)) else find ltb q m)
find-upsert_ℕ k q f m =
    ground (arith, find-upsert ltb ltb-StrictWeak k q f m tt tt (All-Unit (keys m)))

pub find-remove_ℕ {ℓ} :
    {V : Type ℓ} (k q : ℕ) (m : List (ℕ × V))
    → IsSorted ltb m
    → find ltb q (remove ltb k m) ≡ (if k == q then none else find ltb q m)
find-remove_ℕ k q m s =
    ground (arith, find-remove ltb ltb-StrictWeak k q m s tt tt (All-Unit (keys m)))

pub text_lt-StrictWeak : StrictWeak text_lt (λ _. Unit {0})
text_lt-StrictWeak = record {
  irrefl = text_lt_irrefl;
  trans = text_lt_trans;
  cotrans = λ a b c _ h. text_lt_cotrans a b c h;
}
