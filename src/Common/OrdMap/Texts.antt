-- ===== src/Common/OrdMap/Texts.antt =====
-- Maps whose keys are texts.
use mathlib.Core.Bool.{true}
use mathlib.Core.List.{List, [], ◌∷◌}
use mathlib.Core.Logic.{inl, inr}
use mathlib.Core.Option.{Option, none, some}
use mathlib.Core.Path.{◌≡◌, refl, subst}
use native.Mathlib.Omega.{arith}
use the_city_crdb.Common.OrdMap.{
  All, All-Unit, IsSorted, find, find-remove, find-upsert, is_same, keys, remove,
  text_lt-StrictWeak, upsert,
}
use the_city_crdb.Common.Tests.{Text, Bool-cases, if◌then◌else◌, text_lt, text_lt_trans}

module _ {ℓ} {V : Type ℓ} (k q : Text) where
  pub find-upsert_text :
      (f : Option V → V) (m : List (Text × V))
      → find text_lt q (upsert text_lt k f m)
        ≡ (if is_same text_lt k q then some (f (find text_lt k m)) else find text_lt q m)
  find-upsert_text f m = find-upsert text_lt text_lt-StrictWeak k q f m tt tt (All-Unit (keys m))

  pub find-remove_text :
      (m : List (Text × V))
      → IsSorted text_lt m
      → find text_lt q (remove text_lt k m)
        ≡ (if is_same text_lt k q then none else find text_lt q m)
  find-remove_text m s = find-remove text_lt text_lt-StrictWeak k q m s tt tt (All-Unit (keys m))

-- A key below all keys of a map is not in it.
pub find-below_text {ℓ} :
    {V : Type ℓ} (q : Text) (m : List (Text × V))
    → All (λ j. text_lt q j ≡ true) (keys m)
    → find text_lt q m ≡ none
unfolding find
find-below_text q [] a = refl
find-below_text q ((j, v) ∷ m) a =
    ground (arith, a.0, find-below_text q m a.1, text_lt_trans q j q, text_lt-StrictWeak.irrefl q)

-- What holds of all entries holds of one that is found.
pub All-find {ℓ} :
    {V : Type ℓ} (P : Text × V → Type 0) (q : Text) (m : List (Text × V)) {v : V}
    → All P m
    → find text_lt q m ≡ some v
    → (n : Text) × P (n, v)
unfolding find
All-find P q [] a e = absurd (ground arith)
All-find P q ((j, w) ∷ m) {v} a e = elim (Bool-cases (text_lt j q)) [
  | inl before ↦ All-find P q m a.1 (ground (arith, before))
  | inr not_before ↦ elim (Bool-cases (text_lt q j)) [
    | inl after ↦ absurd (ground (arith, not_before, after))
    | inr same ↦
        let x : w ≡ v = ground (arith, not_before, same) in (j, subst (λ y. P (j, y)) x a.0)
  ]
]
