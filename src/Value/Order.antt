-- ===== src/Value/Order.antt =====
-- The order and the equality of values: what `std::map<Value, …>`, the indexes and ORDER BY rely on.
use the_city_crdb.Common.{
  text_eq, refl, ◌≡◌, true, false, not, ◌&&◌, ◌⊎◌, arith, text_eq_iff, text_lt_irrefl,
  text_lt_trans, text_lt_cotrans, text_lt_total, refl, Text, [], ◌∷◌,
}
use the_city_crdb.Common.OrdMap.{StrictWeak}
use the_city_crdb.Value.{Value, double, string, is_nan, value_eq, value_lt, double_lt, double_eq}

-- The value is no NaN.
abbrev pub IsComparable : Value → Type 0
IsComparable (double d) = is_nan d ≡ false
IsComparable _ = Unit {0}

pub value_lt_irrefl : (a : Value) → value_lt a a ≡ false
unfolding value_lt double_lt
value_lt_irrefl (string s) = text_lt_irrefl s
value_lt_irrefl a = ground arith

pub value_lt_trans :
    (a b c : Value) → value_lt a b ≡ true → value_lt b c ≡ true → value_lt a c ≡ true
unfolding value_lt double_lt
value_lt_trans (string s) (string t) (string u) h k = text_lt_trans s t u h k
value_lt_trans a b c h k = ground arith

pub value_lt_cotrans :
    (a b c : Value)
    → IsComparable b
    → value_lt a c ≡ true
    → (value_lt a b ≡ true) ⊎ (value_lt b c ≡ true)
unfolding value_lt double_lt
value_lt_cotrans (string s) (string t) (string u) n h = text_lt_cotrans s t u h
value_lt_cotrans a b c n h = ground arith

-- Of two values that are no NaN, `==` holds exactly where `<` holds in neither direction.
pub value_eq-not_lt :
    (a b : Value)
    → IsComparable a
    → IsComparable b
    → value_eq a b ≡ not (value_lt a b) && not (value_lt b a)
unfolding value_lt double_lt value_eq double_eq
value_eq-not_lt (string s) (string t) n m =
    ground (arith, text_eq_iff s t, text_lt_irrefl s, text_lt_total s t, text_lt_irrefl t)
value_eq-not_lt a b n m = ground arith

text_eq_symm : (s t : Text) → text_eq s t ≡ text_eq t s
unfolding text_eq
text_eq_symm [] [] = refl
text_eq_symm (a ∷ s) (b ∷ t) = ground (arith, text_eq_symm s t)
text_eq_symm s t = ground arith

pub value_eq_symm : (a b : Value) → value_eq a b ≡ value_eq b a
unfolding value_eq double_eq
value_eq_symm (string s) (string t) = text_eq_symm s t
value_eq_symm a b = ground arith

pub value_eq_trans :
    (a b c : Value) → value_eq a b ≡ true → value_eq b c ≡ true → value_eq a c ≡ true
unfolding value_eq double_eq
value_eq_trans (string s) (string t) (string u) h k =
    ground (arith, text_eq_iff s t, text_eq_iff t u, text_eq_iff s u)
value_eq_trans a b c h k = ground arith

-- `<` on values is a strict weak order where no value is NaN, as `std::map` requires.
pub value_lt-StrictWeak : StrictWeak value_lt IsComparable
value_lt-StrictWeak = record {
  irrefl = value_lt_irrefl;
  trans = value_lt_trans;
  cotrans = value_lt_cotrans;
}
