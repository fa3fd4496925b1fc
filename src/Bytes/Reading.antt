-- ===== src/Bytes/Reading.antt =====
-- Reading a file front to back: readBytes and readPod of src/persistence/storage_manager.cpp and of
-- src/persistence/write_ahead_log.cpp. A reader takes the bytes that are left, and its error is the
-- one that the file's kind throws at the end of the bytes.
use mathlib.Core.Path.{subst}
use the_city_crdb.Bytes.{le_bytes}
use the_city_crdb.Common.{
  ℕ, zero, suc, ◌+◌, ◌*◌, ◌/◌, ◌≡◌, refl, [], ◌∷◌, ◌++◌, arith, Text, length, Result, ok, err,
  Error,
}
use the_city_crdb.Common.{◌>>=◌ as then_on}

abbrev pub Reader {ℓ} : Type ℓ → Type ℓ
Reader A = Text → Result (A × Text)

abbrev pub pure {ℓ} : {A : Type ℓ} → A → Reader A
pure a text = ok (a, text)

abbrev pub throw {ℓ} : {A : Type ℓ} → Error → Reader A
throw e text = err e

module _ {ℓ κ} {A : Type ℓ} {B : Type κ} where
  infixl 1 ◌>>=◌ ◌>>◌
  abbrev pub ◌>>=◌ : Reader A → (A → Reader B) → Reader B
  p >>= f = λ text. then_on (p text) λ r. f r.0 r.1

  abbrev pub ◌>>◌ : Reader A → Reader B → Reader B
  p >> q = p >>= λ _. q

-- `in.read`, and the exception where the bytes end before.
unfoldable pub read_bytes : Error → ℕ → Reader Text
read_bytes e zero text = ok ([], text)
read_bytes e (suc n) [] = err e
read_bytes e (suc n) (b ∷ text) = then_on (read_bytes e n text) λ r. ok (b ∷ r.0, r.1)

-- The number whose bytes these are, the lowest first.
unfoldable pub from_le : Text → ℕ
from_le [] = 0
from_le (b ∷ bytes) = b + 256 * from_le bytes

unfoldable pub read_pod : Error → ℕ → Reader ℕ
unfolding read_bytes from_le
read_pod e width = read_bytes e width >>= λ bytes. pure (from_le bytes)

pub read_bytes-append :
    (e : Error) (bytes rest : Text) → read_bytes e (length bytes) (bytes ++ rest) ≡ ok (bytes, rest)
unfolding read_bytes
read_bytes-append e [] rest = refl
read_bytes-append e (b ∷ bytes) rest = rw (read_bytes-append e bytes rest) refl

-- The number has a representation in so many bytes.
abbrev pub Fits : ℕ → ℕ → Type 0
Fits zero x = x ≡ 0
Fits (suc width) x = Fits width (x / 256)

pub length-le_bytes : (width x : ℕ) → length (le_bytes width x) ≡ width
unfolding le_bytes
length-le_bytes zero x = refl
length-le_bytes (suc width) x = omega (arith, length-le_bytes width (x / 256))

from_le-le_bytes : (width x : ℕ) → Fits width x → from_le (le_bytes width x) ≡ x
unfolding from_le le_bytes
from_le-le_bytes zero x h = omega arith
from_le-le_bytes (suc width) x h = omega (arith, from_le-le_bytes width (x / 256) h)

pub read_pod-le_bytes :
    (e : Error) (width x : ℕ) (rest : Text)
    → Fits width x
    → read_pod e width (le_bytes width x ++ rest) ≡ ok (x, rest)
unfolding read_pod
read_pod-le_bytes e width x rest h =
    let r = read_bytes-append e (le_bytes width x) rest in
    let r' : read_bytes e width (le_bytes width x ++ rest) ≡ ok (le_bytes width x, rest) =
      subst (λ n. read_bytes e n (le_bytes width x ++ rest) ≡ ok (le_bytes width x, rest))
        (length-le_bytes width x) r in
    rw (r', from_le-le_bytes width x h) refl
