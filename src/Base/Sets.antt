-- ===== src/Base/Sets.antt =====
-- Go strings as bytes, their comparison, and a `map[string]bool` to which only `true` is ever
-- written: the list of its keys.
use Prim.Native.Nat.{ℕ}
use Prim.Native.Char.{code}
use Prim.Native.String.{String}
use mathlib.Core.Path.{◌≡◌, refl}
use mathlib.Core.Logic.{◌↔◌, ◌≢◌}
use mathlib.Core.Bool.{Bool, true, false, ◌&&◌, ◌||◌}
use mathlib.Core.List.{List, [], ◌∷◌, ◌++◌}
use native.Mathlib.Omega.{arith}
use db_backup.Base.Tests.{◌==◌}
use db_backup.Base.Lists.{In}

abbrev pub Bytes : Type 0
Bytes = List ℕ

-- The bytes of an ASCII literal.
abbrev pub codes : String → Bytes
codes String.[] = []
codes (String.◌∷◌ c s) = code c ∷ codes s

unfoldable pub bytes_eq : Bytes → Bytes → Bool
bytes_eq [] [] = true
bytes_eq [] (d ∷ t) = false
bytes_eq (c ∷ s) [] = false
bytes_eq (c ∷ s) (d ∷ t) = c == d && bytes_eq s t

pub bytes_eq_sound : (s t : Bytes) → bytes_eq s t ≡ true → s ≡ t
unfolding bytes_eq
bytes_eq_sound [] [] h = refl
bytes_eq_sound [] (d ∷ t) h = cc
bytes_eq_sound (c ∷ s) [] h = cc
bytes_eq_sound (c ∷ s) (d ∷ t) h = ground (arith, bytes_eq_sound s t)

pub bytes_eq_refl : (s : Bytes) → bytes_eq s s ≡ true
unfolding bytes_eq
bytes_eq_refl [] = refl
bytes_eq_refl (c ∷ s) = ground (arith, bytes_eq_refl s)

pub bytes_eq_iff : (s t : Bytes) → (bytes_eq s t ≡ true) ↔ (s ≡ t)
bytes_eq_iff s t = (bytes_eq_sound s t, λ e. rw e (bytes_eq_refl t))

unfoldable pub mem : Bytes → List Bytes → Bool
mem k [] = false
mem k (x ∷ xs) = bytes_eq k x || mem k xs

pub mem-In : (k : Bytes) (xs : List Bytes) → mem k xs ≡ true → In k xs
unfolding mem
mem-In k [] h = cc
mem-In k (x ∷ xs) h = ground (arith, mem-In k xs, bytes_eq_sound k x)

pub In-mem : (k : Bytes) (xs : List Bytes) → In k xs → mem k xs ≡ true
unfolding mem
In-mem k [] h = elim h [ ]
In-mem k (x ∷ xs) h = ground (arith, In-mem k xs, bytes_eq_iff k x)

pub mem-append : (k : Bytes) (xs ys : List Bytes) → mem k (xs ++ ys) ≡ (mem k xs || mem k ys)
unfolding mem
mem-append k [] ys = refl
mem-append k (x ∷ xs) ys = ground (arith, mem-append k xs ys)

pub not-mem-nil : (k : Bytes) → mem k [] ≢ true
unfolding mem
not-mem-nil k = λ h. cc
