-- ===== src/Common/Unique.antt =====
-- A table with a unique column: a row is inserted at the end unless its key is taken.
use mathlib.Core.Path.{◌≡◌, refl}
use mathlib.Core.Logic.{inl, inr}
use mathlib.Core.Bool.{Bool, true, false}
use mathlib.Core.List.{List, [], ◌∷◌, ◌++◌}
use Prim.Native.String.{String}
use native.Mathlib.Omega.{arith}
use text.Mathlib.Text.{◌==◌ as str_eq}
use text.Mathlib.TextEquality.{eq_iff}
use text.Mathlib.TextPositions.{eq_refl}
use cloud_mesh.Common.Tests.{if◌then◌else◌, Bool-cases}

pub other_way : (a b : String) → str_eq a b ≡ false → str_eq b a ≡ false
other_way a b h = ground (arith, eq_iff a b, eq_iff b a)

module _ {A : Type 0} (key : A → String) where
  abbrev pub has_key : String → List A → Bool
  has_key k [] = false
  has_key k (r ∷ rs) = if str_eq (key r) k then true else has_key k rs

  -- No two rows have a key in common.
  abbrev pub IsDistinct : List A → Type 0
  IsDistinct [] = Unit {0}
  IsDistinct (r ∷ rs) = (has_key (key r) rs ≡ false) × IsDistinct rs

  has_key-append :
      (k : String) (rs : List A) (r : A)
      → has_key k rs ≡ false
      → str_eq (key r) k ≡ false
      → has_key k (rs ++ r ∷ []) ≡ false
  has_key-append k [] r h other = rw other refl
  has_key-append k (q ∷ rs) r h other = elim (Bool-cases (str_eq (key q) k)) [
    | inl same ↦ let e : true ≡ false = rw same at h in cc
    | inr differs ↦
        let h' : has_key k rs ≡ false = rw differs at h in
        rw differs (has_key-append k rs r h' other)
  ]

  pub append-IsDistinct :
      (rs : List A) (r : A) → IsDistinct rs → has_key (key r) rs ≡ false → IsDistinct (rs ++ r ∷ [])
  append-IsDistinct [] r d h = (refl, tt)
  append-IsDistinct (q ∷ rs) r (new, d) h = elim (Bool-cases (str_eq (key q) (key r))) [
    | inl same ↦ let e : true ≡ false = rw same at h in cc
    | inr differs ↦
        let h' : has_key (key r) rs ≡ false = rw differs at h in
        (
          has_key-append (key q) rs r new (other_way (key q) (key r) differs),
          append-IsDistinct rs r d h',
        )
  ]

  pub has_key-in-append :
      (k : String) (rs qs : List A) → has_key k rs ≡ true → has_key k (rs ++ qs) ≡ true
  has_key-in-append k [] qs h = cc
  has_key-in-append k (r ∷ rs) qs h = elim (Bool-cases (str_eq (key r) k)) [
    | inl same ↦ rw same refl
    | inr differs ↦
        let h' : has_key k rs ≡ true = rw differs at h in rw differs (has_key-in-append k rs qs h')
  ]

  pub has_key-last : (rs : List A) (r : A) → has_key (key r) (rs ++ r ∷ []) ≡ true
  has_key-last [] r = rw (eq_refl (key r)) refl
  has_key-last (q ∷ rs) r = elim (Bool-cases (str_eq (key q) (key r))) [
    | inl same ↦ rw same refl
    | inr differs ↦ rw differs (has_key-last rs r)
  ]
