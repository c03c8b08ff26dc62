-- ===== src/Prelude/Ordered.antt =====
-- Sorting by a number that no two elements share: every order of arrival gives one result.
use Prim.Native.Nat.{ℕ, suc, ◌≤◌}
use mathlib.Core.Path.{◌≡◌, refl, sym, ◌∙◌}
use mathlib.Core.Bool.{Bool}
use mathlib.Core.Logic.{◌≢◌, ∥∥₁_elim}
use mathlib.Core.List.{List, [], ◌∷◌, Permᴰ, Pairwise, Memᴰ, mem-cons_self}
use mathlib.Core.HLevel.{¬_prop, ⊥_prop}
use mathlib.Core.List.Permᴰ
use epeius.Prelude.Tests.{ltb}
use epeius.Prelude.Sort.{insert_sorted, sort_by}
use native.Mathlib.Omega.{arith}

module _ {ℓ} {A : Type ℓ} (key : A → ℕ) where
  abbrev pub by_key : A → A → Bool
  by_key a b = ltb (key a) (key b)

  abbrev pub Apart : A → A → Type 0
  Apart a b = key a ≢ key b

  -- The keys increase from `n` on.
  abbrev pub Ascending : ℕ → List A → Type 0
  Ascending n [] = Unit
  Ascending n (x ∷ xs) = (n ≤ key x) × Ascending (suc (key x)) xs

  insert_comm :
      (a b : A) (xs : List A)
      → Apart a b
      → insert_sorted by_key a (insert_sorted by_key b xs)
        ≡ insert_sorted by_key b (insert_sorted by_key a xs)
  unfolding insert_sorted
  insert_comm a b [] d = ground arith
  insert_comm a b (x ∷ xs) d = ground (arith, insert_comm a b xs d)

  Apart-comm : (a b : A) → Apart a b → Apart b a
  Apart-comm a b d e = d (sym e)

  Apart-prop : (a b : A) → IsProp (Apart a b)
  Apart-prop a b = ¬_prop

  -- A permutation of elements with keys apart does not change the sorted list.
  pub sort_by-Permᴰ :
      {xs ys : List A} → Permᴰ xs ys → Pairwise Apart xs → sort_by by_key xs ≡ sort_by by_key ys
  unfolding sort_by
  sort_by-Permᴰ Permᴰ.nil h = refl
  sort_by-Permᴰ (Permᴰ.cons e d) (Pairwise.cons h t) = rw (e, sort_by-Permᴰ d t)
  sort_by-Permᴰ (Permᴰ.swap {a = a} {b = b} {l = l} e f) (Pairwise.cons h t) =
      rw (sym e, sym f) (insert_comm a b (sort_by by_key l) (h b mem-cons_self))
  sort_by-Permᴰ (Permᴰ.trans d e) h =
      sort_by-Permᴰ d h ∙ sort_by-Permᴰ e (Permᴰ.pairwise Apart-prop Apart-comm d h)

  Ascending-le : (n : ℕ) (a : A) (xs : List A) → Ascending n xs → Memᴰ a xs → n ≤ key a
  Ascending-le n a [] s m = elim m [ ]
  Ascending-le n a (x ∷ xs) (l, s) (Memᴰ.head e) = rw e l
  Ascending-le n a (x ∷ xs) (l, s) (Memᴰ.tail m) =
      omega (arith, Ascending-le (suc (key x)) a xs s m)

  pub Ascending-Pairwise : (n : ℕ) (xs : List A) → Ascending n xs → Pairwise Apart xs
  Ascending-Pairwise n [] s = Pairwise.nil
  Ascending-Pairwise n (x ∷ xs) (l, s) =
      Pairwise.cons
        (λ a m e. ∥∥₁_elim m ⊥_prop (λ d. omega (arith, e, Ascending-le (suc (key x)) a xs s d)))
        (Ascending-Pairwise (suc (key x)) xs s)

  -- A list whose keys increase is sorted.
  pub sort_by-Ascending : (n : ℕ) (xs : List A) → Ascending n xs → sort_by by_key xs ≡ xs
  unfolding sort_by insert_sorted
  sort_by-Ascending n [] s = refl
  sort_by-Ascending n (x ∷ []) s = refl
  sort_by-Ascending n (x ∷ y ∷ xs) (l, s) =
      rw (sort_by-Ascending (suc (key x)) (y ∷ xs) s) (ground (arith, s))
