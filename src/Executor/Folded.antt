-- ===== src/Executor/Folded.antt =====
-- `strings.EqualFold` of a text with itself.
use epeius.Prelude.{ℕ, String, ◌≡◌, refl, true, List, [], ◌∷◌, codes, arith}
use epeius.Executor.{equal_fold, fold_eq}

fold_eq_self : (xs : List ℕ) → fold_eq xs xs ≡ true
unfolding fold_eq
fold_eq_self [] = refl
fold_eq_self (x ∷ xs) = ground (arith, fold_eq_self xs)

pub equal_fold_self : (s : String) → equal_fold s s ≡ true
unfolding equal_fold
equal_fold_self s = fold_eq_self (codes s)
