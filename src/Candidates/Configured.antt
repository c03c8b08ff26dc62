-- ===== src/Candidates/Configured.antt =====
-- v3.go, `newCandidates`: the tokens and the deployments of an iterator, against the configuration.
use mathlib.Core.List.{Perm}
use epeius.Prelude.{
  ℕ, String, Bool, true, false, ◌≡◌, ◌≢◌, ◌⊎◌, inl, inr, refl, sym, ◌∙◌, Option, none, some, List,
  [], ◌∷◌, map, ltb, ◌==◌, ==_iff, Bool-cases,
}
use epeius.Prelude.Partial.{true-neq-false}
use epeius.Prelude.Sort.{insert_sorted, sort_by, sort_by-perm, text_less}
use epeius.Config
use epeius.Config.{Token, Deployment}
use epeius.Evm.{Evm}
use epeius.Candidates.{CandidateDeployment, other_tokens, candidate_deployment, new_candidates}

-- Of two neighbours the first is less, or at least the second is not.
module _ {ℓ} {A : Type ℓ} (less : A → A → Bool) where
  abbrev pub Before : A → A → Type 0
  Before x y = (less x y ≡ true) ⊎ (less y x ≡ false)

  abbrev pub StartsAfter : A → List A → Type 0
  StartsAfter x [] = Unit
  StartsAfter x (y ∷ ys) = Before x y

  abbrev pub InOrder : List A → Type 0
  InOrder [] = Unit
  InOrder (x ∷ xs) = StartsAfter x xs × InOrder xs

  insert_sorted-StartsAfter :
      (x a : A) (xs : List A)
      → StartsAfter x xs
      → less x a ≡ true
      → StartsAfter x (insert_sorted less a xs)
  unfolding insert_sorted
  insert_sorted-StartsAfter x a [] h l = inl l
  insert_sorted-StartsAfter x a (y ∷ ys) h l = elim (Bool-cases (less y a)) [
    | inl t ↦ rw t h
    | inr f ↦ rw f (inl l)
  ]

  insert_sorted-InOrder : (a : A) (xs : List A) → InOrder xs → InOrder (insert_sorted less a xs)
  unfolding insert_sorted
  insert_sorted-InOrder a [] h = (tt, tt)
  insert_sorted-InOrder a (x ∷ xs) (s, h) = elim (Bool-cases (less x a)) [
    | inl t ↦ rw t (insert_sorted-StartsAfter x a xs s t, insert_sorted-InOrder a xs h)
    | inr f ↦ rw f (inr f, (s, h))
  ]

  pub sort_by-InOrder : (xs : List A) → InOrder (sort_by less xs)
  unfolding sort_by
  sort_by-InOrder [] = tt
  sort_by-InOrder (x ∷ xs) = insert_sorted-InOrder x (sort_by less xs) (sort_by-InOrder xs)

  -- The list is the other one, in order.
  pub record IsSorting (sorted xs : List A) : Type ℓ where
    pub same_elements : Perm sorted xs
    pub in_order : InOrder sorted

  pub sort_by-IsSorting : (xs : List A) → IsSorting (sort_by less xs) xs
  sort_by-IsSorting xs = record {
    same_elements = sort_by-perm less xs;
    in_order = sort_by-InOrder xs;
  }

-- The addresses of the tokens but those of the two ends.
pub data Others (evm : Evm) (a b : ℕ) : List Token → List ℕ → Type 0 where
  nil : Others evm a b [] []
  skips :
      {token : Token} {tokens : List Token} {ts : List ℕ}
      → (evm.hex_to_address token.address ≡ a) ⊎ (evm.hex_to_address token.address ≡ b)
      → Others evm a b tokens ts
      → Others evm a b (token ∷ tokens) ts
  keeps :
      {token : Token} {tokens : List Token} {ts : List ℕ}
      → evm.hex_to_address token.address ≢ a
      → evm.hex_to_address token.address ≢ b
      → Others evm a b tokens ts
      → Others evm a b (token ∷ tokens) (evm.hex_to_address token.address ∷ ts)

module _ (evm : Evm) (a b : ℕ) where
  same : (m n : ℕ) → m == n ≡ true → m ≡ n
  same m n h = (==_iff m n).0 h

  differ : (m n : ℕ) → m == n ≡ false → m ≢ n
  differ m n h e = true-neq-false (sym ((==_iff m n).1 e) ∙ h)

  other_tokens-Others : (tokens : List Token) → Others evm a b tokens (other_tokens evm a b tokens)
  unfolding other_tokens
  other_tokens-Others [] = Others.nil
  other_tokens-Others (token ∷ tokens) =
      let t = evm.hex_to_address token.address in
      let rest = other_tokens-Others tokens in
      elim (Bool-cases (t == a)) [
        | inl is_a ↦ rw is_a (Others.skips (inl (same t a is_a)) rest)
        | inr not_a ↦ rw not_a (elim (Bool-cases (t == b)) [
          | inl is_b ↦ rw is_b (Others.skips (inr (same t b is_b)) rest)
          | inr not_b ↦ rw not_b (Others.keeps (differ t a not_a) (differ t b not_b) rest)
        ])
      ]

-- The fees are the configured ones, in order.
abbrev pub HasFees : Option (List ℕ) → List ℕ → Type 0
HasFees none fees = fees ≡ []
HasFees (some configured) fees = IsSorting ltb fees configured

-- The deployments have the IDs of these entries, and their fees.
abbrev pub AreOf : List (String × Deployment) → List CandidateDeployment → Type 0
AreOf [] [] = Unit
AreOf [] (d ∷ ds) = ⊥
AreOf (entry ∷ entries) [] = ⊥
AreOf (entry ∷ entries) (d ∷ ds) = (d.id ≡ entry.0) × HasFees entry.1.fees d.fees × AreOf entries ds

candidate_deployment-HasFees :
    (o : Option (List ℕ)) (entry : String × Deployment)
    → entry.1.fees ≡ o
    → HasFees o (candidate_deployment entry).fees
unfolding candidate_deployment sort_by
candidate_deployment-HasFees none entry e = rw e refl
candidate_deployment-HasFees (some fees) entry e = rw e (sort_by-IsSorting ltb fees)

map-AreOf :
    (entries : List (String × Deployment)) → AreOf entries (map candidate_deployment entries)
map-AreOf [] = tt
map-AreOf (entry ∷ entries) = (
  unfold candidate_deployment in refl,
  candidate_deployment-HasFees entry.1.fees entry refl,
  map-AreOf entries,
)

-- What an iterator searches: every configured token but the two ends, in the order of the printed
-- addresses, and every configured deployment in the order of the IDs, with its fees in order.
pub record Searches (evm : Evm) (chain : Config.Chain) (a b : ℕ) (tokens : List ℕ)
    (deployments : List CandidateDeployment) : Type 0 where
  pub others : List ℕ
  pub are_others : Others evm a b chain.tokens others
  pub by_address :
      IsSorting (λ m n. text_less (evm.address_hex m) (evm.address_hex n)) tokens others
  pub entries : List (String × Deployment)
  pub by_id : IsSorting (λ x y. text_less x.0 y.0) entries chain.deployments
  pub are_of : AreOf entries deployments

pub new_candidates-Searches :
    (evm : Evm) (chain : Config.Chain) (a b : ℕ)
    → Searches evm chain a b
        (new_candidates evm chain a b).intermediates
        (new_candidates evm chain a b).deployments
unfolding new_candidates
new_candidates-Searches evm chain a b = record {
  others = other_tokens evm a b chain.tokens;
  are_others = other_tokens-Others evm a b chain.tokens;
  by_address = sort_by-IsSorting _ (other_tokens evm a b chain.tokens);
  entries = sort_by (λ x y. text_less x.0 y.0) chain.deployments;
  by_id = sort_by-IsSorting _ chain.deployments;
  are_of = map-AreOf (sort_by (λ x y. text_less x.0 y.0) chain.deployments);
}
