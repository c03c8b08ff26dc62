-- ===== src/Balancer/Verified.antt =====
-- balancer_v2.go: what a pool is that was verified, and what `Verify` of the quoter settles.
use mathlib.Core.Path.{subst}
use epeius.Prelude.{
  ℕ, zero, suc, ◌≤◌, String, ◌≡◌, ◌≢◌, refl, sym, ap, ◌∙◌, Bool, true, false, not, ◌&&◌, ◌||◌,
  Option, none, some, List, [], ◌∷◌, leb, ◌==◌, ==_iff, length, str_eq, str_eq_iff, Bool-cases,
  split_and, inl, inr, arith, if◌then◌else◌,
}
use epeius.Prelude.Dict.{Dict, lookup, insert, erase, lookup-insert, lookup-erase}
use epeius.Evm.{Evm, Bytes, Read, Reader}
use epeius.Engine.{Admission, admitted, refused}
use epeius.Options.{id_seen}
use epeius.Verify.{is_code}
use epeius.Balancer.{
  BalancerCalls, pool_address, is_listed, are_distinct, values_of, usable_tokens, pool_tokens,
  registered_pool, is_value, is_there, verify_registered, verify_pool,
}
use epeius.Balancer.Quoter.{
  BalancerQuoter, has_error, verify_pools, some_valid, verify_with, verify,
}

-- No token is zero and none is there twice, or among the ones before.
abbrev pub Distinct : List ℕ → List ℕ → Type 0
Distinct seen [] = Unit
Distinct seen (token ∷ tokens) =
    (token ≢ 0) × (is_listed token seen ≡ false) × Distinct (token ∷ seen) tokens

are_distinct-Distinct :
    (tokens seen : List ℕ) → are_distinct seen tokens ≡ true → Distinct seen tokens
unfolding are_distinct
are_distinct-Distinct [] seen h = tt
are_distinct-Distinct (token ∷ tokens) seen h =
    elim (Bool-cases (token == 0 || is_listed token seen)) [
      | inl t ↦ absurd (false_true (rw t at h))
      | inr f ↦ (
        λ e. zero_ne token e (or_left _ _ f),
        or_right _ _ f,
        are_distinct-Distinct tokens (token ∷ seen) (rw f at h),
      )
    ]
  where
    false_true : false ≡ true → ⊥
    false_true e = cc

    or_left : (a b : Bool) → (a || b) ≡ false → a ≡ false
    or_left a b e = ground arith

    or_right : (a b : Bool) → (a || b) ≡ false → b ≡ false
    or_right a b e = ground arith

    zero_ne : (n : ℕ) → n ≡ 0 → (n == 0) ≡ false → ⊥
    zero_ne n e f = ground arith

module _ (c : BalancerCalls) (reader : Reader) (vault : ℕ) (pool_id hash : ℕ) where
  -- The Vault knows the pool, whose address is in the ID; the pool has code and knows its ID, and its
  -- tokens are distinct.
  pub record IsPool (code : ℕ → ℕ → Read Bytes) : Type 0 where
    pub specialization : ℕ
    pub known :
        values_of c.get_pool (reader.call vault (c.get_pool_call pool_id) hash)
        ≡ some (pool_address pool_id, specialization)
    pub is_specialization : specialization ≤ 2
    pub nonzero : pool_address pool_id ≢ 0
    pub has_code : is_code (code (pool_address pool_id) hash) ≡ true
    pub knows_id :
        values_of c.get_pool_id (reader.call (pool_address pool_id) c.get_pool_id_call hash)
        ≡ some pool_id
    pub tokens : List ℕ
    pub tokens_read : pool_tokens c reader vault pool_id hash ≡ some tokens
    pub distinct : Distinct [] tokens

  usable_tokens-Distinct :
      (o : Option (List ℕ × List ℕ)) (tokens : List ℕ)
      → usable_tokens o ≡ some tokens
      → Distinct [] tokens
  unfolding usable_tokens
  usable_tokens-Distinct none tokens h = cc
  usable_tokens-Distinct (some (read, balances)) tokens h =
      elim (Bool-cases
        (not (length read == 0) && length read == length balances && are_distinct [] read)) [
          | inl t ↦ by_value (rw t at h) (are_distinct-Distinct read [] (split_and _ _ t).1)
          | inr f ↦ absurd (none_some (rw f at h))
        ]
    where
      by_value : some read ≡ some tokens → Distinct [] read → Distinct [] tokens
      by_value e d = subst (Distinct []) (some_injective e) d
        where
          some_injective : some read ≡ some tokens → read ≡ tokens
          some_injective e = cc

      none_some : ◌≡◌ {A = Option (List ℕ)} none (some tokens) → ⊥
      none_some e = cc

  registered_pool-eq :
      (o : Option (ℕ × ℕ)) (pool : ℕ)
      → registered_pool pool_id o ≡ some pool
      → (specialization : ℕ) × (o ≡ some (pool_address pool_id, specialization))
        × (specialization ≤ 2)
        × (pool_address pool_id ≢ 0)
        × (pool ≡ pool_address pool_id)
  unfolding registered_pool
  registered_pool-eq none pool h = cc
  registered_pool-eq (some (found, specialization)) pool h =
      elim (Bool-cases
        (leb specialization 2 && not (found == 0) && found == pool_address pool_id)) [
          | inl t ↦
              let (two, same) = split_and _ _ t in
              let (low, positive) = split_and _ _ two in
              let e = (==_iff found (pool_address pool_id)).0 same in
              (
                specialization,
                ap (λ n. some (n, specialization)) e,
                small specialization low,
                λ z. not_zero found (e ∙ z) positive,
                is_found (rw t at h) ∙ e,
              )
          | inr f ↦ absurd (none_some (rw f at h))
        ]
    where
      none_some : ◌≡◌ {A = Option ℕ} none (some pool) → ⊥
      none_some e = cc

      is_found : some found ≡ some pool → pool ≡ found
      is_found e = cc

      small : (n : ℕ) → leb n 2 ≡ true → n ≤ 2
      small n h = ground arith

      not_zero : (n : ℕ) → n ≡ 0 → not (n == 0) ≡ true → ⊥
      not_zero n e h = ground arith

  is_value-eq : (o : Option ℕ) (n : ℕ) → is_value o n ≡ true → o ≡ some n
  unfolding is_value
  is_value-eq none n h = cc
  is_value-eq (some m) n h = ap some ((==_iff m n).0 h)

  is_there-some : (o : Option (List ℕ)) → is_there o ≡ true → (a : List ℕ) × (o ≡ some a)
  unfolding is_there
  is_there-some none h = cc
  is_there-some (some a) h = (a, refl)

  verify_registered-IsPool :
      (code : ℕ → ℕ → Read Bytes) (o : Option ℕ)
      → registered_pool pool_id
          (values_of c.get_pool (reader.call vault (c.get_pool_call pool_id) hash))
        ≡ o
      → verify_registered c reader code vault pool_id hash o ≡ true
      → IsPool code
  unfolding verify_registered pool_tokens
  verify_registered-IsPool code none e h = cc
  verify_registered-IsPool code (some pool) e h =
      let (specialization, known, low, nonzero, same) = registered_pool-eq _ pool e in
      let (two, has_tokens) = split_and _ _ h in
      let (has_code, knows) = split_and _ _ two in
      let (tokens, tokens_read) = is_there-some _ has_tokens in
      record {
        specialization = specialization;
        known = known;
        is_specialization = low;
        nonzero = nonzero;
        has_code = subst (λ n. is_code (code n hash) ≡ true) same has_code;
        knows_id =
            subst
              (λ n. values_of c.get_pool_id (reader.call n c.get_pool_id_call hash) ≡ some pool_id)
              same (is_value-eq _ pool_id knows);
        tokens = tokens;
        tokens_read = tokens_read;
        distinct = usable_tokens-Distinct _ tokens tokens_read;
      }

  pub verify_pool-IsPool :
      (code : ℕ → ℕ → Read Bytes)
      → verify_pool c reader code vault pool_id hash ≡ true
      → IsPool code
  unfolding verify_pool
  verify_pool-IsPool code h = verify_registered-IsPool code _ refl h

module _ (c : BalancerCalls) (evm : Evm) (q : BalancerQuoter) (code : ℕ → ℕ → Read Bytes)
    (hash : ℕ) where
  -- The pool is what the Vault says it is.
  abbrev pub is_valid : String → Bool
  is_valid pool =
      verify_pool c q.reader code (evm.hex_to_address q.vault) (evm.hex_to_hash pool) hash

  pub any_valid : List String → Bool
  any_valid [] = false
  any_valid (pool ∷ pools) = is_valid pool || any_valid pools

  has_error-step :
      (p pool : String) (e : Dict Bool) (fine : Bool)
      → has_error (lookup p (if fine then erase pool e else insert pool true e))
        ≡ (if str_eq pool p then not fine else has_error (lookup p e))
  unfolding has_error
  has_error-step p pool e true = ap has_error (lookup-erase pool p e) ∙ by_test (str_eq pool p)
    where
      by_test :
          (b : Bool)
          → has_error (if b then none else lookup p e)
            ≡ (if b then false else has_error (lookup p e))
      by_test true = refl
      by_test false = refl
  has_error-step p pool e false =
      ap has_error (lookup-insert pool p true e) ∙ by_test (str_eq pool p)
    where
      by_test :
          (b : Bool)
          → has_error (if b then some true else lookup p e)
            ≡ (if b then true else has_error (lookup p e))
      by_test true = refl
      by_test false = refl

  verify_pools-has_error :
      (p : String) (pools : List String) (n : ℕ) (e : Dict Bool)
      → has_error (lookup p (verify_pools c evm q code hash pools n e).1)
        ≡ (if id_seen p pools then not (is_valid p) else has_error (lookup p e))
  unfolding verify_pools id_seen
  verify_pools-has_error p [] n e = refl
  verify_pools-has_error p (pool ∷ pools) n e =
      verify_pools-has_error p pools _ _
      ∙ ap (λ b. if id_seen p pools then not (is_valid p) else b)
          (has_error-step p pool e (is_valid pool))
      ∙ elim (Bool-cases (str_eq p pool)) [
        | inl t ↦ rw t (same ((str_eq_iff p pool).0 t) (id_seen p pools))
        | inr f ↦ rw f (rw (other f) refl)
      ]
    where
      same :
          p ≡ pool
          → (later : Bool)
          → (if later
              then not (is_valid p)
              else if str_eq pool p
              then not (is_valid pool)
              else has_error (lookup p e))
            ≡ not (is_valid p)
      same h true = refl
      same h false = rw ((str_eq_iff pool p).1 (sym h)) (ap (λ x. not (is_valid x)) (sym h))

      true_false : str_eq p pool ≡ true → str_eq p pool ≡ false → ⊥
      true_false g f = cc

      other : str_eq p pool ≡ false → str_eq pool p ≡ false
      other f = elim (Bool-cases (str_eq pool p)) [
        | inr g ↦ g
        | inl g ↦ absurd (true_false ((str_eq_iff p pool).1 (sym ((str_eq_iff pool p).0 g))) f)
      ]

  abbrev answer : Bool → Admission (Unit {0})
  answer b = if b then admitted tt else refused "Balancer V2 pool verification failed"

  enough : (n : ℕ) (a : Bool) → (not (suc n == 0) || a) ≡ (not (n == 0) || true)
  enough n a = ground arith

  verify_pools-count :
      (pools : List String) (n : ℕ) (e : Dict Bool)
      → (some_valid c evm q (verify_pools c evm q code hash pools n e)).0 ≡ (
          if not (n == 0) || any_valid pools
          then admitted tt
          else refused "Balancer V2 pool verification failed")
  unfolding verify_pools any_valid some_valid
  verify_pools-count [] zero e = refl
  verify_pools-count [] (suc n) e = ground arith
  verify_pools-count (pool ∷ pools) n e = elim (Bool-cases (is_valid pool)) [
    | inl t ↦ rw t (verify_pools-count pools (suc n) _ ∙ ap answer (enough n (any_valid pools)))
    | inr f ↦ rw f (verify_pools-count pools n _)
  ]

  -- What `Verify` settles of a pool, and its answer.
  abbrev pub Settles : Dict Bool → String → Admission (Unit {0}) × Dict Bool → Type 0
  Settles before pool result =
      (has_error (lookup pool result.1)
        ≡ (if id_seen pool q.pools then not (is_valid pool) else has_error (lookup pool before)))
      × (result.0 ≡ (
          if any_valid q.pools
          then admitted tt
          else refused "Balancer V2 pool verification failed"))

  some_valid-errors : (r : ℕ × Dict Bool) → (some_valid c evm q r).1 ≡ r.1
  unfolding some_valid
  some_valid-errors (zero, e) = refl
  some_valid-errors (suc n, e) = refl

  -- After `Verify` of a quoter whose reader has code and whose Vault has some: a pool of the quoter is
  -- marked as failed exactly where the chain does not confirm it, any other pool is marked as it was
  -- before, and the deployment is accepted exactly where some pool of it is confirmed.
  pub verify-Settles :
      q.reader.code ≡ some code
      → is_code (code (evm.hex_to_address q.vault) hash) ≡ true
      → (pool_errors : Dict Bool) (pool : String)
      → Settles pool_errors pool (verify c evm q hash pool_errors)
  unfolding verify verify_with
  verify-Settles has_code vault_code pool_errors pool =
      subst
        (λ (o : Option (ℕ → ℕ → Read Bytes)).
          Settles pool_errors pool (verify_with c evm q o hash pool_errors))
        (sym has_code)
        (rw vault_code (
          ap (λ (e : Dict Bool). has_error (lookup pool e))
                (some_valid-errors (verify_pools c evm q code hash q.pools 0 pool_errors))
              ∙ verify_pools-has_error pool q.pools 0 pool_errors,
          verify_pools-count q.pools 0 pool_errors,
        ))
