-- ===== src/Options/Pools.antt =====
-- uniswapv4/config.go, `ParseOptions`: the pools that it lets through.
use mathlib.Core.Path.{subst}
use epeius.Prelude.{
  ℕ, ◌<◌, ◌≤◌, String, ◌≡◌, refl, sym, ap, Bool, true, false, not, ◌&&◌, none, some, List, [], ◌∷◌,
  ◌==◌, ==_iff, ◌≢◌, ◌∙◌, ◌||◌, str_eq_refl, arith, split_and, if◌then◌else◌,
}
use epeius.Prelude.Int.{ℤ, pos, negsuc, eq_ℤ}
use epeius.Prelude.Partial.{none-neq-some, some_injective, true-neq-false, ◌>>=◌, >>=-then}
use epeius.Config.{Values, Value, Fields, Pool}
use epeius.Evm.{Evm}
use epeius.Options.{field_count, field_of, text_of, integer_of}
use epeius.Options.UniswapV4.{
  same_pool, guard, table_of, uint32_of, int32_of, pool_seen, is_pool, pool_of, read_pool,
  checked_pool, read_fields, read_pools,
}

pub guarded : {u : Unit {0}} (b : Bool) → guard b ≡ some u → b ≡ true
unfolding guard
guarded true h = refl
guarded false h = cc

kept :
    {A : Type 0} {a : A} {b : A} (c : Bool)
    → (if c then some a else none) ≡ some b
    → (c ≡ true) × (a ≡ b)
kept true h = (refl, some_injective h)
kept false h = cc

pub denied : (b : Bool) → not b ≡ true → b ≡ false
denied b h = ground arith

-- The ranges of a pool that is let through, with its numbers.
InRanges : ℕ → ℕ → ℤ → ℤ → ℕ → Type 0
InRanges a b fee spacing hooks =
    (0 < a)
    × (a < b)
    × ((pips : ℕ) × (fee ≡ pos pips) × (pips ≤ 1000000) × (uint32_of fee ≡ pips))
    × ((ticks : ℕ) × (0 < ticks)
        × (ticks ≤ 32767)
        × (spacing ≡ pos ticks)
        × (int32_of spacing ≡ pos ticks))
    × (hooks ≡ 0)

is_pool_facts :
    (a b pips ticks hooks : ℕ)
    → is_pool a b (pos pips) (pos ticks) hooks ≡ true
    → (0 < a) × (a < b) × (pips ≤ 1000000) × (0 < ticks) × (ticks ≤ 32767) × (hooks ≡ 0)
unfolding is_pool
is_pool_facts a b pips ticks hooks h = ground arith

small_int32 : (n : ℕ) → n ≤ 32767 → int32_of (pos n) ≡ pos n
unfolding int32_of uint32_of
small_int32 n h = ground arith

is_pool-InRanges :
    (a b : ℕ) (fee spacing : ℤ) (hooks : ℕ)
    → is_pool a b fee spacing hooks ≡ true
    → InRanges a b fee spacing hooks
unfolding is_pool InRanges uint32_of int32_of
is_pool-InRanges a b (pos pips) (pos ticks) hooks h =
    let (above, below, pips_le, some_ticks, ticks_le, no_hooks) =
      is_pool_facts a b pips ticks hooks h in
    (
      above,
      below,
      (pips, refl, pips_le, omega arith),
      (ticks, some_ticks, ticks_le, refl, small_int32 ticks ticks_le),
      no_hooks,
    )
is_pool-InRanges a b (pos pips) (negsuc ticks) hooks h = absurd (ground arith)
is_pool-InRanges a b (negsuc pips) spacing hooks h = absurd (ground arith)

-- The pool is none of those.
abbrev pub IsNew : Pool → List Pool → Type 0
IsNew pool [] = Unit
IsNew pool (other ∷ pools) = (pool ≢ other) × IsNew pool pools

eq_ℤ_self : (z : ℤ) → eq_ℤ z z ≡ true
eq_ℤ_self z = ground arith

all_true :
    (a b c d e : Bool)
    → a ≡ true
    → b ≡ true
    → c ≡ true
    → d ≡ true
    → e ≡ true
    → a && b && c && d && e ≡ true
all_true a b c d e h1 h2 h3 h4 h5 = ground arith

same_pool_self : (pool : Pool) → same_pool pool pool ≡ true
unfolding same_pool
same_pool_self pool =
    all_true _ _ _ _ _ (str_eq_refl pool.currency0) (str_eq_refl pool.currency1)
      ((==_iff pool.fee_pips pool.fee_pips).1 refl) (eq_ℤ_self pool.tick_spacing)
      (str_eq_refl pool.hooks)

neither : (a b : Bool) → (a || b) ≡ false → (a ≡ false) × (b ≡ false)
neither false b h = (refl, h)
neither true b h = absurd (true-neq-false h)

pool_seen-IsNew :
    (pool : Pool) (pools : List Pool) → pool_seen pool pools ≡ false → IsNew pool pools
unfolding pool_seen
pool_seen-IsNew pool [] h = tt
pool_seen-IsNew pool (other ∷ pools) h =
    let (differs, rest) = neither (same_pool pool other) _ h in
    (
      λ same. true-neq-false (
          sym (subst (λ (p : Pool). same_pool pool p ≡ true) same (same_pool_self pool)) ∙ differs),
      pool_seen-IsNew pool pools rest,
    )

module _ (evm : Evm) (hash_hex : ℕ → String) where
  -- The pool is the one that the table states: two ordered currencies without hooks, with a fee and a
  -- tick spacing that are in their ranges and are the stated numbers.
  pub record IsAdmissible (fields : Fields) (pool : Pool) : Type 0 where
    pub currency0 : String
    pub currency1 : String
    pub hooks : String
    pub read0 : text_of (field_of "currency0" fields) ≡ some currency0
    pub read1 : text_of (field_of "currency1" fields) ≡ some currency1
    pub hooks_read : text_of (field_of "hooks" fields) ≡ some hooks
    pub is_nonzero : 0 < evm.hex_to_address currency0
    pub ordered : evm.hex_to_address currency0 < evm.hex_to_address currency1
    pub printed0 : pool.currency0 ≡ evm.address_hex (evm.hex_to_address currency0)
    pub printed1 : pool.currency1 ≡ evm.address_hex (evm.hex_to_address currency1)
    pub fee_read : (field_of "fee_pips" fields >>= integer_of) ≡ some (pos pool.fee_pips)
    pub fee : pool.fee_pips ≤ 1000000
    pub spacing_read : (field_of "tick_spacing" fields >>= integer_of) ≡ some pool.tick_spacing
    pub ticks : ℕ
    pub spacing : pool.tick_spacing ≡ pos ticks
    pub some_ticks : 0 < ticks
    pub ticks_le : ticks ≤ 32767
    pub zero_hooks : evm.hex_to_address hooks ≡ 0
    pub no_hooks : pool.hooks ≡ evm.address_hex 0

  -- The value is a table that states this pool, which is none of those seen before.
  pub record Reads (seen : List Pool) (value : Value) (pool : Pool) : Type 0 where
    pub fields : Fields
    pub is_table : value ≡ Value.table fields
    pub admissible : IsAdmissible fields pool
    pub is_new : IsNew pool seen

  -- Each value is read as its pool, in order.
  abbrev pub ArePools : List Pool → Values → List Pool → Type 0
  ArePools seen Values.nil [] = Unit
  ArePools seen Values.nil (pool ∷ pools) = ⊥
  ArePools seen (Values.cons value values) [] = ⊥
  ArePools seen (Values.cons value values) (pool ∷ pools) =
      Reads seen value pool × ArePools (pool ∷ seen) values pools

  checked_pool-InRanges :
      (seen : List Pool) (a b : ℕ) (fee spacing : ℤ) (hooks : ℕ) (pool : Pool)
      → checked_pool evm hash_hex seen a b fee spacing hooks ≡ some pool
      → InRanges a b fee spacing hooks
        × (pool_of evm hash_hex a b fee spacing hooks ≡ pool)
        × IsNew pool seen
  unfolding checked_pool
  checked_pool-InRanges seen a b fee spacing hooks pool h =
      let (t, e) = kept _ h in
      let (ranges, fresh) = split_and _ _ t in
      (
        is_pool-InRanges a b fee spacing hooks ranges,
        e,
        subst (λ p. IsNew p seen) e (pool_seen-IsNew _ seen (denied _ fresh)),
      )

  module _ (fields : Fields) (a b hooks : String) (fee spacing : ℤ)
      (e1 : text_of (field_of "currency0" fields) ≡ some a)
      (e2 : text_of (field_of "currency1" fields) ≡ some b)
      (e3 : text_of (field_of "hooks" fields) ≡ some hooks)
      (e4 : (field_of "fee_pips" fields >>= integer_of) ≡ some fee)
      (e5 : (field_of "tick_spacing" fields >>= integer_of) ≡ some spacing) where
    pool_of-IsAdmissible :
        InRanges
          (evm.hex_to_address a)
          (evm.hex_to_address b)
          fee
          spacing
          (evm.hex_to_address hooks)
        → IsAdmissible fields (
            pool_of evm hash_hex
              (evm.hex_to_address a)
              (evm.hex_to_address b)
              fee
              spacing
              (evm.hex_to_address hooks))
    unfolding pool_of InRanges
    pool_of-IsAdmissible
          (
            above,
            below,
            (pips, of_fee, pips_le, wraps),
            (ticks, some_ticks, ticks_le, of_ticks, of_spacing),
            h,
          ) =
        record {
          currency0 = a;
          currency1 = b;
          hooks = hooks;
          read0 = e1;
          read1 = e2;
          hooks_read = e3;
          is_nonzero = above;
          ordered = below;
          printed0 = refl;
          printed1 = refl;
          fee_read = e4 ∙ ap some (of_fee ∙ ap pos (sym wraps));
          fee = subst (λ n. n ≤ 1000000) (sym wraps) pips_le;
          spacing_read = e5 ∙ ap some (of_ticks ∙ sym of_spacing);
          ticks = ticks;
          spacing = of_spacing;
          some_ticks = some_ticks;
          ticks_le = ticks_le;
          zero_hooks = h;
          no_hooks = ap evm.address_hex h;
        }

  read_fields-IsAdmissible :
      (seen : List Pool) (fields : Fields) (pool : Pool)
      → read_fields evm hash_hex seen fields ≡ some pool
      → IsAdmissible fields pool × IsNew pool seen
  unfolding read_fields
  read_fields-IsAdmissible seen fields pool h =
      >>=-then (guard (field_count fields == 5)) h (λ five e0 h0.
        >>=-then (text_of (field_of "currency0" fields)) h0 (λ a e1 h1.
          >>=-then (text_of (field_of "currency1" fields)) h1 (λ b e2 h2.
            >>=-then (text_of (field_of "hooks" fields)) h2 (λ hooks e3 h3.
              >>=-then (field_of "fee_pips" fields >>= integer_of) h3 (λ fee e4 h4.
                >>=-then (field_of "tick_spacing" fields >>= integer_of) h4 (λ spacing e5 h5.
                  >>=-then
                    (guard
                      (evm.is_hex_address a && evm.is_hex_address b && evm.is_hex_address hooks))
                    h5
                    (λ hex e6 h6.
                      let (ranges, is, fresh) =
                        checked_pool-InRanges seen (evm.hex_to_address a) (evm.hex_to_address b) fee
                          spacing (evm.hex_to_address hooks) pool h6 in
                      (
                        subst (IsAdmissible fields) is (
                            pool_of-IsAdmissible fields a b hooks fee spacing e1 e2 e3 e4 e5
                              ranges),
                        fresh,
                      ))))))))

  table_of-eq :
      (value : Value) (fields : Fields) → table_of value ≡ some fields → value ≡ Value.table fields
  unfolding table_of
  table_of-eq (Value.table fields) other h = ap Value.table (some_injective h)
  table_of-eq (Value.text s) fields h = absurd (none-neq-some h)
  table_of-eq (Value.integer n) fields h = absurd (none-neq-some h)
  table_of-eq (Value.array values) fields h = absurd (none-neq-some h)
  table_of-eq Value.other fields h = absurd (none-neq-some h)

  read_pool-Reads :
      (seen : List Pool) (value : Value) (pool : Pool)
      → read_pool evm hash_hex seen value ≡ some pool
      → Reads seen value pool
  unfolding read_pool
  read_pool-Reads seen value pool h = >>=-then (table_of value) h (λ fields e rest.
      let (admissible, fresh) = read_fields-IsAdmissible seen fields pool rest in
      record {
        fields = fields;
        is_table = table_of-eq value fields e;
        admissible = admissible;
        is_new = fresh;
      })

  pub read_pools-ArePools :
      (seen : List Pool) (values : Values) (pools : List Pool)
      → read_pools evm hash_hex seen values ≡ some pools
      → ArePools seen values pools
  unfolding read_pools
  read_pools-ArePools seen Values.nil pools h =
      subst (λ ps. ArePools seen Values.nil ps) (some_injective h) tt
  read_pools-ArePools seen (Values.cons value values) pools h =
      >>=-then (read_pool evm hash_hex seen value) h (λ pool e1 h1.
        >>=-then (read_pools evm hash_hex (pool ∷ seen) values) h1 (λ rest e2 h2.
          let here : ArePools seen (Values.cons value values) (pool ∷ rest) = (
            read_pool-Reads seen value pool e1,
            read_pools-ArePools (pool ∷ seen) values rest e2,
          ) in
          subst (ArePools seen (Values.cons value values)) (some_injective h2) here))
