-- ===== src/Tests/Crowds.antt =====
-- A full store: as many quotes as it holds, under the texts of the numbers below its limit.
use mathlib.Core.Path.{subst}
use epeius.Prelude.{
  ℕ, zero, suc, ◌≤◌, String, ◌≡◌, refl, sym, ap, false, Option, none, some, [], ◌∷◌, arith,
  if◌then◌else◌, length, str_eq, str_eq_iff, is_empty, Bool-cases, inl, inr, ◌∙◌,
}
use epeius.Prelude.Int.{ℤ, pos}
use epeius.Prelude.Decimal.{nat_text, set_string, set_string-nat_text}
use epeius.Prelude.Dict.{Dict, Distinct, lookup, retain, keep_if}
use epeius.Store.{Store, StoredQuote, prune, save_quote, store_limit}
use epeius.Store.WellFormed.{IsWellFormed}
use epeius.Store.Eviction.{NonemptyKeys, NoneBefore, expiry_of}
use epeius.Store.Expiry.{is_live_quote, save_quote_evicts, stored_quote}
use epeius.Tests.Fixture.{quote_request, final}

abbrev quote : StoredQuote
quote = stored_quote quote_request final 1_000_000_000

crowd : ℕ → Dict StoredQuote
crowd zero = []
crowd (suc n) = (nat_text n, quote) ∷ crowd n

text_injective : (m n : ℕ) → nat_text m ≡ nat_text n → m ≡ n
text_injective m n e = cc (set_string-nat_text m, set_string-nat_text n, ap set_string e)

crowd_without : (n k : ℕ) → n ≤ k → lookup (nat_text k) (crowd n) ≡ none
unfolding lookup crowd
crowd_without zero k h = refl
crowd_without (suc n) k h = elim (Bool-cases (str_eq (nat_text n) (nat_text k))) [
  | inl same ↦
      absurd (omega (arith, text_injective n k ((str_eq_iff (nat_text n) (nat_text k)).0 same)))
  | inr differ ↦ rw differ (crowd_without n k (omega arith))
]

crowd-Distinct : (n : ℕ) → Distinct (crowd n)
unfolding crowd
crowd-Distinct zero = tt
crowd-Distinct (suc n) = (crowd_without n n (omega arith), crowd-Distinct n)

length-crowd : (n : ℕ) → length (crowd n) ≡ n
unfolding crowd
length-crowd zero = refl
length-crowd (suc n) = ap suc (length-crowd n)

text_nonempty : (n : ℕ) → is_empty (nat_text n) ≡ false
unfolding set_string
text_nonempty n = elim (Bool-cases (is_empty (nat_text n))) [
  | inl empty ↦ absurd (
      no_number n
        (sym (set_string-nat_text n) ∙ ap set_string ((str_eq_iff (nat_text n) "").0 empty)))
  | inr named ↦ named
]
  where
    no_number : (k : ℕ) → ◌≡◌ {A = Option ℤ} (some (pos k)) none → ⊥
    no_number k e = cc

crowd-NonemptyKeys : (n : ℕ) → NonemptyKeys (λ (q : StoredQuote). q.expires) (crowd n)
unfolding crowd
crowd-NonemptyKeys zero = tt
crowd-NonemptyKeys (suc n) = (text_nonempty n, crowd-NonemptyKeys n)

crowd_live : (n : ℕ) → retain (is_live_quote 2_000_000_000) (crowd n) ≡ crowd n
unfolding retain crowd
crowd_live zero = refl
crowd_live (suc n) = ap (λ m. (nat_text n, quote) ∷ m) (crowd_live n)

abbrev full_store : Store
full_store = record { quotes = crowd 1024; preparations = [] }

prune-full_store : (prune 2_000_000_000 full_store).quotes ≡ crowd 1024
unfolding prune
prune-full_store = crowd_live 1024

full_store-IsWellFormed : IsWellFormed full_store
full_store-IsWellFormed = record {
  distinct_quotes = crowd-Distinct 1024;
  distinct_preparations = tt;
  bounded_quotes = omega (arith, length-crowd 1024);
  bounded_preparations = omega arith;
}

is_full : store_limit ≤ length (prune 2_000_000_000 full_store).quotes
is_full = omega (arith, ap length prune-full_store, length-crowd 1024)

is_named : NonemptyKeys (λ (q : StoredQuote). q.expires) (prune 2_000_000_000 full_store).quotes
is_named =
    subst (NonemptyKeys (λ (q : StoredQuote). q.expires)) (sym prune-full_store)
      (crowd-NonemptyKeys 1024)

save_quote_evicts_example :
    (victim : String) × (expiry : ℕ) × (expiry_of
        (λ (q : StoredQuote). q.expires)
        (lookup victim full_store.quotes)
      ≡ some expiry)
    × NoneBefore (λ (q : StoredQuote). q.expires) expiry (prune 2_000_000_000 full_store).quotes
    × ((id : String)
        → str_eq final.quote_id id ≡ false
        → lookup id (save_quote quote_request final 1_500_000_000 2_000_000_000 full_store).quotes
          ≡ (if str_eq victim id
              then none
              else keep_if (is_live_quote 2_000_000_000) (lookup id full_store.quotes)))
save_quote_evicts_example =
    save_quote_evicts quote_request final 1_500_000_000 2_000_000_000 full_store
      full_store-IsWellFormed is_full is_named
