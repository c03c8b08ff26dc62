-- ===== src/Simulators/Anvil/Transfers.antt =====
-- anvil.go, `collect` and `delta`: the logs of a whole trace, and what an owner gains by them.
use mathlib.Core.List.{append_assoc, append-nil}
use epeius.Prelude.{
  ℕ, ◌+◌, String, ◌≡◌, ◌⊎◌, refl, sym, ap, ◌∙◌, Bool, true, false, Option, none, some, List, [],
  ◌∷◌, ◌++◌, ◌==◌, str_eq_iff, is_empty, if◌then◌else◌, Bool-cases, inl, inr, arith,
}
use epeius.Prelude.Int.{ℤ, pos, pos_part, neg_part, ◌-ℤ◌, int_laws}
use epeius.Simulators.Anvil.{
  Log, AnvilTrace, AnvilTraces, trace, no_more, and_then, collect, collect_all, transfer_of,
  add_transfer, add_logs,
}

-- The logs of a call and of the calls in it, in the order of the trace.
mutual
  pub events : AnvilTrace → List Log
  events (trace from to input error logs calls) = logs ++ all_events calls

  pub all_events : AnvilTraces → List Log
  all_events no_more = []
  all_events (and_then call calls) = events call ++ all_events calls

-- No call failed, at any depth.
mutual
  pub Succeeds : AnvilTrace → Type 0
  Succeeds (trace from to input error logs calls) = (error ≡ "") × AllSucceed calls

  pub AllSucceed : AnvilTraces → Type 0
  AllSucceed no_more = Unit
  AllSucceed (and_then call calls) = Succeeds call × AllSucceed calls

-- What `collect` has done: it has the logs of a trace in which every call succeeded, or it has stopped
-- at a call that failed.
abbrev Collected : List Log → List Log → Type 0 → Bool × List Log → Type 0
Collected before logs S r = ((r ≡ (true, before ++ logs)) × S) ⊎ ((r.0 ≡ false) × (S → ⊥))

within_call :
    (error : String) (before logs inner : List Log) (S : Type 0) (r : Bool × List Log)
    → Collected (before ++ logs) inner S r
    → Collected before
        (logs ++ inner)
        ((error ≡ "") × S)
        (if is_empty error then r else (false, before))
within_call error before logs inner S r h = elim (Bool-cases (is_empty error)) [
  | inr f ↦ rw f (inr (refl, λ s. cc ((str_eq_iff error "").1 s.0)))
  | inl t ↦ rw t (by_case ((str_eq_iff error "").0 t) h)
]
  where
    by_case :
        error ≡ ""
        → Collected (before ++ logs) inner S r
        → Collected before (logs ++ inner) ((error ≡ "") × S) r
    by_case fine (inl (e, s)) =
        inl (e ∙ ap (λ l. (true, l)) (append_assoc before logs inner), (fine, s))
    by_case fine (inr (e, refutes)) = inr (e, λ s. refutes s.1)

after_call :
    (before first second : List Log) (S T : Type 0) (r : Bool × List Log)
    (rest : List Log → Bool × List Log)
    → Collected before first S r
    → ((more : List Log) → Collected more second T (rest more))
    → Collected before (first ++ second) (S × T) (if r.0 then rest r.1 else (false, r.1))
after_call before first second S T (true, more) rest (inl (e, s)) h = by_case (h more)
  where
    same : more ≡ before ++ first
    same = ap (λ (p : Bool × List Log). p.1) e

    by_case :
        Collected more second T (rest more) → Collected before (first ++ second) (S × T) (rest more)
    by_case (inl (e', t)) = inl (
      e'
          ∙ ap (λ l. (true, l ++ second)) same
          ∙ ap (λ l. (true, l)) (append_assoc before first second),
      (s, t),
    )
    by_case (inr (e', refutes)) = inr (e', λ st. refutes st.1)
after_call before first second S T (false, more) rest (inl (e, s)) h =
    absurd (false_true (ap (λ (p : Bool × List Log). p.0) e))
  where
    false_true : false ≡ true → ⊥
    false_true q = cc
after_call before first second S T (true, more) rest (inr (e, refutes)) h = absurd (true_false e)
  where
    true_false : true ≡ false → ⊥
    true_false q = cc
after_call before first second S T (false, more) rest (inr (e, refutes)) h =
    inr (refl, λ st. refutes st.0)

mutual
  unfolding collect events Succeeds

  collect-Collected :
      (t : AnvilTrace) (before : List Log)
      → Collected before (events t) (Succeeds t) (collect t before)
  collect-Collected (trace from to input error logs calls) before =
      within_call error before logs (all_events calls) (AllSucceed calls) _
        (collect_all-Collected calls (before ++ logs))

  collect_all-Collected :
      (calls : AnvilTraces) (before : List Log)
      → Collected before (all_events calls) (AllSucceed calls) (collect_all calls before)
  collect_all-Collected no_more before =
      inl (ap (λ (l : List Log). (true, l)) (sym (append-nil before)), tt)
  collect_all-Collected (and_then call calls) before =
      after_call before (events call) (all_events calls) (Succeeds call) (AllSucceed calls)
        (collect call before) (λ more. collect_all calls more) (collect-Collected call before)
        (λ more. collect_all-Collected calls more)

pub collect_lem :
    (t : AnvilTrace)
    → ((collect t [] ≡ (true, events t)) × Succeeds t)
      ⊎ (((collect t []).0 ≡ false) × (Succeeds t → ⊥))
collect_lem t = collect-Collected t []

-- What an owner receives and sends by the transfers of a token that the logs record.
abbrev amount_to : ℕ → Option (ℕ × ℕ × ℕ) → ℕ
amount_to owner none = 0
amount_to owner (some (from, to, value)) = if to == owner then value else 0

abbrev amount_from : ℕ → Option (ℕ × ℕ × ℕ) → ℕ
amount_from owner none = 0
amount_from owner (some (from, to, value)) = if from == owner then value else 0

pub received : ℕ → ℕ → List Log → ℕ
received token owner [] = 0
received token owner (log ∷ logs) =
    amount_to owner (transfer_of token log.address log.bytes log.topics) + received token owner logs

pub sent : ℕ → ℕ → List Log → ℕ
sent token owner [] = 0
sent token owner (log ∷ logs) =
    amount_from owner (transfer_of token log.address log.bytes log.topics) + sent token owner logs

add_transfer_parts :
    (owner : ℕ) (t : Option (ℕ × ℕ × ℕ)) (z : ℤ)
    → pos_part (add_transfer owner t z) + neg_part z + amount_from owner t
      ≡ neg_part (add_transfer owner t z) + pos_part z + amount_to owner t
unfolding add_transfer
add_transfer_parts owner none z = omega arith
add_transfer_parts owner (some (from, to, value)) z = grind int_laws

add_logs_parts :
    (token owner : ℕ) (logs : List Log) (z : ℤ)
    → pos_part (add_logs token owner logs z) + neg_part z + sent token owner logs
      ≡ neg_part (add_logs token owner logs z) + pos_part z + received token owner logs
unfolding add_logs sent received
add_logs_parts token owner [] z = omega arith
add_logs_parts token owner (log ∷ logs) z = omega (
  arith,
  add_transfer_parts owner (transfer_of token log.address log.bytes log.topics) z,
  add_logs_parts token owner logs
      (add_transfer owner (transfer_of token log.address log.bytes log.topics) z),
)

-- The running sum over the logs is what the owner receives less what it sends.
pub add_logs_lem :
    (token owner : ℕ) (logs : List Log)
    → add_logs token owner logs (pos 0)
      ≡ pos (received token owner logs) -ℤ pos (sent token owner logs)
add_logs_lem token owner logs = grind (int_laws, add_logs_parts token owner logs (pos 0))
