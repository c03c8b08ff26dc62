-- ===== src/Execution/Stages.antt =====
-- execution.go: what each part of the handler establishes before it goes on.
use epeius.Prelude.{ℕ, String, Bool, true, ◌&&◌, Option, none, some, ◌≡◌, ◌≢◌, refl, ltb, is_empty}
use epeius.Evm.{Evm, Contracts, Bytes, Method, Read, got, failed, unpack}
use epeius.Wire.{PrepareExecutionResponse, ready, requote_required, rejected, approval_required}
use epeius.Store.{Store, Preparation, run, find, mark_approval, save_preparation}
use epeius.Execution.Environment.{World, Site, touch}
use epeius.Execution.Checks.{
  Context, unexpired, confirmed, verdict, verified, in_time, decoded, mark_answer, note,
  save_and_respond,
}
use epeius.Execution.Spec.{
  Spec, Spec-pure, Spec-respond, Spec-result, Spec-some_or_else, Spec-unless, Spec-bind,
  Spec-weaken,
}

-- An invariant that the store keeps under this handler's calls and the other requests' calls, and
-- what it says of the answers of `markApproval` for the request's quote.
pub record Invariant (w : World) (quote_id : String) (I : Store → Type 0)
    (Noted : String → Bool → Type 0) : Type 0 where
  pub after_others : (site : Site) (s : Store) → I s → I (run (w.others site) s)
  pub after_find : (q p : String) (now : ℕ) (s : Store) → I s → I (find q p now s).2
  pub after_mark :
      (q key : String) (required : Bool) (now : ℕ) (s : Store)
      → I s
      → I (mark_approval q key required now s).1
  pub after_save : (p : Preparation) (now : ℕ) (s : Store) → I s → I (save_preparation p now s)
  pub noted :
      (key : String) (required previous : Bool) (now : ℕ) (s : Store)
      → I s
      → (mark_approval quote_id key required now s).0 ≡ some previous
      → Noted key previous

-- The bytes of a call that came back, and what they decode to.
abbrev pub Decodes : {A : Type 0} → Method A → Read Bytes → A → Type 0
Decodes method (failed e) values = ⊥
Decodes method (got bytes) values = unpack method bytes ≡ some values

pub requote-ne-ready : requote_required ≢ ready
requote-ne-ready e = cc

pub rejected-ne-ready : rejected ≢ ready
rejected-ne-ready e = cc

pub asks-ne-ready : approval_required ≢ ready
asks-ne-ready e = cc

module _ (w : World) (quote_id : String) (I : Store → Type 0) (Noted : String → Bool → Type 0)
    (inv : Invariant w quote_id I Noted) (R : PrepareExecutionResponse → Type 0) where
  pub touch-Spec :
      {A : Type 0} {F : A → Type 0} (site : Site) (use_store : Store → A × Store)
      → ((s : Store) → I s → I (use_store s).1 × F (use_store s).0)
      → Spec I R (touch w site use_store) F
  unfolding touch
  touch-Spec site use_store h = record {
    at = λ s i. let done = h (run (w.others site) s) (inv.after_others site s i) in done;
  }

module _ (evm : Evm) (abi : Contracts) (w : World) (ctx : Context) (I : Store → Type 0)
    (Noted : String → Bool → Type 0) (inv : Invariant w ctx.quote_id I Noted)
    (R : PrepareExecutionResponse → Type 0) where
  pub unexpired-Spec :
      (site : Site) (expires : ℕ) (message : String)
      → Spec I R
          (unexpired evm abi w ctx site expires message)
          (λ _. ltb (w.clock site) expires ≡ true)
  unfolding unexpired
  unexpired-Spec site expires message = Spec-unless I R _ _ (Spec-result I R _ _ requote-ne-ready)

  pub confirmed-Spec :
      (site : Site) (message : String)
      → Spec I R (confirmed evm abi w ctx site message) (λ _. w.canonical site ctx.snapshot ≡ true)
  unfolding confirmed
  confirmed-Spec site message = Spec-unless I R _ _ (Spec-result I R _ _ requote-ne-ready)

  pub verified-Spec :
      (p : Preparation)
      → Spec I R (verified evm abi w ctx p) (λ _. is_empty (verdict evm abi w ctx p.verify) ≡ true)
  unfolding verified
  verified-Spec p = Spec-unless I R _ _ (Spec-result I R _ _ rejected-ne-ready)

  pub in_time-Spec :
      (p : Preparation) (deadline : ℕ)
      → Spec I R (in_time evm abi w ctx p deadline) (λ _.
        (ltb (w.clock Site.terms_expiry) p.expires && ltb ctx.snapshot.timestamp deadline) ≡ true)
  unfolding in_time
  in_time-Spec p deadline = Spec-unless I R _ _ (Spec-result I R _ _ requote-ne-ready)

  pub decoded-Spec :
      {A : Type 0} (method : Method A) (message : String) (answer : Read Bytes)
      → Spec I R (decoded evm abi w ctx method message answer) (Decodes method answer)
  unfolding decoded
  decoded-Spec method message (failed e) = Spec-result I R _ _ rejected-ne-ready
  decoded-Spec method message (got bytes) =
      Spec-some_or_else I R _ _ (Spec-result I R _ _ rejected-ne-ready)

  pub mark_answer-Spec :
      (site : Site) (answer : Option Bool)
      → Spec I R (mark_answer evm abi w ctx site answer) (λ previous. answer ≡ some previous)
  unfolding mark_answer
  mark_answer-Spec site none = Spec-result I R _ _ requote-ne-ready
  mark_answer-Spec site (some previous) =
      Spec-bind I R _ _ (Spec-unless I R _ _ (Spec-result I R _ _ requote-ne-ready))
        (λ _ _. Spec-pure I R previous refl)

  pub note-Spec :
      (mark_site expiry_site : Site) (key : String) (required : Bool)
      → Spec I R (note evm abi w ctx mark_site expiry_site key required) (Noted key)
  unfolding note
  note-Spec mark_site expiry_site key required =
      Spec-bind I R _ _
        (touch-Spec w ctx.quote_id I Noted inv R
          {F = λ answer. (b : Bool) → answer ≡ some b → Noted key b} mark_site
          (mark_approval ctx.quote_id key required (w.clock mark_site))
          (λ s i. (
            inv.after_mark ctx.quote_id key required (w.clock mark_site) s i,
            λ b e. inv.noted key required b (w.clock mark_site) s i e,
          )))
        (λ answer h. weaken expiry_site answer h)
    where
      weaken :
          (site : Site) (answer : Option Bool)
          → ((b : Bool) → answer ≡ some b → Noted key b)
          → Spec I R (mark_answer evm abi w ctx site answer) (Noted key)
      weaken site answer h = Spec-weaken I R (λ b e. h b e) (mark_answer-Spec site answer)

  pub save_and_respond-Spec :
      {A : Type 0} {F : A → Type 0} (site : Site) (p : Preparation)
      (response : PrepareExecutionResponse)
      → (response.status ≡ ready → R response)
      → Spec I R {A = A} (save_and_respond evm abi w ctx site p response) F
  unfolding save_and_respond
  save_and_respond-Spec site p response h =
      Spec-bind I R _ _
        (touch-Spec w ctx.quote_id I Noted inv R {F = λ _. Unit} site _
          (λ s i. (inv.after_save p (w.clock site) s i, tt)))
        (λ _ _. Spec-respond I R response h)
