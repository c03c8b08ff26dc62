-- ===== src/V3Quoter/Inversion.antt =====
-- What stands behind an answer of a chain of reads.
use epeius.Prelude.{String, ◌≡◌, refl, Option, none, some}
use epeius.Evm.{Bytes, Read, got, failed}
use epeius.V3Quoter.{Answered, answers, absent, fails, out_of_range, ◌>>=◌, given, readable}

pub answers_injective : {A : Type 0} {a b : A} → answers a ≡ answers b → a ≡ b
answers_injective e = cc

pub >>=-eq-answers :
    {A B : Type 0} (m : Answered A) (f : A → Answered B) {b : B}
    → (m >>= f) ≡ answers b
    → (a : A) × (m ≡ answers a) × (f a ≡ answers b)
unfolding ◌>>=◌
>>=-eq-answers (answers a) f h = (a, refl, h)
>>=-eq-answers absent f h = cc
>>=-eq-answers (fails message) f h = cc
>>=-eq-answers out_of_range f h = cc

pub given-eq-answers :
    {A : Type 0} (message : String) (o : Option A) {a : A}
    → given message o ≡ answers a
    → o ≡ some a
unfolding given
given-eq-answers message none h = cc
given-eq-answers message (some a) h = cc

pub readable-eq-answers :
    (message : String) (r : Read Bytes) {raw : Bytes}
    → readable message r ≡ answers raw
    → r ≡ got raw
unfolding readable
readable-eq-answers message (got bytes) h = cc
readable-eq-answers message (failed error) h = cc
