-- ===== src/Exec/Returns.antt =====
-- What a block of actions that succeeds says of its steps.
use kagents.Prelude.{◌≡◌, refl, String}
use kagents.Result.{Result, ok, err}
use kagents.Exec.{Exec, continue, explain, relabel, ◌>>=◌}

continue-ok :
    {S A B : Type 0} (r : Result A) (k : A → Exec S B) (s : S) {b : B}
    → (continue r k s).0 ≡ ok b
    → (a : A) × (r ≡ ok a) × ((k a s).0 ≡ ok b)
continue-ok (ok a) k s h = (a, refl, h)
continue-ok (err e) k s h = cc

pub >>=-ok :
    {S A B : Type 0} (m : Exec S A) (k : A → Exec S B) (s : S) {b : B}
    → ((m >>= k) s).0 ≡ ok b
    → (a : A) × ((m s).0 ≡ ok a) × ((k a (m s).1).0 ≡ ok b)
unfolding ◌>>=◌
>>=-ok m k s h = continue-ok (m s).0 k (m s).1 h

pub relabel-ok :
    {A : Type 0} (text : String) (r : Result A) {a : A} → relabel text r ≡ ok a → r ≡ ok a
relabel-ok text (ok b) h = h
relabel-ok text (err e) h = cc

pub explain-ok :
    {S A : Type 0} (text : String) (m : Exec S A) (s : S) {a : A}
    → (explain text m s).0 ≡ ok a
    → (m s).0 ≡ ok a
unfolding explain
explain-ok text m s h = relabel-ok text (m s).0 h
