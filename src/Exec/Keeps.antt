-- ===== src/Exec/Keeps.antt =====
-- Actions that relate the state before to the state after, whatever they return: a relation that is
-- reflexive and transitive is kept by a sequence of calls that keep it.
use kagents.Prelude.{String, Bool, true, false, if◌then◌else◌}
use kagents.Result.{Result, Error, ok, err}
use kagents.Exec.{Exec, continue, pure, raise, gets, lift, attempt, explain, ◌>>=◌}

pub record Keeps {S : Type 0} (R : S → S → Type 0) {A : Type 0} (m : Exec S A) : Type 0 where
  pub run : (s : S) → R s (m s).1

module _ {S : Type 0} {R : S → S → Type 0} where
  pub if-Keeps :
      {A : Type 0} (b : Bool) {m n : Exec S A}
      → Keeps R m
      → Keeps R n
      → Keeps R (if b then m else n)
  if-Keeps true f g = f
  if-Keeps false f g = g

  pub explain-Keeps :
      {A : Type 0} (text : String) {m : Exec S A} → Keeps R m → Keeps R (explain text m)
  unfolding explain
  explain-Keeps text f = record { run = f.run }

  pub attempt-Keeps : {A : Type 0} {m : Exec S A} → Keeps R m → Keeps R (attempt m)
  unfolding attempt
  attempt-Keeps f = record { run = f.run }

module _ {S : Type 0} (R : S → S → Type 0) (same : (s : S) → R s s)
    (chain : (s t u : S) → R s t → R t u → R s u) where
  continue_keeps :
      {A B : Type 0} (r : Result A) (k : A → Exec S B) (s t : S)
      → R s t
      → ((a : A) → Keeps R (k a))
      → R s (continue r k t).1
  continue_keeps (ok a) k s t before after = chain s t (k a t).1 before ((after a).run t)
  continue_keeps (err e) k s t before after = before

  pub >>=-Keeps :
      {A B : Type 0} {m : Exec S A} {k : A → Exec S B}
      → Keeps R m
      → ((a : A) → Keeps R (k a))
      → Keeps R (m >>= k)
  unfolding ◌>>=◌
  >>=-Keeps {m = m} {k = k} f g = record {
    run = λ s. continue_keeps (m s).0 k s (m s).1 (f.run s) g;
  }

  pub pure-Keeps : {A : Type 0} (a : A) → Keeps R (pure a)
  unfolding pure
  pure-Keeps a = record { run = same }

  pub raise-Keeps : {A : Type 0} (e : Error) → Keeps R (raise {A = A} e)
  unfolding raise
  raise-Keeps e = record { run = same }

  pub gets-Keeps : {A : Type 0} (f : S → A) → Keeps R (gets f)
  unfolding gets
  gets-Keeps f = record { run = same }

  pub lift-Keeps : {A : Type 0} (r : Result A) → Keeps R (lift r)
  unfolding lift
  lift-Keeps r = record { run = same }
