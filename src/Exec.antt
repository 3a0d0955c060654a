-- ===== src/Exec.antt =====
-- Go methods that change what they point to and may fail: what was written before an error stays
-- written, so the state comes back beside the error too.
pub mod Keeps
pub mod Returns
use kagents.Prelude.{String, Bool, true, false}
use kagents.Result.{Error, Result, ok, err, wrap, is_not_found, is_already_exists}

abbrev pub Exec : Type 0 → Type 0 → Type 0
Exec S A = S → Result A × S

abbrev pub relabel : {A : Type 0} → String → Result A → Result A
relabel text (ok a) = ok a
relabel text (err e) = err (wrap text e)

module _ {S : Type 0} where
  unfoldable pub pure : {A : Type 0} → A → Exec S A
  pure a s = (ok a, s)

  unfoldable pub raise : {A : Type 0} → Error → Exec S A
  raise e s = (err e, s)

  unfoldable pub gets : {A : Type 0} → (S → A) → Exec S A
  gets f s = (ok (f s), s)

  unfoldable pub modify : (S → S) → Exec S (Unit {0})
  modify f s = (ok tt, f s)

  -- The error of a call as a value, for `if err := call(); err != nil`.
  unfoldable pub attempt : {A : Type 0} → Exec S A → Exec S (Result A)
  attempt m s = let (r, s') = m s in (ok r, s')

  -- What follows a call: the rest on its value, or its error.
  abbrev pub continue : {A B : Type 0} → Result A → (A → Exec S B) → Exec S B
  continue (ok a) k s = k a s
  continue (err e) k s = (err e, s)

  infixl 5 ◌>>=◌ ◌>>◌
  unfoldable pub ◌>>=◌ : {A B : Type 0} → Exec S A → (A → Exec S B) → Exec S B
  ◌>>=◌ m k s = continue (m s).0 k (m s).1

  abbrev pub ◌>>◌ : {A B : Type 0} → Exec S A → Exec S B → Exec S B
  m >> n = m >>= λ _. n

  -- return fmt.Errorf("text: %w", err)
  unfoldable pub explain : {A : Type 0} → String → Exec S A → Exec S A
  explain text m s = let (r, s') = m s in (relabel text r, s')

  unfoldable pub lift : {A : Type 0} → Result A → Exec S A
  lift r s = (r, s)

-- What is found under a key, if anything: the test `errors.IsNotFound` after a Get.
pub data Found (A : Type 0) : Type 0 where
  found : A → Found A
  missing : Found A

abbrev pub found_or_missing : {A : Type 0} → Result A → Result (Found A)
found_or_missing (ok a) = ok (found a)
found_or_missing (err (Error.not_found m)) = ok missing
found_or_missing (err (Error.already_exists m)) = err (Error.already_exists m)
found_or_missing (err (Error.other m)) = err (Error.other m)
