-- ===== src/Result.antt =====
-- Go's `error` results. The kinds are those that `errors.IsNotFound` and `errors.IsAlreadyExists` of
-- the Kubernetes API tell apart; `%w` wraps an error with a text in front and keeps its kind.
use kagents.Prelude.{String, Bool, true, false, ◌<>◌, ◌≡◌, refl, ◌⊎◌, inl, inr}

pub data Error : Type 0 where
  not_found : String → Error
  already_exists : String → Error
  other : String → Error

pub data Result {ℓ} (A : Type ℓ) : Type ℓ where
  ok : A → Result A
  err : Error → Result A

-- err.Error()
unfoldable pub message : Error → String
message (not_found m) = m
message (already_exists m) = m
message (other m) = m

-- fmt.Errorf("text: %w", err)
unfoldable pub wrap : String → Error → Error
wrap text (not_found m) = not_found (text <> ": " <> m)
wrap text (already_exists m) = already_exists (text <> ": " <> m)
wrap text (other m) = other (text <> ": " <> m)

abbrev pub is_not_found : Error → Bool
is_not_found (not_found m) = true
is_not_found (already_exists m) = false
is_not_found (other m) = false

abbrev pub is_already_exists : Error → Bool
is_already_exists (not_found m) = false
is_already_exists (already_exists m) = true
is_already_exists (other m) = false

infixl 5 ◌>>=◌ ◌>>◌
abbrev pub ◌>>=◌ {ℓ κ} : {A : Type ℓ} {B : Type κ} → Result A → (A → Result B) → Result B
ok a >>= k = k a
err e >>= k = err e

abbrev pub ◌>>◌ {ℓ} : {B : Type ℓ} → Result (Unit {0}) → Result B → Result B
first >> next = first >>= λ _. next

-- What a block that succeeds says of its first step.
pub >>=-ok {ℓ κ} :
    {A : Type ℓ} {B : Type κ} (m : Result A) (k : A → Result B) {b : B}
    → (m >>= k) ≡ ok b
    → (a : A) × (m ≡ ok a) × (k a ≡ ok b)
>>=-ok (ok a) k h = (a, refl, h)
>>=-ok (err e) k h = cc

pub >>-ok {ℓ} :
    {B : Type ℓ} (m : Result (Unit {0})) (n : Result B) {b : B}
    → (m >> n) ≡ ok b
    → (m ≡ ok tt) × (n ≡ ok b)
>>-ok (ok a) n h = (refl, h)
>>-ok (err e) n h = cc

pub Result-cases {ℓ} :
    {A : Type ℓ} (r : Result A) → ((a : A) × (r ≡ ok a)) ⊎ ((e : Error) × (r ≡ err e))
Result-cases (ok a) = inl (a, refl)
Result-cases (err e) = inr (e, refl)

pub ok_inj {ℓ} : {A : Type ℓ} {a b : A} → ok a ≡ ok b → a ≡ b
ok_inj h = cc
