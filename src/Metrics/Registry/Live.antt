-- ===== src/Metrics/Registry/Live.antt =====
-- Sets of keys as lists: the started teams that are not finished.
use kagents.Prelude.{
  ◌≡◌, refl, sym, inl, inr, suc, String, true, false, not, List, [], ◌∷◌, ◌==◌, ◌&&◌, contains,
  length, eq_iff, arith, Bool-cases, if◌then◌else◌,
}
use kagents.Metrics.Registry.Kinds.{Distinct}

-- The started keys that are not finished.
unfoldable pub live : List String → List String → List String
live [] done = []
live (key ∷ keys) done = let rest = live keys done in if contains key done then rest else key ∷ rest

pub contains-live :
    (key : String) (keys done : List String)
    → contains key (live keys done) ≡ (contains key keys && not (contains key done))
unfolding live contains
contains-live key [] done = refl
contains-live key (k ∷ keys) done = ground (arith, eq_iff key k, contains-live key keys done)

pub live-Distinct : (keys done : List String) → Distinct keys → Distinct (live keys done)
unfolding live
live-Distinct [] done h = tt
live-Distinct (key ∷ keys) done h = elim (Bool-cases (contains key done)) [
  | inl over ↦ rw over (live-Distinct keys done h.1)
  | inr running ↦
      let absent : contains key (live keys done) ≡ false =
        rw (contains-live key keys done, h.0) refl in
      rw running (absent, live-Distinct keys done h.1)
]

-- A key that is not among the started ones may be finished without effect.
pub live_absent :
    (key : String) (keys done : List String)
    → contains key keys ≡ false
    → live keys (key ∷ done) ≡ live keys done
unfolding live contains
live_absent key [] done h = refl
live_absent key (k ∷ keys) done h =
    ground (arith, eq_iff k key, eq_iff key k, live_absent key keys done)

-- A key that is live no longer is once it is finished.
pub length-live :
    (key : String) (keys done : List String)
    → Distinct keys
    → contains key keys ≡ true
    → contains key done ≡ false
    → length (live keys done) ≡ suc (length (live keys (key ∷ done)))
unfolding live contains
length-live key [] done d h k = cc
length-live key (j ∷ keys) done d h k = elim (Bool-cases (key == j)) [
  | inl same ↦
      let e : key ≡ j = (eq_iff key j).0 same in
      let rest = live_absent key keys done (rw e d.0) in
      let free : contains j done ≡ false = rw (sym e) k in
      let here : (j == key) ≡ true = (eq_iff j key).1 (sym e) in rw (free, here, rest) refl
  | inr other ↦
      let later = length-live key keys done d.1 in ground (arith, eq_iff key j, eq_iff j key)
]
