-- ===== src/Template/Valid.antt =====
-- The templates that pass, described without the loops.
use kagents.Prelude.{
  String, ◌≡◌, refl, ◌≢◌, ◌↔◌, ◌⊎◌, inl, inr, false, List, [], ◌∷◌, map, arith, In, All, contains,
  contains→In, In→contains, Bool-cases, eq_iff, sym,
}
use kagents.Result.{ok, ◌>>=◌, >>=-ok, >>-ok}
use kagents.Api.Spec.{TeammateSpec}
use kagents.Api.Resources.{AgentTeamTemplateSpec}
use kagents.Template.{
  valid_models, collect_names, check_model, check_depends_on, check_teammates, validate_template,
}

abbrev pub Distinct : List String → Type 0
Distinct [] = Unit
Distinct (x ∷ xs) = (¬ In x xs) × Distinct xs

abbrev pub names_of : List TeammateSpec → List String
names_of = map (λ tm. tm.name)

abbrev pub DependsWell : List String → TeammateSpec → Type 0
DependsWell names tm = All (λ dep. (dep ≢ tm.name) × In dep names) tm.depends_on

abbrev pub ModelWell : TeammateSpec → Type 0
ModelWell tm = (tm.model ≡ "") ⊎ In tm.model valid_models

-- What the comment of validateTemplate asks of a template.
pub record IsValid (spec : AgentTeamTemplateSpec) : Type 0 where
  pub distinct : Distinct (names_of spec.teammates)
  pub models : All ModelWell spec.teammates
  pub depends : All (DependsWell (names_of spec.teammates)) spec.teammates

-- No element of `xs` stands in `ys`.
abbrev Apart : List String → List String → Type 0
Apart [] ys = Unit
Apart (x ∷ xs) ys = (¬ In x ys) × Apart xs ys

Apart-cons : (n : String) (xs ys : List String) → Apart xs (n ∷ ys) → (¬ In n xs) × Apart xs ys
Apart-cons n [] ys h = (λ k. k, tt)
Apart-cons n (x ∷ xs) ys h =
    let rest = Apart-cons n xs ys h.1 in
    (λ k. elim k [ inl e ↦ h.0 (inl (sym e)) | inr m ↦ rest.0 m ], (λ m. h.0 (inr m), rest.1))

cons-Apart : (n : String) (xs ys : List String) → ¬ In n xs → Apart xs ys → Apart xs (n ∷ ys)
cons-Apart n [] ys h k = tt
cons-Apart n (x ∷ xs) ys h k = (
  λ m. elim m [ inl e ↦ h (inl (sym e)) | inr l ↦ k.0 l ],
  cons-Apart n xs ys (λ m. h (inr m)) k.1,
)

Apart-nil : (xs : List String) → Apart xs []
Apart-nil [] = tt
Apart-nil (x ∷ xs) = (λ h. h, Apart-nil xs)

not-contains : (k : String) (js : List String) → contains k js ≡ false → ¬ In k js
not-contains k js h m = cc (h, In→contains k js m)

contains_of_not : (k : String) (js : List String) → ¬ In k js → contains k js ≡ false
contains_of_not k js h = elim (Bool-cases (contains k js)) [
  | inl e ↦ absurd (h (contains→In k js e))
  | inr e ↦ e
]

collect_names_sound :
    (acc : List String) (tms : List TeammateSpec) {names : List String}
    → collect_names acc tms ≡ ok names
    → Distinct (names_of tms) × Apart (names_of tms) acc
unfolding collect_names
collect_names_sound acc [] h = (tt, tt)
collect_names_sound acc (tm ∷ rest) {names} h = elim (Bool-cases (contains tm.name acc)) [
  | inl dup ↦ cc (rw dup at h)
  | inr new ↦
      let (d, a) = collect_names_sound (tm.name ∷ acc) rest {names = names} (rw new at h) in
      let (fresh, apart) = Apart-cons tm.name (names_of rest) acc a in
      ((fresh, d), (not-contains tm.name acc new, apart))
]

collect_names_complete :
    (acc : List String) (tms : List TeammateSpec)
    → Distinct (names_of tms)
    → Apart (names_of tms) acc
    → (names : List String) × (collect_names acc tms ≡ ok names)
unfolding collect_names
collect_names_complete acc [] d a = (acc, refl)
collect_names_complete acc (tm ∷ rest) d a = rw (contains_of_not tm.name acc a.0) (
    collect_names_complete (tm.name ∷ acc) rest d.1
      (cons-Apart tm.name (names_of rest) acc d.0 a.1))

collect_names_members :
    (acc : List String) (tms : List TeammateSpec) {names : List String}
    → collect_names acc tms ≡ ok names
    → (x : String) → In x names ↔ (In x (names_of tms) ⊎ In x acc)
unfolding collect_names
collect_names_members acc [] {names} h x =
    rw (same names h) ((λ m. inr m), λ m. elim m [ inl k ↦ absurd k | inr k ↦ k ])
  where
    same : (ns : List String) → ok acc ≡ ok ns → ns ≡ acc
    same ns e = cc
collect_names_members acc (tm ∷ rest) {names} h x = elim (Bool-cases (contains tm.name acc)) [
  | inl dup ↦ cc (rw dup at h)
  | inr new ↦
      let (to, from) = collect_names_members (tm.name ∷ acc) rest {names = names} (rw new at h) x in
      (λ m. regroup (to m), λ m. from (ungroup m))
]
  where
    regroup : In x (names_of rest) ⊎ In x (tm.name ∷ acc) → In x (names_of (tm ∷ rest)) ⊎ In x acc
    regroup (inl m) = inl (inr m)
    regroup (inr (inl e)) = inl (inl e)
    regroup (inr (inr m)) = inr m

    ungroup : In x (names_of (tm ∷ rest)) ⊎ In x acc → In x (names_of rest) ⊎ In x (tm.name ∷ acc)
    ungroup (inl (inl e)) = inr (inl e)
    ungroup (inl (inr m)) = inl m
    ungroup (inr m) = inr (inr m)

check_model_iff : (tm : TeammateSpec) → (check_model tm ≡ ok tt) ↔ ModelWell tm
unfolding check_model
check_model_iff tm = (
  λ h. ground (arith, eq_iff tm.model "", contains→In tm.model valid_models),
  λ h. elim h [
    | inl e ↦ ground (arith, eq_iff tm.model "")
    | inr m ↦ ground (arith, In→contains tm.model valid_models m)
  ],
)

module _ (names : List String) where
  check_depends_on_iff :
      (name : String) (deps : List String)
      → (check_depends_on names name deps ≡ ok tt) ↔ All (λ dep. (dep ≢ name) × In dep names) deps
  unfolding check_depends_on
  check_depends_on_iff name [] = (λ h. tt, λ h. refl)
  check_depends_on_iff name (dep ∷ deps) = (
    λ h. (
      ((λ e. ground (arith, eq_iff dep name)), ground (arith, contains→In dep names)),
      (check_depends_on_iff name deps).0 (ground arith),
    ),
    λ h. ground (
      arith,
      eq_iff dep name,
      In→contains dep names h.0.1,
      (check_depends_on_iff name deps).1 h.1,
    ),
  )

  check_teammates_iff :
      (tms : List TeammateSpec)
      → (check_teammates names tms ≡ ok tt) ↔ (All ModelWell tms × All (DependsWell names) tms)
  unfolding check_teammates
  check_teammates_iff [] = (λ h. (tt, tt), λ h. refl)
  check_teammates_iff (tm ∷ rest) = (
    λ h.
        let (model, more) = >>-ok (check_model tm) _ h in
        let (deps, others) = >>-ok (check_depends_on names tm.name tm.depends_on) _ more in
        let (ms, ds) = (check_teammates_iff rest).0 others in
        (
          ((check_model_iff tm).0 model, ms),
          ((check_depends_on_iff tm.name tm.depends_on).0 deps, ds),
        ),
    λ h. rw ((check_model_iff tm).1 h.0.0) (
        rw ((check_depends_on_iff tm.name tm.depends_on).1 h.1.0)
          ((check_teammates_iff rest).1 (h.0.1, h.1.1))),
  )

module _ (ms ns : List String) (sub : (x : String) → In x ms → In x ns) where
  depends_mono :
      (name : String) (deps : List String)
      → All (λ dep. (dep ≢ name) × In dep ms) deps
      → All (λ dep. (dep ≢ name) × In dep ns) deps
  depends_mono name [] h = tt
  depends_mono name (dep ∷ deps) h = ((h.0.0, sub dep h.0.1), depends_mono name deps h.1)

  DependsWell-mono : (tms : List TeammateSpec) → All (DependsWell ms) tms → All (DependsWell ns) tms
  DependsWell-mono [] h = tt
  DependsWell-mono (tm ∷ tms) h = (depends_mono tm.name tm.depends_on h.0, DependsWell-mono tms h.1)

drop_nil : (x : String) (xs : List String) → In x xs ⊎ In x [] → In x xs
drop_nil x xs (inl m) = m
drop_nil x xs (inr m) = absurd m

-- validateTemplate returns nil exactly for the valid templates: teammate names are distinct, every
-- model is empty or an allowed one, and every dependency is another teammate of the template.
pub validate_template-IsValid :
    (spec : AgentTeamTemplateSpec) → (validate_template spec ≡ ok tt) ↔ IsValid spec
unfolding validate_template
validate_template-IsValid spec = (sound, complete)
  where
    tms : List TeammateSpec
    tms = spec.teammates

    sound : (collect_names [] tms >>= λ names. check_teammates names tms) ≡ ok tt → IsValid spec
    sound h =
        let (names, collected, checked) = >>=-ok (collect_names [] tms) _ h in
        let (models, depends) = (check_teammates_iff names tms).0 checked in
        record {
          distinct = (collect_names_sound [] tms {names = names} collected).0;
          models = models;
          depends =
              DependsWell-mono names (names_of tms)
                (λ x m.
                  drop_nil x (names_of tms)
                    ((collect_names_members [] tms {names = names} collected x).0 m))
                tms depends;
        }

    complete : IsValid spec → (collect_names [] tms >>= λ names. check_teammates names tms) ≡ ok tt
    complete v =
        let (names, collected) =
          collect_names_complete [] tms v.distinct (Apart-nil (names_of tms)) in
        rw collected (
          (check_teammates_iff names tms).1 (
            v.models,
            DependsWell-mono (names_of tms) names
                (λ x m. (collect_names_members [] tms {names = names} collected x).1 (inl m)) tms
                v.depends,
          ))
