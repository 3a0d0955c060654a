-- ===== src/Team/Order/Effective.antt =====
-- What effectiveDependencies returns, without its loops.
use kagents.Prelude.{
  String, ◌≡◌, ◌≢◌, ◌↔◌, ◌⊎◌, inl, inr, Bool, true, false, List, [], ◌∷◌, ◌++◌, arith, In, contains,
  contains→In, In→contains, Bool-cases, ◌==◌, ◌||◌, eq_iff, sym, ◌∙◌, In-append, In-append_left,
  In-append_right,
}
use kagents.Api.Spec.{TeammateSpec}
use kagents.Api.Resources.{AgentTeam}
use kagents.Team.Order.{add_all, ordering_sources, input_sources, effective_dependencies}

-- No name comes twice, and none is empty.
abbrev pub IsClean : List String → Type 0
IsClean [] = Unit
IsClean (x ∷ xs) = (x ≢ "") × (¬ In x xs) × IsClean xs

IsClean-snoc :
    (xs : List String) (n : String) → IsClean xs → n ≢ "" → ¬ In n xs → IsClean (xs ++ n ∷ [])
IsClean-snoc [] n c h k = (h, λ m. m, tt)
IsClean-snoc (x ∷ xs) n c h k = (
  c.0,
  λ m. elim (In-append x xs (n ∷ []) m) [
    | inl l ↦ c.1 l
    | inr r ↦ elim r [ inl e ↦ k (inl (sym e)) | inr f ↦ f ]
  ],
  IsClean-snoc xs n c.2 h (λ m. k (inr m)),
)

abbrev skips : List String → String → Bool
skips out n = n == "" || contains n out

-- The test of `add`, with what it says.
skips_cases :
    (out : List String) (n : String)
    → ((skips out n ≡ true) × ((n ≡ "") ⊎ In n out))
      ⊎ ((skips out n ≡ false) × (n ≢ "") × (¬ In n out))
skips_cases out n = elim (Bool-cases (skips out n)) [
  | inl t ↦ inl (t, ground (arith, eq_iff n "", contains→In n out))
  | inr f ↦ inr (f, (λ e. ground (arith, eq_iff n "")), (λ m. ground (arith, In→contains n out m)))
]

add_all-IsClean : (out names : List String) → IsClean out → IsClean (add_all out names)
unfolding add_all
add_all-IsClean out [] c = c
add_all-IsClean out (n ∷ rest) c = elim (skips_cases out n) [
  | inl (t, _) ↦ rw t (add_all-IsClean out rest c)
  | inr (f, given, fresh) ↦
      rw f (add_all-IsClean (out ++ n ∷ []) rest (IsClean-snoc out n c given fresh))
]

module _ (x : String) where
  add_all_sound : (out names : List String) → In x (add_all out names) → In x out ⊎ In x names
  unfolding add_all
  add_all_sound out [] m = inl m
  add_all_sound out (n ∷ rest) m = elim (skips_cases out n) [
    | inl (t, _) ↦ elim (add_all_sound out rest (rw t at m)) [ inl l ↦ inl l | inr r ↦ inr (inr r) ]
    | inr (f, _, _) ↦ elim (add_all_sound (out ++ n ∷ []) rest (rw f at m)) [
      | inl l ↦ elim (In-append x out (n ∷ []) l) [
        | inl a ↦ inl a
        | inr b ↦ elim b [ inl e ↦ inr (inl e) | inr e ↦ absurd e ]
      ]
      | inr r ↦ inr (inr r)
    ]
  ]

  add_all_keeps : (out names : List String) → In x out → In x (add_all out names)
  unfolding add_all
  add_all_keeps out [] m = m
  add_all_keeps out (n ∷ rest) m = elim (skips_cases out n) [
    | inl (t, _) ↦ rw t (add_all_keeps out rest m)
    | inr (f, _, _) ↦ rw f (add_all_keeps (out ++ n ∷ []) rest (In-append_left x out (n ∷ []) m))
  ]

  add_all_adds : (out names : List String) → x ≢ "" → In x names → In x (add_all out names)
  unfolding add_all
  add_all_adds out [] given m = absurd m
  add_all_adds out (n ∷ rest) given (inr m) = elim (skips_cases out n) [
    | inl (t, _) ↦ rw t (add_all_adds out rest given m)
    | inr (f, _, _) ↦ rw f (add_all_adds (out ++ n ∷ []) rest given m)
  ]
  add_all_adds out (n ∷ rest) given (inl e) = elim (skips_cases out n) [
    | inl (t, why) ↦ rw t (
        add_all_keeps out rest
          (elim why [ inl empty ↦ absurd (given (e ∙ empty)) | inr held ↦ rw e held ]))
    | inr (f, _, _) ↦
        rw f (add_all_keeps (out ++ n ∷ []) rest (In-append_right x out (n ∷ []) (inl e)))
  ]

IsClean-ne : (xs : List String) (x : String) → IsClean xs → In x xs → x ≢ ""
IsClean-ne [] x c m = absurd m
IsClean-ne (y ∷ ys) x c (inl e) = λ empty. c.0 (sym e ∙ empty)
IsClean-ne (y ∷ ys) x c (inr m) = IsClean-ne ys x c.2 m

-- effectiveDependencies lists exactly the names, other than "", that the ordering (the pipeline where
-- one is set, dependsOn otherwise) or an input names, each of them once.
pub effective_dependencies_exact :
    (team : AgentTeam) (tm : TeammateSpec)
    → IsClean (effective_dependencies team tm)
      × ((x : String)
          → In x (effective_dependencies team tm)
            ↔ ((x ≢ "") × (In x (ordering_sources team tm) ⊎ In x (input_sources tm.inputs))))
unfolding effective_dependencies
effective_dependencies_exact team tm = (clean, λ x. (to x, from x))
  where
    first : List String
    first = add_all [] (ordering_sources team tm)

    clean : IsClean (add_all first (input_sources tm.inputs))
    clean =
        add_all-IsClean first (input_sources tm.inputs)
          (add_all-IsClean [] (ordering_sources team tm) tt)

    to :
        (x : String)
        → In x (add_all first (input_sources tm.inputs))
        → (x ≢ "") × (In x (ordering_sources team tm) ⊎ In x (input_sources tm.inputs))
    to x m = (
      IsClean-ne (add_all first (input_sources tm.inputs)) x clean m,
      elim (add_all_sound x first (input_sources tm.inputs) m) [
        | inl l ↦ elim (add_all_sound x [] (ordering_sources team tm) l) [
          | inl none_yet ↦ absurd none_yet
          | inr o ↦ inl o
        ]
        | inr i ↦ inr i
      ],
    )

    from :
        (x : String)
        → (x ≢ "") × (In x (ordering_sources team tm) ⊎ In x (input_sources tm.inputs))
        → In x (add_all first (input_sources tm.inputs))
    from x (given, inl o) =
        add_all_keeps x first (input_sources tm.inputs)
          (add_all_adds x [] (ordering_sources team tm) given o)
    from x (given, inr i) = add_all_adds x first (input_sources tm.inputs) given i
