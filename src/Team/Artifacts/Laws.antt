-- ===== src/Team/Artifacts/Laws.antt =====
-- Recording the artifacts of a teammate again changes nothing.
use mathlib.Core.List.{append-nil, map-append}
use kagents.Prelude.{
  String, ◌≡◌, refl, ap, inl, inr, List, [], ◌∷◌, ◌++◌, map, In, In-append, In-append_left,
  In-append_right, contains, contains→In, In→contains, Bool-cases,
}
use kagents.Api.Spec.{TeammateSpec, OutputSpec}
use kagents.Api.Status.{Time, ArtifactStatus}
use kagents.Team.Artifacts.{artifact_key, artifact_of, new_artifacts, record_teammate_artifacts}

module _ (tm : TeammateSpec) where
  -- Every output has its key among the existing or the new ones.
  new_artifacts_cover :
      (existing : List String) (at : Time) (outs : List OutputSpec) (out : OutputSpec)
      → In out outs
      → In
          (artifact_key (artifact_of tm at out))
          (existing ++ map artifact_key (new_artifacts existing tm at outs))
  unfolding new_artifacts
  new_artifacts_cover existing at [] out m = absurd m
  new_artifacts_cover existing at (o ∷ outs) out m =
      elim (Bool-cases (contains (artifact_key (artifact_of tm at o)) existing)) [
        | inl t ↦ rw t (elim m [
          | inl e ↦
              In-append_left (artifact_key (artifact_of tm at out)) existing _
                (rw e (contains→In (artifact_key (artifact_of tm at o)) existing t))
          | inr later ↦ new_artifacts_cover existing at outs out later
        ])
        | inr f ↦ rw f (elim m [
          | inl e ↦
              In-append_right (artifact_key (artifact_of tm at out)) existing _
                (inl (ap (λ x. artifact_key (artifact_of tm at x)) e))
          | inr later ↦
              elim (In-append (artifact_key (artifact_of tm at out)) existing _
                (new_artifacts_cover existing at outs out later)) [
                  | inl old ↦ In-append_left (artifact_key (artifact_of tm at out)) existing _ old
                  | inr new ↦
                      In-append_right (artifact_key (artifact_of tm at out)) existing _ (inr new)
                ]
        ])
      ]

  none_new :
      (existing : List String) (at : Time) (outs : List OutputSpec)
      → ((out : OutputSpec) → In out outs → In (artifact_key (artifact_of tm at out)) existing)
      → new_artifacts existing tm at outs ≡ []
  unfolding new_artifacts
  none_new existing at [] h = refl
  none_new existing at (o ∷ outs) h =
      rw (In→contains (artifact_key (artifact_of tm at o)) existing (h o (inl refl)))
        (none_new existing at outs (λ out m. h out (inr m)))

-- A second call, at any later time, appends nothing: recordTeammateArtifacts is idempotent.
pub record_teammate_artifacts_idem :
    (artifacts : List ArtifactStatus) (tm : TeammateSpec) (at later : Time)
    → record_teammate_artifacts (record_teammate_artifacts artifacts tm at) tm later
      ≡ record_teammate_artifacts artifacts tm at
unfolding record_teammate_artifacts
record_teammate_artifacts_idem artifacts tm at later =
    rw (none_new tm (map artifact_key (artifacts ++ added)) later tm.outputs covered) (append-nil _)
  where
    added : List ArtifactStatus
    added = new_artifacts (map artifact_key artifacts) tm at tm.outputs

    covered :
        (out : OutputSpec)
        → In out tm.outputs
        → In (artifact_key (artifact_of tm later out)) (map artifact_key (artifacts ++ added))
    covered out m =
        rw map-append (new_artifacts_cover tm (map artifact_key artifacts) at tm.outputs out m)
