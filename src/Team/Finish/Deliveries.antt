-- ===== src/Team/Finish/Deliveries.antt =====
-- The status entries that executeDelivery leaves.
use kagents.Prelude.{
  ◌≡◌, refl, sym, ap, ◌∙◌, String, List, [], ◌∷◌, ◌++◌, map, append-nil, arith, Bool-cases, inl,
  inr,
}
use kagents.Result.{Result, ok, err}
use kagents.Exec.{continue, ◌>>=◌}
use kagents.Api.Spec.{DeliveryTarget}
use kagents.Delivery.{send, target_label}
use kagents.Team.Runtime.{Env, Pass, Action, emit, record_event, change_status}
use kagents.Team.Finish.{report_delivery, send_to, deliver_all}

abbrev pub label_of : DeliveryTarget → String × String
label_of target = (target.type, target_label target)

abbrev pub entries_of : {W F : Type 0} → Pass W F → List (String × String)
entries_of s = map (λ d. (d.type, d.target)) s.team.status.delivery

map-snoc :
    {A B : Type 0} (f : A → B) (xs : List A) (x : A) → map f (xs ++ x ∷ []) ≡ map f xs ++ f x ∷ []
map-snoc f [] x = refl
map-snoc f (y ∷ xs) x = ap (λ l. f y ∷ l) (map-snoc f xs x)

append_assoc :
    {A : Type 0} (xs : List A) (x : A) (ys : List A) → (xs ++ x ∷ []) ++ ys ≡ xs ++ x ∷ ys
append_assoc [] x ys = refl
append_assoc (y ∷ xs) x ys = ap (λ l. y ∷ l) (append_assoc xs x ys)

module _ (env : Env) where
  report_delivery-entry :
      (target : DeliveryTarget) (r : Result (Unit {0})) (s : Pass env.World env.float.F)
      → ((report_delivery env target r s).0 ≡ ok tt)
        × (entries_of (report_delivery env target r s).1 ≡ entries_of s ++ label_of target ∷ [])
  unfolding report_delivery emit record_event change_status ◌>>=◌
  report_delivery-entry target (ok u) s = elim (Bool-cases env.reconciler.has_recorder) [
    | inl h ↦ rw h (refl, map-snoc _ s.team.status.delivery _)
    | inr h ↦ rw h (refl, map-snoc _ s.team.status.delivery _)
  ]
  report_delivery-entry target (err e) s = elim (Bool-cases env.reconciler.has_recorder) [
    | inl h ↦ rw h (refl, map-snoc _ s.team.status.delivery _)
    | inr h ↦ rw h (refl, map-snoc _ s.team.status.delivery _)
  ]

  goes_on :
      (r : Result (Unit {0})) (k : Action env (Unit {0})) (t : Pass env.World env.float.F)
      → r ≡ ok tt
      → (continue r (λ _. k) t).1 ≡ (k t).1
  goes_on (ok tt) k t h = refl
  goes_on (err e) k t h = ground arith

  -- executeDelivery appends one entry to the delivery status for every target, in the targets' order,
  -- whatever their senders answer.
  pub deliver_all_exact :
      (targets : List DeliveryTarget) (s : Pass env.World env.float.F)
      → entries_of (deliver_all env targets s).1 ≡ entries_of s ++ map label_of targets
  unfolding deliver_all send_to ◌>>=◌
  deliver_all_exact [] s = sym (append-nil (entries_of s))
  deliver_all_exact (target ∷ targets) s =
      let t = record s { world = (send env.senders s.world target s.team).1 } in
      let (done, entry) =
        report_delivery-entry target (send env.senders s.world target s.team).0 t in
      ap entries_of (goes_on _ (deliver_all env targets) _ done)
      ∙ deliver_all_exact targets
          (report_delivery env target (send env.senders s.world target s.team).0 t).1
      ∙ ap (λ es. es ++ map label_of targets) entry
      ∙ append_assoc (entries_of s) (label_of target) (map label_of targets)
