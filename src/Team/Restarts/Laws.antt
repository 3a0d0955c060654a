-- ===== src/Team/Restarts/Laws.antt =====
-- Reading a count or an approval after a write.
use kagents.Prelude.{
  ℕ, String, ◌≡◌, refl, Bool, false, List, [], ◌∷◌, arith, ◌==◌, ◌&&◌, ◌||◌, eq_iff, eq_refl,
  if◌then◌else◌,
}
use kagents.Api.Status.{TeammateStatus}
use kagents.Team.Restarts.{
  teammate_restart_count, set_teammate_restart_count, set_teammate_pending_approval,
  clear_teammate_pending_approval,
}

pub has_teammate : List TeammateStatus → String → Bool
has_teammate [] name = false
has_teammate (st ∷ rest) name = st.name == name || has_teammate rest name

pub pending_approval : List TeammateStatus → String → String
pending_approval [] name = ""
pending_approval (st ∷ rest) name =
    if st.name == name then st.pending_approval else pending_approval rest name

-- A teammate that has a status entry reads the count that was set, every other its own; where there
-- is no entry the write is lost.
pub restart_count-set :
    (sts : List TeammateStatus) (name j : String) (n : ℕ)
    → teammate_restart_count (set_teammate_restart_count sts name n) j
      ≡ (if name == j && has_teammate sts name then n else teammate_restart_count sts j)
unfolding teammate_restart_count set_teammate_restart_count has_teammate
restart_count-set [] name j n = ground arith
restart_count-set (st ∷ rest) name j n =
    ground
      (arith, eq_iff st.name name, eq_iff st.name j, eq_iff name j, restart_count-set rest name j n)

pub pending_approval-set :
    (sts : List TeammateStatus) (name j event : String)
    → pending_approval (set_teammate_pending_approval sts name event) j
      ≡ (if name == j then event else pending_approval sts j)
unfolding pending_approval set_teammate_pending_approval
pending_approval-set [] name j event = refl
pending_approval-set (st ∷ rest) name j event = ground (
  arith,
  eq_iff st.name name,
  eq_iff st.name j,
  eq_iff name j,
  pending_approval-set rest name j event,
)

-- Setting an approval and clearing it leaves the approvals of the others as they were, and none for
-- the teammate itself.
pub pending_approval-clear-set :
    (sts : List TeammateStatus) (name j event : String)
    → pending_approval
        (clear_teammate_pending_approval (set_teammate_pending_approval sts name event) name)
        j
      ≡ (if name == j then "" else pending_approval sts j)
unfolding pending_approval set_teammate_pending_approval clear_teammate_pending_approval
pending_approval-clear-set [] name j event = ground (arith, eq_refl name)
pending_approval-clear-set (st ∷ rest) name j event = ground (
  arith,
  eq_iff st.name name,
  eq_iff st.name j,
  eq_iff name j,
  pending_approval-clear-set rest name j event,
)
