-- ===== src/Examples/Texts.antt =====
-- The text helpers at concrete inputs.
use kagents.Prelude.{◌≡◌, refl, [], ◌∷◌, ◌<>◌, show_nat, join, base_name}

show_nat_runs : (show_nat 0 ≡ "0") × (show_nat 1705 ≡ "1705")
unfolding show_nat
show_nat_runs = (refl, refl)

join_runs : join ("a" ∷ "b" ∷ "c" ∷ []) ", " ≡ "a, b, c"
unfolding join ◌<>◌
join_runs = refl

base_name_runs :
    (base_name "/workspace/output/report.md" ≡ "report.md")
    × (base_name "a/b/" ≡ "b")
    × (base_name "//" ≡ "/")
    × (base_name "" ≡ ".")
unfolding base_name ◌<>◌
base_name_runs = (refl, refl, refl, refl)
