-- ===== src/Rules/Loader/Lines.antt =====
-- src/rules/loader.py, `iter_rule_lines`: the fuel of the loop.
use nt204_r11_antn_nguyen_th.Base.{
  ℕ, zero, suc, ◌+◌, ◌-◌, ◌≤◌, ◌≡◌, refl, List, [], ◌∷◌, length, Text, arith, lstrip,
}
use nt204_r11_antn_nguyen_th.Rules.Loader.{join_lines, glue, cut, logical_lines}

-- A rule line takes none of the lines before it.
join_lines-length :
    (text : Text) (lines : List Text) → length (join_lines text lines).1 ≤ length lines
unfolding join_lines
join_lines-length text [] = omega arith
join_lines-length text (l ∷ ls) = ground (arith, join_lines-length (glue (cut text) (lstrip l)) ls)

-- Fuel beyond the number of lines changes nothing, so the number of lines, which `iter_rule_lines`
-- gives the loop, is enough.
pub logical_lines_enough :
    (f g i : ℕ) (lines : List Text)
    → length lines ≤ f
    → length lines ≤ g
    → logical_lines f i lines ≡ logical_lines g i lines
unfolding logical_lines
logical_lines_enough zero zero i lines h k = refl
logical_lines_enough zero (suc g) i [] h k = refl
logical_lines_enough zero (suc g) i (l ∷ ls) h k = absurd (omega (arith, h))
logical_lines_enough (suc f) zero i [] h k = refl
logical_lines_enough (suc f) zero i (l ∷ ls) h k = absurd (omega (arith, k))
logical_lines_enough (suc f) (suc g) i [] h k = refl
logical_lines_enough (suc f) (suc g) i (l ∷ ls) h k =
    let rest = (join_lines l ls).1 in
    let shorter = join_lines-length l ls in
    rw
      (
        logical_lines_enough f g (suc i) ls (omega (arith, h)) (omega (arith, k)),
        logical_lines_enough f g (suc i + (length ls - length rest)) rest
            (omega (arith, h, shorter)) (omega (arith, k, shorter)),
      )
      refl
