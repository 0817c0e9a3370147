-- ===== src/RawGuard/Depth.antt =====
-- `_depth_scan`: the token-aware scan against the nesting of the brackets outside of strings.
use arjim.Base.{
  ℕ, suc, ◌-◌, ◌≤◌, max, ◌≡◌, Bool, true, false, Option, none, some, List, [], ◌∷◌, arith, leb,
  if◌then◌else◌, ◌==◌, ◌!=◌, nat_eq,
}
use arjim.Vocabulary.{Phase, GuardCode}
use arjim.RawGuard.{
  RawGuardResult, reject, depth_loop, depth_scan, is_open, is_close, quote, backslash, max_depth,
}

pub data Bracket : Type 0 where
  enter leave : Bracket

-- The brackets of a text that stand outside of strings; a backslash in a string escapes what
-- follows it.
brackets_from : Bool → Bool → List ℕ → List Bracket
brackets_from in_string escaped [] = []
brackets_from true true (ch ∷ text) = brackets_from true false text
brackets_from true false (ch ∷ text) = brackets_from (ch != quote) (ch == backslash) text
brackets_from false escaped (ch ∷ text) =
    let rest = brackets_from (ch == quote) escaped text in
    if is_open ch then enter ∷ rest else if is_close ch then leave ∷ rest else rest

unfoldable pub brackets : List ℕ → List Bracket
unfolding brackets_from
brackets text = brackets_from false false text

-- The deepest level that the brackets reach from a level; a surplus closing bracket is ignored.
unfoldable pub peak : ℕ → List Bracket → ℕ
peak level [] = level
peak level (enter ∷ bs) = max level (peak (suc level) bs)
peak level (leave ∷ bs) = max level (peak (level - 1) bs)

level-le-peak : (level : ℕ) (bs : List Bracket) → level ≤ peak level bs
unfolding peak
level-le-peak level [] = omega arith
level-le-peak level (enter ∷ bs) = omega arith
level-le-peak level (leave ∷ bs) = omega arith

abbrev verdict : ℕ → Option RawGuardResult
verdict deepest =
    if leb deepest max_depth then none else some (reject Phase.depth GuardCode.depth_exceeded)

depth_loop-verdict :
    (level : ℕ) (in_string escaped : Bool) (text : List ℕ)
    → level ≤ max_depth
    → depth_loop level in_string escaped text
      ≡ verdict (peak level (brackets_from in_string escaped text))
unfolding depth_loop brackets_from peak
depth_loop-verdict level true true [] h = ground arith
depth_loop-verdict level true false [] h = ground arith
depth_loop-verdict level false escaped [] h = ground arith
depth_loop-verdict level true true (ch ∷ text) h = depth_loop-verdict level true false text h
depth_loop-verdict level true false (ch ∷ text) h =
    depth_loop-verdict level (ch != quote) (ch == backslash) text h
depth_loop-verdict level false escaped (ch ∷ text) h = ground (
  arith,
  depth_loop-verdict level true escaped text h,
  depth_loop-verdict (suc level) false escaped text,
  depth_loop-verdict (level - 1) false escaped text,
  depth_loop-verdict level false escaped text h,
  level-le-peak (suc level) (brackets_from false escaped text),
  level-le-peak level (brackets_from false escaped text),
)

-- `_depth_scan` rejects exactly the texts whose brackets outside of strings nest deeper than 8.
pub depth_scan-verdict :
    (text : List ℕ)
    → depth_scan text ≡ (
        if leb (peak 0 (brackets text)) 8
        then none
        else some (reject Phase.depth GuardCode.depth_exceeded))
unfolding depth_scan brackets
depth_scan-verdict text = depth_loop-verdict 0 false false text (omega arith)
