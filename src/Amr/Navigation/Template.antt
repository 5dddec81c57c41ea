-- ===== src/Amr/Navigation/Template.antt =====
-- The file of parameters that launchNav2Process makes for a robot
-- (robot_ws/src/amr_navigation/src/navigation_server.cpp): every "<robot_prefix>" of the template is
-- replaced by the prefix of the frames of the robot. A text stands as the list of its characters.
pub mod Replacing
use amr_warehouse_collaborat.Prelude.{
  ℕ, zero, suc, ◌+◌, Bool, true, false, ◌&&◌, eqb, Option, none, some, List, [], ◌∷◌, ◌++◌, length,
  take, drop, is_empty, if◌then◌else◌,
}
use amr_warehouse_collaborat.Amr.GoodsPoints.{codes}

unfoldable pub starts_with : List ℕ → List ℕ → Bool
starts_with [] text = true
starts_with (c ∷ pattern) [] = false
starts_with (c ∷ pattern) (d ∷ text) = eqb c d && starts_with pattern text

abbrev pub shift : ℕ → Option ℕ → Option ℕ
shift n none = none
shift n (some at) = some (n + at)

-- Where the pattern first stands in the text.
unfoldable pub find_first : List ℕ → List ℕ → Option ℕ
unfolding starts_with
find_first pattern [] = if is_empty pattern then some 0 else none
find_first pattern (c ∷ text) =
    let later = shift 1 (find_first pattern text) in
    if starts_with pattern (c ∷ text) then some 0 else later

-- `text.find(pattern, start)` for a start within the text.
unfoldable pub find_from : List ℕ → List ℕ → ℕ → Option ℕ
unfolding find_first
find_from pattern text start = shift start (find_first pattern (drop start text))

-- `text.replace(at, n, by)`.
unfoldable pub replace_at : ℕ → ℕ → List ℕ → List ℕ → List ℕ
replace_at at n by text = take at text ++ (by ++ drop (at + n) text)

-- The loop, for at most `fuel` rounds.
unfoldable pub replace_loop : ℕ → (placeholder prefix : List ℕ) → List ℕ → ℕ → List ℕ
unfolding find_from replace_at
replace_loop zero placeholder prefix content start = content
replace_loop (suc fuel) placeholder prefix content start =
    elim (find_from placeholder content start) [
      | none ↦ content
      | some at ↦
          replace_loop fuel placeholder prefix (replace_at at (length placeholder) prefix content)
            (at + length prefix)
    ]

abbrev pub robot_prefix : List ℕ
robot_prefix = codes "<robot_prefix>"

-- `robot_id` is the namespace of the node without the slash in front.
unfoldable pub frame_prefix : List ℕ → List ℕ
frame_prefix robot_id = if is_empty robot_id then [] else robot_id ++ codes "_"

-- What is written, with as much fuel as the template has characters, and one.
unfoldable pub nav2_params : List ℕ → List ℕ → List ℕ
unfolding replace_loop frame_prefix
nav2_params robot_id template =
    replace_loop (suc (length template)) robot_prefix (frame_prefix robot_id) template 0
