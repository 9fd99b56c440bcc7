-- ===== src/Commands/Distance.antt =====
-- `cmd_to_lower` and `levenshtein_distance` of src/cluster/commands.cpp. The lengths are `int` in the
-- source: below 2 ^ 31 for any message that fits in memory.
pub mod Edits
use Prim.Native.Nat.{min}
use stoatpp.Prelude.{ℕ, suc, ◌+◌, Bool, List, [], ◌∷◌, map, ◌==◌, leb, ◌&&◌, if◌then◌else◌, length}
use stoatpp.Text.{Text}

-- `std::tolower` in the "C" locale, and its use on every byte.
abbrev pub to_lower : ℕ → ℕ
to_lower c = if leb b'A' c && leb c b'Z' then c + 32 else c

unfoldable pub cmd_to_lower : Text → Text
cmd_to_lower s = map to_lower s

abbrev pub cost : ℕ → ℕ → ℕ
cost x y = if x == y then 0 else 1

-- `std::min({a, b, c})`
abbrev pub min₃ : ℕ → ℕ → ℕ → ℕ
min₃ a b c = min (min a b) c

-- `d[0]`: the row 0, 1, 2, ... with one entry more than `s2` has bytes.
unfoldable pub first_row : ℕ → Text → List ℕ
first_row j [] = j ∷ []
first_row j (y ∷ s2) = j ∷ first_row (j + 1) s2

-- The cells `d[i][j]` for `j >= 1` of the row of byte `x`, from the row above and the cell to the left.
unfoldable pub cells : ℕ → Text → List ℕ → ℕ → List ℕ
cells x [] above left = []
cells x (y ∷ s2) (diagonal ∷ up ∷ above) left =
    let cell : ℕ = min₃ (up + 1) (left + 1) (diagonal + cost x y) in
    cell ∷ cells x s2 (up ∷ above) cell
cells x (y ∷ s2) above left = []

-- The loop over `i`: the last row of the table.
unfoldable pub last_row : Text → ℕ → Text → List ℕ → List ℕ
unfolding cells
last_row [] i s2 above = above
last_row (x ∷ s1) i s2 above = last_row s1 (i + 1) s2 (i ∷ cells x s2 above i)

-- `row[len2]`
unfoldable pub last_cell : List ℕ → ℕ
last_cell [] = 0
last_cell (c ∷ []) = c
last_cell (c ∷ d ∷ row) = last_cell (d ∷ row)

unfoldable pub levenshtein_distance : Text → Text → ℕ
unfolding first_row last_row last_cell
levenshtein_distance s1 s2 = last_cell (last_row s1 1 s2 (first_row 0 s2))
