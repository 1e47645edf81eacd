-- ===== src/Browse/Calendar/Grid.antt =====
-- The cells of a month (browse.go: buildBrowseCalendar).
use filestor.Base.{ℕ, zero, suc, ◌+◌, ◌-◌, ◌%◌, ◌≡◌, ◌≤◌, ◌<◌, List, [], ◌∷◌, ◌++◌, All, length}
use filestor.Browse.Calendar.{CalDay, blanks}

-- the cells of all weeks, in order
abbrev pub cells : List (List CalDay) → List CalDay
cells [] = []
cells (w ∷ ws) = w ++ cells ws

-- the cells of the days from d on
abbrev pub day_cells : (ℕ → CalDay) → ℕ → ℕ → List CalDay
day_cells cell zero d = []
day_cells cell (suc left) d = cell d ∷ day_cells cell left (d + 1)

-- What a calendar of weeks must be: the days in order behind the blanks of the first week, in weeks of
-- seven cells.
pub record IsGrid (offset : ℕ) (days : List CalDay) (weeks : List (List CalDay)) : Type 0 where
  pub pad : ℕ
  pub in_order : cells weeks ≡ blanks offset ++ (days ++ blanks pad)
  pub short : pad < 7
  pub sevens : All (λ w. length w ≡ 7) weeks

module _ (offset : ℕ) (cell : ℕ → CalDay) where
  -- A week of which `filled` cells are taken when day d comes, and k are left.
  record Filled (d filled k : ℕ) : Type 0 where
    full_week : filled + k ≡ 7
    column : filled % 7 ≡ (offset + d - 1) % 7
    started : 1 ≤ d
    first_fits : d ≡ 1 → filled < 7
    later_begun : 1 < d → 1 ≤ filled

  -- What the loop makes of a week.
  abbrev Made : ℕ → ℕ → List CalDay → List (List CalDay) → Type 0
  Made left d xs ws =
      (pad : ℕ) × (cells ws ≡ xs ++ (day_cells cell left d ++ blanks pad))
      × (pad < 7)
      × All (λ w. length w ≡ 7) ws
