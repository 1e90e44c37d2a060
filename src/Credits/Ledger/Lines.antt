-- ===== src/Credits/Ledger/Lines.antt =====
-- The lines of an entry: `check_lines`, sorting, and their totals (src/credits/ledger.ts, `post`).
use platform_core.Base.{◌≡◌, refl, ◌∙◌, ◌&&◌, List, [], ◌∷◌, All, if◌then◌else◌, arith}
use platform_core.Base.Int.{ℤ, pos, ◌+ℤ◌, ◌≤ℤ◌, int_laws}
use platform_core.Credits.Types.{Side, Code, code_eq, JournalLine, ok}
use platform_core.Credits.Ledger.Post.{side_eq, check_lines, insert_line, sort_lines}

abbrev pub IsPositive : JournalLine → Type 0
IsPositive l = pos 1 ≤ℤ l.amount

-- The amounts on one side of an entry.
unfoldable pub line_total : Side → List JournalLine → ℤ
line_total s [] = pos 0
line_total s (l ∷ ls) = if side_eq l.side s then l.amount +ℤ line_total s ls else line_total s ls

-- The amounts on one side of an entry that fall on one account.
unfoldable pub line_account_total : Side → Code → List JournalLine → ℤ
line_account_total s c [] = pos 0
line_account_total s c (l ∷ ls) =
    if side_eq l.side s && code_eq l.account_code c
    then l.amount +ℤ line_account_total s c ls
    else line_account_total s c ls

-- Lines that pass the check are positive, and the two results are the totals of the two sides.
pub check_lines_sound :
    (ls : List JournalLine) (d c : ℤ) {d' c' : ℤ}
    → check_lines ls d c ≡ ok (d', c')
    → (d' ≡ d +ℤ line_total Side.debit ls)
      × (c' ≡ c +ℤ line_total Side.credit ls)
      × All IsPositive ls
unfolding check_lines line_total
check_lines_sound [] d c h = grind (int_laws, h)
check_lines_sound (l ∷ ls) d c h = grind (
  int_laws,
  check_lines_sound ls (if side_eq l.side Side.debit then d +ℤ l.amount else d)
      (if side_eq l.side Side.debit then c else c +ℤ l.amount),
)

line_total-insert_line :
    (s : Side) (l : JournalLine) (ls : List JournalLine)
    → line_total s (insert_line l ls) ≡ line_total s (l ∷ ls)
unfolding line_total insert_line
line_total-insert_line s l [] = refl
line_total-insert_line s l (m ∷ ms) = grind (int_laws, line_total-insert_line s l ms)

pub line_total-sort_lines :
    (s : Side) (ls : List JournalLine) → line_total s (sort_lines ls) ≡ line_total s ls
unfolding sort_lines line_total
line_total-sort_lines s [] = refl
line_total-sort_lines s (l ∷ ls) =
    line_total-insert_line s l (sort_lines ls) ∙ ground (arith, line_total-sort_lines s ls)

line_account_total-insert_line :
    (s : Side) (c : Code) (l : JournalLine) (ls : List JournalLine)
    → line_account_total s c (insert_line l ls) ≡ line_account_total s c (l ∷ ls)
unfolding line_account_total insert_line
line_account_total-insert_line s c l [] = refl
line_account_total-insert_line s c l (m ∷ ms) =
    grind (int_laws, line_account_total-insert_line s c l ms)

pub line_account_total-sort_lines :
    (s : Side) (c : Code) (ls : List JournalLine)
    → line_account_total s c (sort_lines ls) ≡ line_account_total s c ls
unfolding sort_lines line_account_total
line_account_total-sort_lines s c [] = refl
line_account_total-sort_lines s c (l ∷ ls) =
    line_account_total-insert_line s c l (sort_lines ls)
    ∙ ground (arith, line_account_total-sort_lines s c ls)
