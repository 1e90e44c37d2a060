-- ===== src/Metering/Wal.antt =====
-- The write-ahead log (src/metering/wal.ts): a file of lines, one event in JSON to a line. A crash
-- while a line is written leaves a part of it, without the closing brace and the newline.
use platform_core.Base.{
  ℕ, zero, suc, Bool, true, false, not, Option, none, some, List, [], ◌∷◌, ◌++◌, filter, includes,
  length, nat_eq,
}
use platform_core.Metering.Types.{IdEvent}

pub data Piece : Type 0 where
  line : IdEvent → Piece
  torn : Piece

-- `none` where the file does not exist.
abbrev pub File : Type 0
File = Option (List Piece)

abbrev pub pieces : File → List Piece
pieces none = []
pieces (some ps) = ps

-- The lines between newlines that parse. A line that starts with a torn part does not, whatever
-- follows it up to the next newline.
unfoldable pub read_lines : Bool → List Piece → List IdEvent
read_lines broken [] = []
read_lines false (line e ∷ ps) = e ∷ read_lines false ps
read_lines true (line e ∷ ps) = read_lines false ps
read_lines broken (torn ∷ ps) = read_lines true ps

unfoldable pub read_all : File → List IdEvent
unfolding read_lines
read_all f = read_lines false (pieces f)

unfoldable pub append : IdEvent → File → File
append e f = some (pieces f ++ line e ∷ [])

abbrev pub write_lines : List IdEvent → List Piece
write_lines [] = []
write_lines (e ∷ es) = line e ∷ write_lines es

-- The file that `remove` leaves for the events that stay.
abbrev pub rewrite : List IdEvent → File
rewrite [] = none
rewrite (e ∷ es) = some (write_lines (e ∷ es))

-- The events whose ids are not among these.
abbrev pub without : List ℕ → List IdEvent → List IdEvent
without event_ids = filter (λ (e : IdEvent). not (includes event_ids e.id))

-- When no crash comes before it returns; see `remove_cut`.
unfoldable pub remove : List ℕ → File → File
unfolding read_all
remove event_ids none = none
remove [] (some ps) = some ps
remove (i ∷ is) (some ps) = rewrite (without (i ∷ is) (read_all (some ps)))

-- What is on disk when a crash comes while `writeFileSync` writes these lines, after so many of them: the
-- call empties the file first.
abbrev pub cut_lines : ℕ → List IdEvent → List Piece
cut_lines zero [] = []
cut_lines (suc n) [] = []
cut_lines zero (e ∷ es) = torn ∷ []
cut_lines (suc n) (e ∷ es) = line e ∷ cut_lines n es

abbrev pub rewrite_cut : ℕ → List IdEvent → File
rewrite_cut n [] = none
rewrite_cut n (e ∷ es) = some (cut_lines n (e ∷ es))

-- `remove` up to a crash inside its rewrite, after so many lines.
unfoldable pub remove_cut : ℕ → List ℕ → File → File
unfolding read_all
remove_cut n event_ids none = none
remove_cut n [] (some ps) = some ps
remove_cut n (i ∷ is) (some ps) = rewrite_cut n (without (i ∷ is) (read_all (some ps)))

unfoldable pub clear : File → File
clear f = none

unfoldable pub is_empty : File → Bool
is_empty none = true
is_empty (some []) = true
is_empty (some (p ∷ ps)) = false

unfoldable pub count : File → ℕ
unfolding read_all
count f = length (read_all f)
