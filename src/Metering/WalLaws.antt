-- ===== src/Metering/WalLaws.antt =====
-- What the log holds after an append and a removal, and after a line that a crash cut.
use platform_core.Base.{
  ℕ, zero, suc, ◌≡◌, refl, ap, Bool, true, false, none, some, List, [], ◌∷◌, ◌++◌, take, nat_eq,
}
use platform_core.Metering.Types.{IdEvent}
use platform_core.Metering.Wal.{
  Piece, line, torn, File, pieces, read_lines, read_all, append, write_lines, rewrite, without,
  remove, cut_lines, rewrite_cut, remove_cut,
}

-- No line is cut.
abbrev pub IsWhole : List Piece → Type 0
IsWhole [] = Unit {0}
IsWhole (line e ∷ ps) = IsWhole ps
IsWhole (torn ∷ ps) = ⊥

read_lines-append :
    (ps : List Piece) (e : IdEvent)
    → IsWhole ps
    → read_lines false (ps ++ line e ∷ []) ≡ read_lines false ps ++ e ∷ []
unfolding read_lines
read_lines-append [] e h = refl
read_lines-append (line d ∷ ps) e h = ap (λ es. d ∷ es) (read_lines-append ps e h)
read_lines-append (torn ∷ ps) e h = elim h [ ]

pub read_all-append :
    (e : IdEvent) (f : File) → IsWhole (pieces f) → read_all (append e f) ≡ read_all f ++ e ∷ []
unfolding read_all append
read_all-append e f h = read_lines-append (pieces f) e h

pub append-IsWhole : (e : IdEvent) (f : File) → IsWhole (pieces f) → IsWhole (pieces (append e f))
unfolding append
append-IsWhole e f h = whole (pieces f) h
  where
    whole : (ps : List Piece) → IsWhole ps → IsWhole (ps ++ line e ∷ [])
    whole [] k = tt
    whole (line d ∷ ps) k = whole ps k
    whole (torn ∷ ps) k = elim k [ ]

read_lines-write_lines : (es : List IdEvent) → read_lines false (write_lines es) ≡ es
unfolding read_lines
read_lines-write_lines [] = refl
read_lines-write_lines (e ∷ es) = ap (λ fs. e ∷ fs) (read_lines-write_lines es)

read_all-rewrite : (es : List IdEvent) → read_all (rewrite es) ≡ es
unfolding read_all
read_all-rewrite [] = unfold read_lines in refl
read_all-rewrite (e ∷ es) = read_lines-write_lines (e ∷ es)

without-nil : (es : List IdEvent) → es ≡ without [] es
without-nil [] = refl
without-nil (e ∷ es) = ap (λ fs. e ∷ fs) (without-nil es)

-- A removal keeps the other events, in their order.
pub read_all-remove : (is : List ℕ) (f : File) → read_all (remove is f) ≡ without is (read_all f)
unfolding remove
read_all-remove is none = unfold read_all read_lines in refl
read_all-remove [] (some ps) = without-nil (read_all (some ps))
read_all-remove (i ∷ is) (some ps) = read_all-rewrite (without (i ∷ is) (read_all (some ps)))

write_lines-IsWhole : (es : List IdEvent) → IsWhole (write_lines es)
write_lines-IsWhole [] = tt
write_lines-IsWhole (e ∷ es) = write_lines-IsWhole es

pub remove-IsWhole : (is : List ℕ) (f : File) → IsWhole (pieces f) → IsWhole (pieces (remove is f))
unfolding remove
remove-IsWhole is none h = h
remove-IsWhole [] (some ps) h = h
remove-IsWhole (i ∷ is) (some ps) h = rewritten (without (i ∷ is) (read_all (some ps)))
  where
    rewritten : (es : List IdEvent) → IsWhole (pieces (rewrite es))
    rewritten [] = tt
    rewritten (e ∷ es) = write_lines-IsWhole (e ∷ es)

read_lines-cut_lines : (n : ℕ) (es : List IdEvent) → read_lines false (cut_lines n es) ≡ take n es
unfolding read_lines
read_lines-cut_lines zero [] = refl
read_lines-cut_lines (suc n) [] = refl
read_lines-cut_lines zero (e ∷ es) = refl
read_lines-cut_lines (suc n) (e ∷ es) = ap (λ fs. e ∷ fs) (read_lines-cut_lines n es)

-- After a crash inside the rewrite of a removal that has written so many whole lines, only so many of
-- the events that were to stay are read back: the others are lost, where the removal would have kept
-- them all.
pub read_all-remove_cut :
    (n i : ℕ) (is : List ℕ) (ps : List Piece)
    → (read_all (remove_cut n (i ∷ is) (some ps)) ≡ take n (without (i ∷ is) (read_all (some ps))))
      × (read_all (remove (i ∷ is) (some ps)) ≡ without (i ∷ is) (read_all (some ps)))
unfolding remove_cut
read_all-remove_cut n i is ps =
    (cut (without (i ∷ is) (read_all (some ps))), read_all-remove (i ∷ is) (some ps))
  where
    none_left : (m : ℕ) → [] ≡ take {A = IdEvent} m []
    none_left zero = refl
    none_left (suc m) = refl

    cut : (es : List IdEvent) → read_all (rewrite_cut n es) ≡ take n es
    cut [] = unfold read_all read_lines in none_left n
    cut (e ∷ es) = unfold read_all in read_lines-cut_lines n (e ∷ es)

read_lines-after_torn :
    (broken : Bool) (ps : List Piece) (e : IdEvent)
    → read_lines broken ((ps ++ torn ∷ []) ++ line e ∷ []) ≡ read_lines broken ps
unfolding read_lines
read_lines-after_torn true [] e = refl
read_lines-after_torn false [] e = refl
read_lines-after_torn false (line d ∷ ps) e = ap (λ es. d ∷ es) (read_lines-after_torn false ps e)
read_lines-after_torn true (line d ∷ ps) e = read_lines-after_torn false ps e
read_lines-after_torn true (torn ∷ ps) e = read_lines-after_torn true ps e
read_lines-after_torn false (torn ∷ ps) e = read_lines-after_torn true ps e

-- An event appended to a log whose last line a crash has cut is not read back: the log holds what it
-- held before the cut line.
pub append-after_torn :
    (ps : List Piece) (e : IdEvent)
    → read_all (append e (some (ps ++ torn ∷ []))) ≡ read_all (some ps)
unfolding read_all append
append-after_torn ps e = read_lines-after_torn false ps e
