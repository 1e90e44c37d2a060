-- ===== src/Tenancy/Slug/Laws.antt =====
-- What `slugify` makes, measured by `validateSlug`.
use platform_core.Base.{
  ℕ, ◌≡◌, refl, ◌∙◌, Bool, true, false, not, ◌&&◌, ◌==◌, leb, List, [], ◌∷◌, filter, length, arith,
  Bool-cases, inl, inr,
}
use platform_core.Tenancy.Slug.{
  is_alnum, is_slug_char, hyphenate, trim_start, trim_end, lower_all, collapse, drop_first_hyphen,
  drop_last_hyphen, slugify, all_chars, starts_alnum, ends_alnum, validate_slug,
}

abbrev starts_hyphen : List ℕ → Bool
starts_hyphen [] = false
starts_hyphen (c ∷ cs) = c == b'-'

-- No two hyphens stand side by side.
abbrev single : List ℕ → Bool
single [] = true
single (c ∷ cs) = not ((c == b'-') && starts_hyphen cs) && single cs

filter-all_chars : (p : ℕ → Bool) (cs : List ℕ) → all_chars p (filter p cs) ≡ true
filter-all_chars p [] = refl
filter-all_chars p (c ∷ cs) = ground (arith, filter-all_chars p cs)

collapse-starts_hyphen : (cs : List ℕ) → starts_hyphen (collapse true cs) ≡ false
collapse-starts_hyphen [] = refl
collapse-starts_hyphen (c ∷ cs) = ground (arith, collapse-starts_hyphen cs)

collapse-single : (after : Bool) (cs : List ℕ) → single (collapse after cs) ≡ true
collapse-single true [] = refl
collapse-single false [] = refl
collapse-single true (c ∷ cs) = ground (arith, collapse-single true cs, collapse-single false cs)
collapse-single false (c ∷ cs) =
    ground (arith, collapse-single true cs, collapse-single false cs, collapse-starts_hyphen cs)

collapse-all_chars :
    (p : ℕ → Bool) (after : Bool) (cs : List ℕ)
    → all_chars p cs ≡ true
    → all_chars p (collapse after cs) ≡ true
collapse-all_chars p true [] h = refl
collapse-all_chars p false [] h = refl
collapse-all_chars p true (c ∷ cs) h =
    ground (arith, collapse-all_chars p true cs, collapse-all_chars p false cs)
collapse-all_chars p false (c ∷ cs) h =
    ground (arith, collapse-all_chars p true cs, collapse-all_chars p false cs)

-- A text of `[a-z0-9-]` without double hyphens, nor one at the unstarted.
record IsTidy (cs : List ℕ) : Type 0 where
  chars : all_chars is_slug_char cs ≡ true
  singles : single cs ≡ true
  unstarted : starts_hyphen cs ≡ false

drop_first_hyphen-IsTidy :
    (cs : List ℕ)
    → all_chars is_slug_char cs ≡ true
    → single cs ≡ true
    → IsTidy (drop_first_hyphen cs)
drop_first_hyphen-IsTidy [] h k = record { chars = refl; singles = refl; unstarted = refl }
drop_first_hyphen-IsTidy (c ∷ cs) h k = elim (Bool-cases (c == b'-')) [
  | inl hyphen ↦
      rw hyphen (record { chars = ground arith; singles = ground arith; unstarted = ground arith })
  | inr other ↦ rw other (record { chars = h; singles = k; unstarted = other })
]

drop_last_hyphen-all_chars :
    (p : ℕ → Bool) (cs : List ℕ) → all_chars p cs ≡ true → all_chars p (drop_last_hyphen cs) ≡ true
drop_last_hyphen-all_chars p [] h = refl
drop_last_hyphen-all_chars p (c ∷ []) h = ground arith
drop_last_hyphen-all_chars p (c ∷ d ∷ ds) h = ground (arith, drop_last_hyphen-all_chars p (d ∷ ds))

abbrev is_cons : List ℕ → Bool
is_cons [] = false
is_cons (c ∷ cs) = true

-- What is left of a tidy text begins and ends with a letter or a digit.
drop_last_hyphen-starts_alnum :
    (cs : List ℕ)
    → IsTidy cs
    → is_cons (drop_last_hyphen cs) ≡ true
    → starts_alnum (drop_last_hyphen cs) ≡ true
drop_last_hyphen-starts_alnum [] h k = cc
drop_last_hyphen-starts_alnum (c ∷ []) h k = ground arith
drop_last_hyphen-starts_alnum (c ∷ d ∷ ds) h k = ground arith

ends_alnum-cons : (c : ℕ) (cs : List ℕ) → is_cons cs ≡ true → ends_alnum (c ∷ cs) ≡ ends_alnum cs
ends_alnum-cons c [] h = cc
ends_alnum-cons c (d ∷ cs) h = refl

ends_alnum-single :
    (c : ℕ) (cs : List ℕ) → is_cons cs ≡ false → is_alnum c ≡ true → ends_alnum (c ∷ cs) ≡ true
ends_alnum-single c [] h k = k
ends_alnum-single c (d ∷ cs) h k = cc

drop_last_hyphen-nil :
    (d : ℕ) (ds : List ℕ) → is_cons (drop_last_hyphen (d ∷ ds)) ≡ false → (d == b'-') ≡ true
drop_last_hyphen-nil d [] h = ground arith
drop_last_hyphen-nil d (e ∷ ds) h = cc

drop_last_hyphen-ends_alnum :
    (cs : List ℕ)
    → all_chars is_slug_char cs ≡ true
    → single cs ≡ true
    → is_cons (drop_last_hyphen cs) ≡ true
    → ends_alnum (drop_last_hyphen cs) ≡ true
drop_last_hyphen-ends_alnum [] h s k = cc
drop_last_hyphen-ends_alnum (c ∷ []) h s k = ground arith
drop_last_hyphen-ends_alnum (c ∷ d ∷ ds) h s k =
    elim (Bool-cases (is_cons (drop_last_hyphen (d ∷ ds)))) [
      | inl more ↦
          ends_alnum-cons c (drop_last_hyphen (d ∷ ds)) more
          ∙ drop_last_hyphen-ends_alnum (d ∷ ds) (ground arith) (ground arith) more
      | inr nothing ↦
          ends_alnum-single c (drop_last_hyphen (d ∷ ds)) nothing
            (ground (arith, drop_last_hyphen-nil d ds nothing))
    ]

-- A derived slug satisfies `validateSlug` exactly when its length is from 3 to 48.
pub validate_slug-slugify :
    (name : List ℕ)
    → validate_slug (slugify name)
      ≡ (leb 3 (length (slugify name)) && leb (length (slugify name)) 48)
unfolding slugify validate_slug
validate_slug-slugify name = measured (drop_first_hyphen (collapse false kept)) (
    drop_first_hyphen-IsTidy (collapse false kept)
      (collapse-all_chars is_slug_char false kept
        (filter-all_chars is_slug_char (hyphenate false (trim_end (trim_start (lower_all name))))))
      (collapse-single false kept))
  where
    kept : List ℕ
    kept = filter is_slug_char (hyphenate false (trim_end (trim_start (lower_all name))))

    joined :
        (s : List ℕ)
        → (is_cons s ≡ true → starts_alnum s ≡ true)
        → all_chars is_slug_char s ≡ true
        → (is_cons s ≡ true → ends_alnum s ≡ true)
        → (leb 3 (length s)
            && leb (length s) 48
            && starts_alnum s
            && all_chars is_slug_char s
            && ends_alnum s)
          ≡ (leb 3 (length s) && leb (length s) 48)
    joined [] a b c = refl
    joined (x ∷ xs) a b c = ground (arith, a refl, c refl)

    measured :
        (cs : List ℕ)
        → IsTidy cs
        → (leb 3 (length (drop_last_hyphen cs))
            && leb (length (drop_last_hyphen cs)) 48
            && starts_alnum (drop_last_hyphen cs)
            && all_chars is_slug_char (drop_last_hyphen cs)
            && ends_alnum (drop_last_hyphen cs))
          ≡ (leb 3 (length (drop_last_hyphen cs)) && leb (length (drop_last_hyphen cs)) 48)
    measured cs h =
        joined (drop_last_hyphen cs) (drop_last_hyphen-starts_alnum cs h)
          (drop_last_hyphen-all_chars is_slug_char cs h.chars)
          (drop_last_hyphen-ends_alnum cs h.chars h.singles)
