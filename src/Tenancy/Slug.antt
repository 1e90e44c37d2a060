-- ===== src/Tenancy/Slug.antt =====
-- Slugs of organisations: `slugify` of src/tenancy/drizzle-org-repository.ts and `validateSlug` of
-- src/tenancy/org-service.ts. A text is the list of its UTF-16 code units.
use platform_core.Base.{
  ℕ, Bool, true, false, ◌&&◌, ◌||◌, ◌==◌, leb, List, [], ◌∷◌, ◌++◌, filter, length, if◌then◌else◌,
  ◌+◌,
}
pub mod Laws

abbrev pub between : ℕ → ℕ → ℕ → Bool
between lo hi c = leb lo c && leb c hi

abbrev pub is_alnum : ℕ → Bool
is_alnum c = between b'a' b'z' c || between b'0' b'9' c

-- `[a-z0-9-]`.
abbrev pub is_slug_char : ℕ → Bool
is_slug_char c = is_alnum c || (c == b'-')

-- `\s`, which `trim` goes by too.
unfoldable pub is_space : ℕ → Bool
is_space c =
    between 0x09 0x0d c
    || (c == 0x20)
    || (c == 0xa0)
    || (c == 0x1680)
    || between 0x2000 0x200a c
    || (c == 0x2028)
    || (c == 0x2029)
    || (c == 0x202f)
    || (c == 0x205f)
    || (c == 0x3000)
    || (c == 0xfeff)

-- `toLowerCase` as far as `slugify` keeps its result: besides the capitals, the Kelvin sign and the
-- dotted capital I have a lower_all case with a letter of ASCII. Any other unit keeps out of ASCII.
unfoldable pub to_lower : ℕ → ℕ
to_lower c =
    if between b'A' b'Z' c
    then c + 32
    else if c == 0x212a
    then b'k'
    else if c == 0x130
    then b'i'
    else c

abbrev pub lower_all : List ℕ → List ℕ
lower_all [] = []
lower_all (c ∷ cs) = to_lower c ∷ lower_all cs

abbrev pub trim_start : List ℕ → List ℕ
trim_start [] = []
trim_start (c ∷ cs) = if is_space c then trim_start cs else c ∷ cs

abbrev pub snoc_trimmed : ℕ → List ℕ → List ℕ
snoc_trimmed c [] = if is_space c then [] else c ∷ []
snoc_trimmed c (d ∷ ds) = c ∷ d ∷ ds

abbrev pub trim_end : List ℕ → List ℕ
trim_end [] = []
trim_end (c ∷ cs) = snoc_trimmed c (trim_end cs)

-- `replace(/\s+/g, "-")`; the flag says whether the unit before was a space.
abbrev pub hyphenate : Bool → List ℕ → List ℕ
hyphenate after [] = []
hyphenate true (c ∷ cs) = if is_space c then hyphenate true cs else c ∷ hyphenate false cs
hyphenate false (c ∷ cs) = if is_space c then b'-' ∷ hyphenate true cs else c ∷ hyphenate false cs

-- `replace(/-+/g, "-")`; the flag says whether the unit before was a hyphen.
abbrev pub collapse : Bool → List ℕ → List ℕ
collapse after [] = []
collapse true (c ∷ cs) = if c == b'-' then collapse true cs else c ∷ collapse false cs
collapse false (c ∷ cs) = if c == b'-' then c ∷ collapse true cs else c ∷ collapse false cs

-- `replace(/^-|-$/g, "")`, which takes one hyphen off each end.
abbrev pub drop_first_hyphen : List ℕ → List ℕ
drop_first_hyphen [] = []
drop_first_hyphen (c ∷ cs) = if c == b'-' then cs else c ∷ cs

abbrev pub drop_last_hyphen : List ℕ → List ℕ
drop_last_hyphen [] = []
drop_last_hyphen (c ∷ []) = if c == b'-' then [] else c ∷ []
drop_last_hyphen (c ∷ d ∷ ds) = c ∷ drop_last_hyphen (d ∷ ds)

unfoldable pub slugify : List ℕ → List ℕ
slugify name = drop_last_hyphen (
    drop_first_hyphen (
      collapse false
        (filter is_slug_char (hyphenate false (trim_end (trim_start (lower_all name)))))))

abbrev pub all_chars : (ℕ → Bool) → List ℕ → Bool
all_chars p [] = true
all_chars p (c ∷ cs) = p c && all_chars p cs

abbrev pub starts_alnum : List ℕ → Bool
starts_alnum [] = false
starts_alnum (c ∷ cs) = is_alnum c

abbrev pub ends_alnum : List ℕ → Bool
ends_alnum [] = false
ends_alnum (c ∷ []) = is_alnum c
ends_alnum (c ∷ d ∷ ds) = ends_alnum (d ∷ ds)

-- `/^[a-z0-9][a-z0-9-]{1,46}[a-z0-9]$/`.
unfoldable pub validate_slug : List ℕ → Bool
validate_slug s =
    leb 3 (length s)
    && leb (length s) 48
    && starts_alnum s
    && all_chars is_slug_char s
    && ends_alnum s
