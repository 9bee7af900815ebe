-- ===== src/GoText/Lines.antt =====
-- bufio.Scanner on lines, as long as they may be, and strings.Trim.
use gosible.Base.{
  All, or_false, append_assoc, ℕ, ◌≡◌, refl, false, List, [], ◌∷◌, ◌++◌, ◌==◌, if◌then◌else◌, map,
  is_empty, inl, inr, Bool-cases, ap, ◌∙◌, arith,
}
use gosible.GoText.Laws.{join-split}
use gosible.GoText.{
  push_first, contains_byte, join, codes, Str, split, trim_left, trim_right, trim_space, push_kept,
  is_space,
}

-- A line ends at "\n" or "\r\n".
unfoldable pub strip_cr : Str → Str
strip_cr [] = []
strip_cr (c ∷ []) = if c == b'\r' then [] else c ∷ []
strip_cr (c ∷ d ∷ s) = c ∷ strip_cr (d ∷ s)

-- There is no line after the last end of line.
abbrev pub without_last_empty : List Str → List Str
without_last_empty [] = []
without_last_empty (l ∷ []) = if is_empty l then [] else l ∷ []
without_last_empty (l ∷ m ∷ ls) = l ∷ without_last_empty (m ∷ ls)

unfoldable pub scan_lines : Str → List Str
unfolding split strip_cr
scan_lines s = map strip_cr (without_last_empty (split b'\n' s))

unfoldable pub trim_left_byte : ℕ → Str → Str
trim_left_byte b [] = []
trim_left_byte b (c ∷ s) = let rest = trim_left_byte b s in if c == b then rest else c ∷ s

abbrev push_other : ℕ → ℕ → Str → Str
push_other b c [] = if c == b then [] else c ∷ []
push_other b c (d ∷ s) = c ∷ d ∷ s

unfoldable pub trim_right_byte : ℕ → Str → Str
trim_right_byte b [] = []
trim_right_byte b (c ∷ s) = push_other b c (trim_right_byte b s)

-- strings.Trim(s, b), for one byte
unfoldable pub trim_byte : ℕ → Str → Str
unfolding trim_left_byte trim_right_byte
trim_byte b s = trim_right_byte b (trim_left_byte b s)

trim_right-strip_cr : (s : Str) → trim_right (strip_cr s) ≡ trim_right s
unfolding trim_right strip_cr
trim_right-strip_cr [] = refl
trim_right-strip_cr (c ∷ []) = elim (Bool-cases (c == b'\r')) [
  | inl e ↦ ground arith
  | inr e ↦ rw e refl
]
trim_right-strip_cr (c ∷ d ∷ s) = ap (push_kept c) (trim_right-strip_cr (d ∷ s))

-- The white space at the ends of a line takes a carriage return with it.
pub trim_space-strip_cr : (s : Str) → trim_space (strip_cr s) ≡ trim_space s
unfolding trim_space trim_left strip_cr
trim_space-strip_cr [] = refl
trim_space-strip_cr (c ∷ []) = elim (Bool-cases (c == b'\r')) [
  | inl e ↦ ground arith
  | inr e ↦ rw e refl
]
trim_space-strip_cr (c ∷ d ∷ s) = elim (Bool-cases (is_space c)) [
  | inl e ↦ rw e (trim_space-strip_cr (d ∷ s))
  | inr e ↦ rw e (trim_right-strip_cr (c ∷ d ∷ s))
]

abbrev pub IsLine : Str → Type 0
IsLine s = contains_byte b'\n' s ≡ false

push_first-IsLine :
    (x : ℕ) (ps : List Str) → (x == b'\n') ≡ false → All IsLine ps → All IsLine (push_first x ps)
unfolding contains_byte
push_first-IsLine x [] h k = (rw h refl, tt)
push_first-IsLine x (p ∷ ps) h k = (rw h k.0, k.1)

split-IsLine : (s : Str) → All IsLine (split b'\n' s)
unfolding split contains_byte
split-IsLine [] = (refl, tt)
split-IsLine (x ∷ s) = elim (Bool-cases (x == b'\n')) [
  | inl e ↦ rw e (refl, split-IsLine s)
  | inr e ↦ rw e (push_first-IsLine x (split b'\n' s) e (split-IsLine s))
]

strip_cr-IsLine : (s : Str) → IsLine s → IsLine (strip_cr s)
unfolding strip_cr contains_byte
strip_cr-IsLine [] h = refl
strip_cr-IsLine (c ∷ []) h = elim (Bool-cases (c == b'\r')) [ inl e ↦ rw e refl | inr e ↦ rw e h ]
strip_cr-IsLine (c ∷ d ∷ s) h =
    let (a, b) = or_false (c == b'\n') _ h in rw a (strip_cr-IsLine (d ∷ s) b)

map-IsLine : (ls : List Str) → All IsLine ls → All IsLine (map strip_cr ls)
map-IsLine [] h = tt
map-IsLine (l ∷ ls) h = (strip_cr-IsLine l h.0, map-IsLine ls h.1)

without_last_empty-IsLine : (ls : List Str) → All IsLine ls → All IsLine (without_last_empty ls)
without_last_empty-IsLine [] h = tt
without_last_empty-IsLine ([] ∷ []) h = tt
without_last_empty-IsLine ((c ∷ l) ∷ []) h = h
without_last_empty-IsLine (l ∷ m ∷ ls) h = (h.0, without_last_empty-IsLine (m ∷ ls) h.1)

-- No line has an end of line in it.
pub scan_lines-IsLine : (s : Str) → All IsLine (scan_lines s)
unfolding scan_lines
scan_lines-IsLine s =
    map-IsLine (without_last_empty (split b'\n' s))
      (without_last_empty-IsLine (split b'\n' s) (split-IsLine s))

-- `strings.Join(lines, "\n") + "\n"`
unfoldable pub unlines : List Str → Str
unfolding join
unlines ls = join (codes "\n") ls ++ codes "\n"

All-concat : (ls : List Str) → All IsLine ls → All IsLine (ls ++ [] ∷ [])
unfolding contains_byte
All-concat [] h = (refl, tt)
All-concat (l ∷ ls) h = (h.0, All-concat ls h.1)

unlines-cons : (l : Str) (ls : List Str) → unlines (l ∷ ls) ≡ join (codes "\n") (l ∷ ls ++ [] ∷ [])
unfolding unlines join
unlines-cons l [] = refl
unlines-cons l (m ∷ ls) =
    append_assoc l (codes "\n" ++ join (codes "\n") (m ∷ ls)) (codes "\n")
    ∙ ap (λ t. l ++ (codes "\n" ++ t)) (unlines-cons m ls)

without_last_empty-concat : (ls : List Str) → without_last_empty (ls ++ [] ∷ []) ≡ ls
without_last_empty-concat [] = refl
without_last_empty-concat (l ∷ []) = refl
without_last_empty-concat (l ∷ m ∷ ls) = ap (λ t. l ∷ t) (without_last_empty-concat (m ∷ ls))

-- Lines that are written are read again, each without a carriage return at its end.
pub scan_lines-unlines :
    (l : Str) (ls : List Str)
    → All IsLine (l ∷ ls)
    → scan_lines (unlines (l ∷ ls)) ≡ map strip_cr (l ∷ ls)
unfolding scan_lines
scan_lines-unlines l ls h =
    ap (λ t. map strip_cr (without_last_empty (split b'\n' t))) (unlines-cons l ls)
    ∙ ap (λ t. map strip_cr (without_last_empty t))
        (join-split b'\n' l (ls ++ [] ∷ []) (All-concat (l ∷ ls) h))
    ∙ ap (map strip_cr) (without_last_empty-concat (l ∷ ls))
