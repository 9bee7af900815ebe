-- ===== src/Parsing/Quoting.antt =====
-- parsing/quoting.go
use gosible.Base.{
  ℕ, ◌-◌, Bool, false, not, ◌&&◌, ◌||◌, none, some, [], ◌∷◌, ◌==◌, ltb, if◌then◌else◌, length,
  get_elem?, take, drop,
}
use gosible.GoText.{Str}

abbrev pub double_quote : ℕ
double_quote = 34

abbrev pub single_quote : ℕ
single_quote = 39

abbrev pub backslash : ℕ
backslash = 92

-- `s[i] == c`, false out of range
abbrev pub byte_is : Str → ℕ → ℕ → Bool
byte_is s i c = elim (get_elem? s i) [ none ↦ false | some b ↦ b == c ]

-- `s[0] == s[len(s)-1]`
same_ends : Str → Bool
same_ends [] = false
same_ends (c ∷ s) = byte_is (c ∷ s) (length s) c

unfoldable pub is_quoted : Str → Bool
unfolding same_ends
is_quoted s =
    if ltb (length s) 2
    then false
    else same_ends s
      && (byte_is s 0 double_quote || byte_is s 0 single_quote)
      && not (byte_is s (length s - 2) backslash)

-- `s[1 : len(s)-1]`
unfoldable pub unquote : Str → Str
unfolding is_quoted
unquote s = if is_quoted s then take (length s - 2) (drop 1 s) else s
