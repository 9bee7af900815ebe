-- ===== src/Parsing/Splitter/Safety.antt =====
-- parsing/splitter.go: `splitArgs`, and its index of the last parameter.
use gosible.Base.{
  ◌==◌, ◌||◌, none, some, ℕ, ◌≡◌, ◌≢◌, refl, Bool, true, false, not, ◌&&◌, List, [], ◌∷◌, ◌++◌,
  arith, ok, err, panic, ◌>>=◌, is_empty, ltb, ensures, ensures-bind, no_panic,
}
use gosible.GoText.{Str, count, codes, split, str_eq}
use gosible.GoText.Laws.{split-cases}
use gosible.Parsing.Splitter.{
  count_jinja2_blocks, Quote, inside, get_quote_state, Split, State, initial, glued, append_last,
  append_if, place, settle, step_token, step_tokens, step_line, end_line, step_lines, finish,
  split_args,
}

-- a parameter is there
abbrev some_params : List Str → Bool
some_params ps = not (is_empty ps)

abbrev placed_params : List Str × Bool → Bool
placed_params placed = some_params placed.0

abbrev has_params : State → Bool
has_params s = some_params s.params

some_params-concat : (ps : List Str) (p : Str) → some_params (ps ++ p ∷ []) ≡ true
some_params-concat [] p = refl
some_params-concat (q ∷ ps) p = refl

append_last-some_params :
    (s : Str) (ps : List Str)
    → some_params ps ≡ true
    → ensures some_params (append_last s ps) ≡ true
unfolding append_last
append_last-some_params s [] h = cc
append_last-some_params s (p ∷ []) h = refl
append_last-some_params s (p ∷ q ∷ ps) h = ground (arith, append_last-some_params s (q ∷ ps) refl)

append_if-some_params :
    (b : Bool) (token : Str) (placed : List Str × Bool)
    → placed_params placed ≡ true
    → placed_params (append_if b token placed) ≡ true
unfolding append_if
append_if-some_params b token (ps, a) h = ground (arith, some_params-concat ps token)

settle-has_params :
    (token : Str) (q : Quote) (s : State) (placed : List Str × Bool)
    → placed_params placed ≡ true
    → has_params (settle token q s placed) ≡ true
unfolding settle
settle-has_params token q s placed h = search (append_if-some_params)

place-placed_params :
    (many first : Bool) (token : Str) (q : Quote) (s : State)
    → has_params s ≡ true
    → ensures placed_params (place many first token q s) ≡ true
unfolding place
place-placed_params many first token q s h = ground (
  arith,
  some_params-concat s.params token,
  append_last-some_params (glued many first (inside s.quote) token) s.params,
)

step_token-has_params :
    (many first : Bool) (token : Str) (s : State)
    → has_params s ≡ true
    → ensures has_params (step_token many first token s) ≡ true
unfolding step_token
step_token-has_params many first token s h =
    let q = get_quote_state token s.quote in
    ground (
      arith,
      append_last-some_params (codes " ") s.params h,
      ensures-bind placed_params has_params (place many first token q s)
          (λ (placed : List Str × Bool). ok (settle token q s placed))
          (place-placed_params many first token q s h)
          (λ (placed : List Str × Bool) k. settle-has_params token q s placed k),
    )

step_tokens-has_params :
    (many first : Bool) (tokens : List Str) (s : State)
    → has_params s ≡ true
    → ensures has_params (step_tokens many first tokens s) ≡ true
unfolding step_tokens
step_tokens-has_params many first [] s h = h
step_tokens-has_params many first (t ∷ ts) s h =
    ensures-bind has_params has_params (step_token many first t s) _
      (step_token-has_params many first t s h) (λ s' k. step_tokens-has_params many false ts s' k)

end_line-has_params :
    (more : Bool) (s : State) → has_params s ≡ true → ensures has_params (end_line more s) ≡ true
unfolding end_line
end_line-has_params more s h = ground (arith, append_last-some_params (codes "\n") s.params h)

step_lines-has_params :
    (items : List Str) (s : State)
    → has_params s ≡ true
    → ensures has_params (step_lines items s) ≡ true
unfolding step_lines step_line
step_lines-has_params [] s h = h
step_lines-has_params (item ∷ items) s h =
    ensures-bind has_params has_params (step_line item s) _
      (step_tokens-has_params _ true (split 32 item) (record s { line_continuation = false }) h)
      (λ s' k.
        ensures-bind has_params has_params (end_line _ s') _ (end_line-has_params _ s' k)
          (λ s'' l. step_lines-has_params items s'' l))

-- Of four chances to append, one is taken.
append_if_chain :
    (b c d e : Bool) (token : Str) (ps : List Str)
    → (b ≡ false → c ≡ false → d ≡ false → e ≡ true)
    → placed_params
        (append_if e token (append_if d token (append_if c token (append_if b token (ps, false)))))
      ≡ true
unfolding append_if
append_if_chain true c d e token ps h = ground (arith, some_params-concat ps token)
append_if_chain false true d e token ps h = ground (arith, some_params-concat ps token)
append_if_chain false false true e token ps h = ground (arith, some_params-concat ps token)
append_if_chain false false false e token ps h =
    ground (arith, some_params-concat ps token, h refl refl refl)

depths_unchanged :
    (p b c : ℕ)
    → not (p == 0) ≡ false
    → not (b == 0) ≡ false
    → not (c == 0) ≡ false
    → (not (ltb 0 p || ltb 0 b || ltb 0 c) && true && true) ≡ true
depths_unchanged p b c h k l = ground arith

-- A token that is not in quotes is stored at the end, or when a depth changes.
settle_first :
    (c : ℕ) (token : Str) (ps : List Str)
    → has_params (settle (c ∷ token) none initial (ps, false)) ≡ true
unfolding settle
settle_first c token ps =
    let depth = count_jinja2_blocks (c ∷ token) 0 in
    append_if_chain _ _ _ _ (c ∷ token) ps (
      depths_unchanged (depth (codes "{{") (codes "}}")) (depth (codes "{%") (codes "%}"))
        (depth (codes "{#") (codes "#}")))

place_first :
    (many : Bool) (token : Str) (q : Quote)
    → place many true token q initial
      ≡ ok (elim q as (λ _. List Str × Bool) [ none ↦ ([], false) | some _ ↦ (token ∷ [], true) ])
unfolding place
place_first many token none = refl
place_first many token (some q) = refl

settle_quoted :
    (many : Bool) (c : ℕ) (token : Str) (q : Quote)
    → ensures has_params (
        place many true (c ∷ token) q initial >>= λ placed.
        ok (settle (c ∷ token) q initial placed))
      ≡ true
settle_quoted many c token none = rw place_first (settle_first c token [])
settle_quoted many c token (some q) =
    rw place_first (settle-has_params (c ∷ token) (some q) initial (_, true) refl)

-- The first token of a text is always stored, if it is neither empty nor a lone backslash.
first_token-has_params :
    (many : Bool) (c : ℕ) (token : Str)
    → c ≢ 92
    → ensures has_params (step_token many true (c ∷ token) initial) ≡ true
unfolding step_token str_eq
first_token-has_params many c token h =
    ground (arith, settle_quoted many c token (get_quote_state (c ∷ token) none))

split_cons :
    (sep c : ℕ) (s : Str)
    → c ≢ sep
    → (token : Str) × (rest : List Str) × (split sep (c ∷ s) ≡ (c ∷ token) ∷ rest)
unfolding split
split_cons sep c s h = let (token, rest, e) = split-cases sep s in (token, rest, ground (arith, e))

-- the first line of a text that begins so
step_line_first :
    (c : ℕ) (item : Str)
    → c ≢ 32
    → c ≢ 92
    → ensures has_params (step_line (c ∷ item) initial) ≡ true
unfolding step_line step_tokens
step_line_first c item not_space not_backslash =
    let (token, rest, e) = split_cons 32 c item not_space in
    rw e (
      ensures-bind has_params has_params (step_token _ true (c ∷ token) initial) _
        (first_token-has_params _ c token not_backslash)
        (λ s' k. step_tokens-has_params _ false rest s' k))

finish-no_panic : (s : State) → no_panic (finish s) ≡ true
finish-no_panic s = ground arith

no_panic-bind : (m : Split State) → ensures has_params m ≡ true → no_panic (m >>= finish) ≡ true
no_panic-bind (ok s) h = finish-no_panic s
no_panic-bind (err e) h = refl
no_panic-bind panic h = cc

-- A text that begins with a byte other than space, newline and backslash never makes `splitArgs`
-- index an empty slice: it returns its parameters, or the error of an unbalanced text.
pub split_args-no_panic :
    (c : ℕ) (s : Str) → c ≢ 32 → c ≢ 10 → c ≢ 92 → no_panic (split_args (c ∷ s)) ≡ true
unfolding split_args step_lines
split_args-no_panic c s not_space not_newline not_backslash =
    let (item, rest, e) = split_cons 10 c s not_newline in
    no_panic-bind (step_lines (split 10 (c ∷ s)) initial) (
      rw e (
        ensures-bind has_params has_params (step_line (c ∷ item) initial) _
          (step_line_first c item not_space not_backslash)
          (λ s' k.
            ensures-bind has_params has_params (end_line _ s') _ (end_line-has_params _ s' k)
              (λ s'' l. step_lines-has_params rest s'' l))))

-- A text that begins with two spaces always makes `splitArgs` panic: the second empty token is
-- added to a parameter that is not there.
pub split_args-two_spaces : (s : Str) → split_args (32 ∷ 32 ∷ s) ≡ panic
unfolding split_args step_lines step_line step_tokens step_token get_quote_state place settle
    append_if append_last split str_eq count
split_args-two_spaces s = let (item, rest, e) = split-cases 10 s in rw e
