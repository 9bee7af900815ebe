-- ===== src/Parsing/Splitter.antt =====
-- parsing/splitter.go: `splitArgs`, `joinArgs`, `getQuoteState`, `countJinja2Blocks`.
-- The loop's variables are the record `State`; `params[len(params)-1]` panics on an empty slice.
pub mod Safety
pub mod RoundTrip
use gosible.Base.{
  ℕ, ◌+◌, ◌-◌, Bool, true, false, not, ◌&&◌, ◌||◌, Option, none, some, List, [], ◌∷◌, ◌++◌, ◌==◌,
  ltb, if◌then◌else◌, Outcome, ok, err, panic, ◌>>=◌, ◌>>◌, length, is_empty, last?,
}
use gosible.GoText.{Str, codes, str_eq, count, split}
use gosible.Parsing.Quoting.{double_quote, single_quote, backslash}

-- `quoteChar` is "" or one quote; `insideQuotes` is always `quoteChar != ""`
abbrev pub Quote : Type 0
Quote = Option ℕ

abbrev pub inside : Quote → Bool
inside none = false
inside (some q) = true

-- one character of `getQuoteState`'s loop
unfoldable pub quote_step : Bool → ℕ → Quote → Quote
quote_step escaped c none =
    if (c == double_quote || c == single_quote) && not escaped then some c else none
quote_step escaped c (some q) =
    if (c == double_quote || c == single_quote) && not escaped
    then (if c == q then none else some q)
    else some q

quote_loop : Bool → Str → Quote → Quote
unfolding quote_step
quote_loop escaped [] q = q
quote_loop escaped (c ∷ token) q = quote_loop (c == backslash) token (quote_step escaped c q)

unfoldable pub get_quote_state : Str → Quote → Quote
unfolding quote_loop
get_quote_state token q = quote_loop false token q

-- the difference is clamped at 0
unfoldable pub count_jinja2_blocks : Str → ℕ → Str → Str → ℕ
count_jinja2_blocks token depth open_token close_token =
    let opened = count token open_token in
    let closed = count token close_token in
    if opened == closed
    then depth
    else if ltb (depth + opened) closed
    then 0
    else depth + opened - closed

pub data SplitError : Type 0 where
  unbalanced : SplitError

abbrev pub Split : Type 0 → Type 0
Split = Outcome SplitError

pub record State : Type 0 where
  pub params : List Str
  pub quote : Quote
  pub print_depth : ℕ
  pub block_depth : ℕ
  pub comment_depth : ℕ
  pub line_continuation : Bool

abbrev pub initial : State
initial = record {
  params = [];
  quote = none;
  print_depth = 0;
  block_depth = 0;
  comment_depth = 0;
  line_continuation = false;
}

-- params[len(params)-1] += s
unfoldable pub append_last : Str → List Str → Split (List Str)
append_last s [] = panic
append_last s (p ∷ []) = ok ((p ++ s) ∷ [])
append_last s (p ∷ q ∷ ps) = append_last s (q ∷ ps) >>= λ rest. ok (p ∷ rest)

abbrev pub deep : State → Bool
deep s = ltb 0 s.print_depth || ltb 0 s.block_depth || ltb 0 s.comment_depth

-- The text that is glued to the last parameter. The flags are `len(tokens) > 1` and `idx == 0`.
abbrev pub glued : Bool → Bool → Bool → Str → Str
glued many first was token =
    if first && was
    then token
    else if many
    then (if first then token else 32 ∷ token)
    else 10 ∷ token

-- `insideQuotes && !wasInsideQuotes && …`: a new parameter; else, inside anything, glue; the Bool
-- is `appended`
unfoldable pub place : Bool → Bool → Str → Quote → State → Split (List Str × Bool)
unfolding append_last
place many first token quote s =
    if inside quote && not (inside s.quote) && not (deep s)
    then ok (s.params ++ token ∷ [], true)
    else if deep s || inside quote || inside s.quote
    then append_last (glued many first (inside s.quote) token) s.params >>= (λ ps. ok (ps, true))
    else ok (s.params, false)

-- `if newDepth != prevDepth && !appended { params = append(params, token); appended = true }`
unfoldable pub append_if : Bool → Str → List Str × Bool → List Str × Bool
append_if changed token (ps, appended) =
    if changed && not appended then (ps ++ token ∷ [], true) else (ps, appended)

-- the three block counts and the last append
unfoldable pub settle : Str → Quote → State → List Str × Bool → State
unfolding count_jinja2_blocks append_if
settle token quote s placed =
    let print' = count_jinja2_blocks token s.print_depth (codes "{{") (codes "}}") in
    let block' = count_jinja2_blocks token s.block_depth (codes "{%") (codes "%}") in
    let comment' = count_jinja2_blocks token s.comment_depth (codes "{#") (codes "#}") in
    let after_print = append_if (not (print' == s.print_depth)) token placed in
    let after_block = append_if (not (block' == s.block_depth)) token after_print in
    let after_comment = append_if (not (comment' == s.comment_depth)) token after_block in
    let shallow = not (ltb 0 print' || ltb 0 block' || ltb 0 comment') in
    let finished =
      append_if (shallow && not (inside quote) && not (is_empty token)) token after_comment in
    record {
      params = finished.0;
      quote = quote;
      print_depth = print';
      block_depth = block';
      comment_depth = comment';
      line_continuation = s.line_continuation;
    }

-- the body of the loop over the tokens of a line
unfoldable pub step_token : Bool → Bool → Str → State → Split State
unfolding place settle
step_token many first token s =
    if is_empty token && not first
    then append_last (codes " ") s.params >>= (λ ps. ok (record s { params = ps }))
    else if str_eq token (codes "\\") && not (inside s.quote)
    then ok (record s { line_continuation = true })
    else let quote = get_quote_state token s.quote in
      place many first token quote s >>= λ placed. ok (settle token quote s placed)

unfoldable pub step_tokens : Bool → Bool → List Str → State → Split State
step_tokens many first [] s = ok s
step_tokens many first (token ∷ tokens) s =
    step_token many first token s >>= λ s'. step_tokens many false tokens s'

-- `lineContinuation := false`, and the loop over the tokens
unfoldable pub step_line : Str → State → Split State
unfolding step_tokens
step_line item s =
    let tokens = split 32 item in
    step_tokens (ltb 1 (length tokens)) true tokens (record s { line_continuation = false })

-- "if this was the last token in the list, and we have more than one item, add a newline back"
unfoldable pub end_line : Bool → State → Split State
unfolding append_last
end_line more s =
    if more && not s.line_continuation
    then append_last (codes "\n") s.params >>= (λ ps. ok (record s { params = ps }))
    else ok s

unfoldable pub step_lines : List Str → State → Split State
unfolding step_line end_line
step_lines [] s = ok s
step_lines (item ∷ items) s = do
  s' ← step_line item s
  s'' ← end_line (not (is_empty items)) s'
  step_lines items s''

abbrev pub finish : State → Split (List Str)
finish s = if deep s || inside s.quote then err unbalanced else ok s.params

unfoldable pub split_args : Str → Split (List Str)
unfolding step_lines
split_args args = step_lines (split 10 args) initial >>= finish

-- what is written before the next parameter
abbrev pub glue : Option ℕ → Str
glue none = []
glue (some c) = if c == 10 then [] else 32 ∷ []

-- `result.NonEmpty` and `result.LastChar` are those of the text so far
unfoldable pub join_onto : Str → List Str → Str
join_onto result [] = result
join_onto result (p ∷ ps) = join_onto (result ++ (glue (last? result) ++ p)) ps

unfoldable pub join_args : List Str → Str
unfolding join_onto
join_args ps = join_onto [] ps
