-- ===== src/Parsing/Splitter/RoundTrip.antt =====
-- Texts that `splitArgs` and `joinArgs` carry through.
use gosible.Base.{
  ◌≡◌, refl, ◌∙◌, Bool, true, false, ◌==◌, none, List, [], ◌∷◌, ◌++◌, arith, ok, is_empty, All,
  append-nil, append_assoc, last?,
}
use gosible.GoText.{Str, codes, split, join, str_eq, count, contains_byte}
use gosible.GoText.Laws.{
  count_absent, join-split, contains_byte-join, contains_byte-append, split_none,
}
use gosible.Parsing.Splitter.{
  quote_loop, get_quote_state, count_jinja2_blocks, State, initial, append_if, place, settle,
  step_token, step_tokens, step_line, end_line, step_lines, split_args, join_onto, join_args, glue,
}

-- A word has no space, newline, quote, backslash or brace.
pub record IsWord (w : Str) : Type 0 where
  pub nonempty : is_empty w ≡ false
  pub no_space : contains_byte 32 w ≡ false
  pub no_newline : contains_byte 10 w ≡ false
  pub no_double : contains_byte 34 w ≡ false
  pub no_single : contains_byte 39 w ≡ false
  pub no_backslash : contains_byte 92 w ≡ false
  pub no_open : contains_byte 123 w ≡ false
  pub no_close : contains_byte 125 w ≡ false

quote_loop_word :
    (e : Bool) (w : Str)
    → contains_byte 34 w ≡ false
    → contains_byte 39 w ≡ false
    → quote_loop e w none ≡ none
unfolding quote_loop contains_byte
quote_loop_word e [] h k = refl
quote_loop_word e (c ∷ w) h k = ground (arith, quote_loop_word (c == 92) w)

-- no mark occurs, so no depth changes
count_jinja2_blocks_word :
    (w : Str)
    → IsWord w
    → (count_jinja2_blocks w 0 (codes "{{") (codes "}}") ≡ 0)
      × (count_jinja2_blocks w 0 (codes "{%") (codes "%}") ≡ 0)
      × (count_jinja2_blocks w 0 (codes "{#") (codes "#}") ≡ 0)
unfolding count_jinja2_blocks contains_byte
count_jinja2_blocks_word w h = (
  rw (
    count_absent 123 w (codes "{{") h.no_open refl,
    count_absent 125 w (codes "}}") h.no_close refl,
  ),
  rw (
    count_absent 123 w (codes "{%") h.no_open refl,
    count_absent 125 w (codes "%}") h.no_close refl,
  ),
  rw (
    count_absent 123 w (codes "{#") h.no_open refl,
    count_absent 125 w (codes "#}") h.no_close refl,
  ),
)

-- the state between words, outside quotes and blocks
abbrev rest_state : List Str → State
rest_state ps = record initial { params = ps }

str_eq_word : (w : Str) → contains_byte 92 w ≡ false → str_eq w (codes "\\") ≡ false
unfolding str_eq contains_byte
str_eq_word [] h = refl
str_eq_word (c ∷ w) h = ground arith

step_token_word :
    (many first : Bool) (w : Str) (ps : List Str)
    → IsWord w
    → step_token many first w (rest_state ps) ≡ ok (rest_state (ps ++ w ∷ []))
unfolding step_token place settle append_if get_quote_state
step_token_word many first w ps h =
    let counts = count_jinja2_blocks_word w h in
    ground (
      arith,
      counts,
      h.nonempty,
      str_eq_word w h.no_backslash,
      quote_loop_word false w h.no_double h.no_single,
    )

step_tokens_word :
    (many first : Bool) (ws ps : List Str)
    → All IsWord ws
    → step_tokens many first ws (rest_state ps) ≡ ok (rest_state (ps ++ ws))
unfolding step_tokens
step_tokens_word many first [] ps h = rw append-nil
step_tokens_word many first (w ∷ ws) ps h =
    rw (step_token_word many first w ps h.0)
      (step_tokens_word many false ws (ps ++ w ∷ []) h.1 ∙ rw append_assoc)

is_empty-append : (r s : Str) → is_empty r ≡ false → is_empty (r ++ s) ≡ false
is_empty-append [] s h = cc
is_empty-append (c ∷ r) s h = refl

All-no_space : (ws : List Str) → All IsWord ws → All (λ w. contains_byte 32 w ≡ false) ws
All-no_space [] h = tt
All-no_space (w ∷ ws) h = (h.0.no_space, All-no_space ws h.1)

All-no_newline : (ws : List Str) → All IsWord ws → All (λ w. contains_byte 10 w ≡ false) ws
All-no_newline [] h = tt
All-no_newline (w ∷ ws) h = (h.0.no_newline, All-no_newline ws h.1)

glue_word : (r : Str) → is_empty r ≡ false → contains_byte 10 r ≡ false → glue (last? r) ≡ 32 ∷ []
unfolding contains_byte
glue_word [] h k = cc
glue_word (c ∷ []) h k = ground arith
glue_word (c ∷ d ∷ r) h k = glue_word (d ∷ r) refl (ground arith)

join_regroup :
    (r w : Str) (ws : List Str) → join (32 ∷ []) ((r ++ 32 ∷ w) ∷ ws) ≡ join (32 ∷ []) (r ∷ w ∷ ws)
unfolding join
join_regroup r w [] = refl
join_regroup r w (v ∷ ws) = append_assoc r (32 ∷ w) (32 ∷ join (32 ∷ []) (v ∷ ws))

join_onto_words :
    (r : Str) (ws : List Str)
    → is_empty r ≡ false
    → contains_byte 10 r ≡ false
    → All IsWord ws
    → join_onto r ws ≡ join (32 ∷ []) (r ∷ ws)
unfolding join_onto
join_onto_words r [] h k a = unfold join in refl
join_onto_words r (w ∷ ws) h k a = rw (glue_word r h k) (
    join_onto_words (r ++ 32 ∷ w) ws (is_empty-append r (32 ∷ w) h)
      (unfold contains_byte in (contains_byte-append 10 r (32 ∷ w) ∙ rw (k, a.0.no_newline))) a.1
    ∙ join_regroup r w ws)

-- `joinArgs` puts one space between words.
join_args-join : (ws : List Str) → All IsWord ws → join_args ws ≡ join (32 ∷ []) ws
unfolding join_args join_onto
join_args-join [] h = unfold join in refl
join_args-join (w ∷ ws) h = join_onto_words w ws h.0.nonempty h.0.no_newline h.1

step_line_words :
    (ws : List Str) → All IsWord ws → step_line (join (32 ∷ []) ws) initial ≡ ok (rest_state ws)
unfolding step_line
step_line_words [] h =
    unfold join split step_tokens step_token get_quote_state place settle append_if str_eq count in
    refl
step_line_words (w ∷ ws) h =
    rw (join-split 32 w ws (All-no_space (w ∷ ws) h)) (step_tokens_word _ true (w ∷ ws) [] h)

-- Words that are joined by spaces are split into the same words, in order.
pub split_args-join_args : (ws : List Str) → All IsWord ws → split_args (join_args ws) ≡ ok ws
unfolding split_args step_lines end_line
split_args-join_args ws h = rw (
  join_args-join ws h,
  split_none 10 (join (32 ∷ []) ws)
      (contains_byte-join 10 (32 ∷ []) ws (unfold contains_byte in refl) (All-no_newline ws h)),
  step_line_words ws h,
)
