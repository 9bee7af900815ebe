-- ===== src/Plugins/Lookup/Sequence/Counting.antt =====
-- plugins/lookup/sequence/sequence.go: a count with a stride above 0.
use native.Mathlib.Nat.{mul-div_cancel}
use gosible.Plugins.Lookup.Sequence.{Result, capacity}
use gosible.Base.{
  if◌then◌else◌, panic, Bool, ltb, Option, ℕ, zero, suc, ◌+◌, ◌*◌, ◌^◌, ◌<◌, ◌≤◌, ◌≡◌, refl, sym,
  ap, ◌∙◌, arith, true, false, ◌&&◌, ◌==◌, List, [], ◌∷◌, some, ok, subst, map,
}
use gosible.Base.Int.{
  ℤ, pos, negsuc, pos_part, neg_part, ◌+ℤ◌, +ℤ_parts, lt_ℤ, eq_ℤ, ◌-ℤ◌, ◌*ℤ◌, eq_of_parts,
}
use gosible.GoText.{Str, codes, count, contains}
use gosible.GoText.Numbers.{wrap64}
use gosible.Plugins.Lookup.Sequence.{
  count_on, goes_on, Seq, is_unset, count_to_end, check_direction, sanity_check, generate_sequence,
  items_of, end_of_loop, sprintf, is_negative_quotient,
}

pub some_if :
    (b : Bool) (items : List Str)
    → ◌≡◌ {A = Option (Result (List Str))}
        (if b then some panic else some (ok items))
        (some (if b then panic else ok items))
some_if true items = refl
some_if false items = refl

abbrev pub In64 : ℤ → Type 0
In64 z = (pos_part z < 2 ^ 63) × (neg_part z ≤ 2 ^ 63)

pub wrap64_id : (z : ℤ) → In64 z → wrap64 z ≡ z
wrap64_id (pos n) h = ground arith
wrap64_id (negsuc n) h = ground arith

-- `n` numbers from `i`, each the last one and `d`
abbrev pub progression : ℕ → ℤ → ℤ → List ℤ
progression zero i d = []
progression (suc n) i d = i ∷ progression n (i +ℤ d) d

-- `b` is `a` and `k`
abbrev pub IsAbove : ℤ → ℕ → ℤ → Type 0
IsAbove a k b = pos_part b + neg_part a ≡ pos_part a + neg_part b + k

step_up :
    (k m : ℕ) (i end : ℤ)
    → IsAbove i (suc k * suc m) end
    → IsAbove (i +ℤ pos (suc m)) (k * suc m) end
step_up k m i end h = grind (arith, +ℤ_parts i (pos (suc m)))

step-In64 :
    (k m : ℕ) (i end : ℤ)
    → IsAbove i (suc k * suc m) end
    → In64 i
    → In64 end
    → In64 (i +ℤ pos (suc m))
unfolding ◌+ℤ◌
step-In64 k m i end h a b = grind arith

pub count_on-progression :
    (n m fuel : ℕ) (i end : ℤ)
    → n < fuel
    → IsAbove i (n * suc m) end
    → In64 i
    → In64 end
    → count_on fuel i end (pos (suc m)) ≡ some (progression n i (pos (suc m)))
unfolding count_on
count_on-progression n m zero i end f h a b = absurd (omega arith)
count_on-progression zero m (suc fuel) i end f h a b = rw lemma refl
  where
    lemma : goes_on i end (pos (suc m)) ≡ false
    lemma = ground arith
count_on-progression (suc n) m (suc fuel) i end f h a b = rw lemma (
    rw (wrap64_id (i +ℤ pos (suc m)) (step-In64 n m i end h a b)) (
      rw
        (count_on-progression n m fuel (i +ℤ pos (suc m)) end (omega arith) (step_up n m i end h)
          (step-In64 n m i end h a b) b)
        refl))
  where
    lemma : goes_on i end (pos (suc m)) ≡ true
    lemma = grind arith

-- A sequence of so many numbers, as `parseKvArgs` reads it.
abbrev pub counted : ℤ → ℕ → ℤ → Str → Seq
counted start n stride format = record {
  start = start;
  count = pos n;
  end = negsuc 0;
  stride = stride;
  format_string = format;
}

abbrev pub IsFormat : Str → Type 0
IsFormat format = ((count format (codes "%") == 1) ≡ true) × (contains format (codes "%d") ≡ true)

pub sanity_check_set :
    (s : Seq)
    → is_unset s.count ≡ false
    → is_unset s.end ≡ true
    → sanity_check s ≡ check_direction (count_to_end s)
unfolding sanity_check
sanity_check_set s h k = rw h (rw k refl)

module _ (start : ℤ) (n m : ℕ) (format : Str) where
  abbrev pub after : ℤ
  after = start +ℤ pos (suc n * suc m)

  last : ℤ
  last = after -ℤ pos 1

  mul_pos : pos (suc n) *ℤ pos (suc m) ≡ pos (suc n * suc m)
  unfolding ◌*ℤ◌
  mul_pos = grind arith

  module _ (a : In64 start) (b : In64 (pos (suc n * suc m))) (c : In64 after) where
    last-In64 : In64 last
    unfolding last ◌-ℤ◌ ◌+ℤ◌
    last-In64 = grind arith

    count_to_end-counted : count_to_end (counted start (suc n) (pos (suc m)) format) ≡ record {
      start = start;
      count = pos (suc n);
      end = last;
      stride = pos (suc m);
      format_string = format;
    }
    unfolding last count_to_end ◌-ℤ◌
    count_to_end-counted = rw set (
        rw not_zero (
          rw mul_pos (
            rw (wrap64_id (pos (suc n * suc m)) b)
              (rw (wrap64_id after c) (rw (wrap64_id last last-In64) refl)))))
      where
        set : is_unset (pos (suc n)) ≡ false
        set = ground arith

        not_zero : eq_ℤ (pos (suc n)) (pos 0) ≡ false
        not_zero = ground arith

    sane : Seq
    sane = record {
      start = start;
      count = pos (suc n);
      end = last;
      stride = pos (suc m);
      format_string = format;
    }

    check_direction-sane : IsFormat format → check_direction sane ≡ ok sane
    unfolding sane last ◌-ℤ◌ ◌+ℤ◌ check_direction
    check_direction-sane (f, g) = rw forward (rw backward (rw f (rw g refl)))
      where
        forward : (lt_ℤ (pos 0) (pos (suc m)) && lt_ℤ last start) ≡ false
        forward = grind arith

        backward : (lt_ℤ (pos (suc m)) (pos 0) && lt_ℤ start last) ≡ false
        backward = ground arith

    last-suc : last +ℤ pos 1 ≡ after
    unfolding last ◌-ℤ◌ ◌+ℤ◌
    last-suc = eq_of_parts _ _ (grind arith)

    after_last : end_of_loop sane ≡ after
    unfolding sane end_of_loop
    after_last = rw upward (rw (wrap64_id (last +ℤ pos 1) (subst In64 (sym last-suc) c)) last-suc)
      where
        upward : lt_ℤ (pos (suc m)) (pos 1) ≡ false
        upward = ground arith

    sanity_check-counted :
        IsFormat format → sanity_check (counted start (suc n) (pos (suc m)) format) ≡ ok sane
    unfolding sane
    sanity_check-counted f =
        sanity_check_set _ set refl
        ∙ ap check_direction count_to_end-counted
        ∙ check_direction-sane f
      where
        set : is_unset (pos (suc n)) ≡ false
        set = ground arith

    distance : after -ℤ start ≡ pos (suc n * suc m)
    unfolding ◌-ℤ◌ ◌+ℤ◌
    distance = eq_of_parts _ _ (grind arith)

    items_of-sane :
        (room fuel : ℕ)
        → suc n < fuel
        → items_of room fuel (ok sane)
          ≡ some (
              if ltb room (suc n)
              then panic
              else ok (map (sprintf format) (progression (suc n) start (pos (suc m)))))
    unfolding items_of generate_sequence sane
    items_of-sane room fuel enough =
        rw (no_stride, no_panic, room_needed)
          (rw after_last (rw numbers (some_if (ltb room (suc n)) _)))
      where
        no_stride : eq_ℤ (pos (suc m)) (pos 0) ≡ false
        no_stride = ground arith

        no_panic : is_negative_quotient (wrap64 (end_of_loop sane -ℤ start)) (pos (suc m)) ≡ false
        no_panic = rw after_last (rw distance (rw (wrap64_id (pos (suc n * suc m)) b) refl))

        room_needed : capacity (wrap64 (end_of_loop sane -ℤ start)) (pos (suc m)) ≡ suc n
        room_needed = rw after_last (
            rw distance
              (rw (wrap64_id (pos (suc n * suc m)) b) (mul-div_cancel (suc n) (omega arith))))

        numbers :
            count_on fuel start after (pos (suc m)) ≡ some (progression (suc n) start (pos (suc m)))
        numbers =
            count_on-progression (suc n) m fuel start after enough
              (grind (arith, +ℤ_parts start (pos (suc n * suc m)))) a c

    -- With a count, a stride above 0 and no number out of an int64's range, the sequence has
    -- exactly as many numbers as the count says, from the start on, each the last one and the
    -- stride, for every fuel above the count, and is a panic if there is no room for as many.
    pub generate_sequence-count :
        (room fuel : ℕ)
        → IsFormat format
        → suc n < fuel
        → items_of room fuel (sanity_check (counted start (suc n) (pos (suc m)) format))
          ≡ some (
              if ltb room (suc n)
              then panic
              else ok (map (sprintf format) (progression (suc n) start (pos (suc m)))))
    generate_sequence-count room fuel f enough =
        ap (items_of room fuel) (sanity_check-counted f) ∙ items_of-sane room fuel enough
