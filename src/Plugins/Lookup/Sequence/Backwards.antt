-- ===== src/Plugins/Lookup/Sequence/Backwards.antt =====
-- plugins/lookup/sequence/sequence.go: a count with the stride -1.
use native.Mathlib.Nat.{div-one}
use gosible.Plugins.Lookup.Sequence.{capacity}
use gosible.Plugins.Lookup.Sequence.Counting.{some_if}
use gosible.Base.{
  if◌then◌else◌, panic, ltb, ℕ, zero, suc, ◌+◌, ◌<◌, ◌≡◌, refl, sym, ap, ◌∙◌, arith, true, false,
  subst, some, ok, map,
}
use gosible.Base.Int.{ℤ, pos, negsuc, ◌+ℤ◌, ◌-ℤ◌, ◌*ℤ◌, +ℤ_parts, lt_ℤ, eq_ℤ, eq_of_parts, -ℤ_parts}
use gosible.GoText.{Str}
use gosible.GoText.Numbers.{wrap64}
use gosible.Plugins.Lookup.Sequence.{
  Seq, goes_on, count_on, is_unset, count_to_end, check_direction, sanity_check, generate_sequence,
  items_of, end_of_loop, sprintf, is_negative_quotient,
}
use gosible.Plugins.Lookup.Sequence.Counting.{
  In64, wrap64_id, progression, IsAbove, counted, IsFormat, sanity_check_set,
}

step_down : (k : ℕ) (i end : ℤ) → IsAbove end (suc k) i → IsAbove end k (i +ℤ negsuc 0)
step_down k i end h = grind (arith, +ℤ_parts i (negsuc 0))

step-In64 : (k : ℕ) (i end : ℤ) → IsAbove end (suc k) i → In64 i → In64 end → In64 (i +ℤ negsuc 0)
unfolding ◌+ℤ◌
step-In64 k i end h a b = grind arith

count_on_down :
    (n fuel : ℕ) (i end : ℤ)
    → n < fuel
    → IsAbove end n i
    → In64 i
    → In64 end
    → count_on fuel i end (negsuc 0) ≡ some (progression n i (negsuc 0))
unfolding count_on
count_on_down n zero i end f h a b = absurd (omega arith)
count_on_down zero (suc fuel) i end f h a b = rw lemma refl
  where
    lemma : goes_on i end (negsuc 0) ≡ false
    lemma = ground arith
count_on_down (suc n) (suc fuel) i end f h a b = rw lemma (
    rw (wrap64_id (i +ℤ negsuc 0) (step-In64 n i end h a b)) (
      rw
        (count_on_down n fuel (i +ℤ negsuc 0) end (omega arith) (step_down n i end h)
          (step-In64 n i end h a b) b)
        refl))
  where
    lemma : goes_on i end (negsuc 0) ≡ true
    lemma = grind arith

module _ (start : ℤ) (n : ℕ) (format : Str) where
  sum : ℤ
  sum = start +ℤ negsuc n

  last : ℤ
  last = sum -ℤ pos 1

  abbrev pub before_last : ℤ
  before_last = start -ℤ pos (n + 3)

  sane : Seq
  sane = record {
    start = start;
    count = pos (suc n);
    end = last;
    stride = negsuc 0;
    format_string = format;
  }

  mul_neg : pos (suc n) *ℤ negsuc 0 ≡ negsuc n
  unfolding ◌*ℤ◌
  mul_neg = grind arith

  last-pred : last -ℤ pos 1 ≡ before_last
  unfolding last sum ◌-ℤ◌ ◌+ℤ◌
  last-pred = eq_of_parts _ _ (grind arith)

  module _ (a : In64 start) (b : In64 (negsuc (n + 2))) (c : In64 before_last) where
    sum-In64 : In64 sum
    unfolding sum ◌-ℤ◌ ◌+ℤ◌
    sum-In64 = grind arith

    last-In64 : In64 last
    unfolding last sum ◌-ℤ◌ ◌+ℤ◌
    last-In64 = grind arith

    count_to_end-counted : count_to_end (counted start (suc n) (negsuc 0) format) ≡ sane
    unfolding sum last count_to_end ◌-ℤ◌ sane
    count_to_end-counted = rw set (
        rw not_zero (
          rw mul_neg (
            rw (wrap64_id (negsuc n) (omega arith))
              (rw (wrap64_id sum sum-In64) (rw (wrap64_id last last-In64) refl)))))
      where
        set : is_unset (pos (suc n)) ≡ false
        set = ground arith

        not_zero : eq_ℤ (pos (suc n)) (pos 0) ≡ false
        not_zero = ground arith

    check_direction-sane : IsFormat format → check_direction sane ≡ ok sane
    unfolding sane last sum ◌-ℤ◌ ◌+ℤ◌ check_direction
    check_direction-sane (f, g) = rw backward (rw f (rw g refl))
      where
        backward : lt_ℤ start last ≡ false
        backward = grind arith

    sanity_check-counted :
        IsFormat format → sanity_check (counted start (suc n) (negsuc 0) format) ≡ ok sane
    sanity_check-counted f =
        sanity_check_set _ set refl
        ∙ ap check_direction count_to_end-counted
        ∙ check_direction-sane f
      where
        set : is_unset (pos (suc n)) ≡ false
        set = ground arith

    end_before_last : end_of_loop sane ≡ before_last
    unfolding sane end_of_loop
    end_before_last = rw (wrap64_id (last -ℤ pos 1) (subst In64 (sym last-pred) c)) last-pred

    distance : before_last -ℤ start ≡ negsuc (n + 2)
    unfolding ◌-ℤ◌
    distance = eq_of_parts _ _ (grind arith)

    items_of-sane :
        (room fuel : ℕ)
        → n + 3 < fuel
        → items_of room fuel (ok sane)
          ≡ some (
              if ltb room (n + 3)
              then panic
              else ok (map (sprintf format) (progression (n + 3) start (negsuc 0))))
    unfolding items_of generate_sequence sane
    items_of-sane room fuel enough =
        rw (no_panic, room_needed) (rw end_before_last (rw numbers (some_if (ltb room (n + 3)) _)))
      where
        no_panic : is_negative_quotient (wrap64 (end_of_loop sane -ℤ start)) (negsuc 0) ≡ false
        no_panic = rw end_before_last (rw distance (rw (wrap64_id (negsuc (n + 2)) b) refl))

        room_needed : capacity (wrap64 (end_of_loop sane -ℤ start)) (negsuc 0) ≡ n + 3
        room_needed =
            rw end_before_last (
              rw distance (rw (wrap64_id (negsuc (n + 2)) b) (div-one (suc (n + 2)) ∙ omega arith)))

        numbers :
            count_on fuel start before_last (negsuc 0) ≡ some (progression (n + 3) start (negsuc 0))
        numbers =
            count_on_down (n + 3) fuel start before_last enough
              (grind (arith, -ℤ_parts start (pos (n + 3)))) a c

    -- With a count, the stride -1 and no number out of an int64's range, the sequence has two
    -- numbers more than the count says, for every fuel above them, and is a panic if there is no
    -- room for as many.
    pub generate_sequence_backwards :
        (room fuel : ℕ)
        → IsFormat format
        → n + 3 < fuel
        → items_of room fuel (sanity_check (counted start (suc n) (negsuc 0) format))
          ≡ some (
              if ltb room (suc n + 2)
              then panic
              else ok (map (sprintf format) (progression (suc n + 2) start (negsuc 0))))
    generate_sequence_backwards room fuel f enough =
        subst
          (λ k.
            items_of room fuel (sanity_check (counted start (suc n) (negsuc 0) format))
            ≡ some (
                if ltb room k
                then panic
                else ok (map (sprintf format) (progression k start (negsuc 0)))))
          (omega arith)
          (ap (items_of room fuel) (sanity_check-counted f) ∙ items_of-sane room fuel enough)
