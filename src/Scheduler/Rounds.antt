-- ===== src/Scheduler/Rounds.antt =====
-- scheduler.c, move_to_next_process: the round robin.
use almost_os.Prelude.{
  ℕ, zero, suc, ◌+◌, ◌-◌, ◌%◌, ◌≤◌, ◌<◌, ◌≡◌, refl, sym, ap, ◌∙◌, inl, inr, true, false, Option,
  none, some, arith, Bool-cases, dec_lt,
}
use mathlib.Core.Bool.{false≢true}
use native.Mathlib.Numerals.{add-one}
use almost_os.Scheduler.{
  Scheduler, Process, is_unused, next_used, move_to_next_process, max_process_count,
}

-- The slots `i + 1`, …, `i + d - 1`, taken round the table, are unused.
abbrev pub Skipped : (ℕ → Process) → ℕ → ℕ → Type 0
Skipped ps i d = (e : ℕ) → 1 ≤ e → e < d → is_unused (ps ((i + e) % max_process_count)) ≡ true

-- The outcome `r` of a search from slot `i`: the first slot in use, at most `d` slots on.
pub record FirstUsed (ps : ℕ → Process) (i d : ℕ) (r : Option ℕ) : Type 0 where
  pub gap : ℕ
  pub gap_pos : 1 ≤ gap
  pub gap_le : gap ≤ d
  pub found : r ≡ some ((i + gap) % max_process_count)
  pub in_use : is_unused (ps ((i + gap) % max_process_count)) ≡ false
  pub skipped : Skipped ps i gap

one_on :
    (i e : ℕ)
    → ((i + 1) % max_process_count + e) % max_process_count ≡ (i + (e + 1)) % max_process_count
one_on i e = omega arith

later :
    (ps : ℕ → Process) (i d : ℕ) {r : Option ℕ}
    → is_unused (ps ((i + 1) % max_process_count)) ≡ true
    → FirstUsed ps ((i + 1) % max_process_count) d r
    → FirstUsed ps i (suc d) r
later ps i d passed f = record {
  gap = f.gap + 1;
  gap_pos = omega arith;
  gap_le = omega (arith, f.gap_le);
  found = rw (← one_on i f.gap) f.found;
  in_use = rw (← one_on i f.gap) f.in_use;
  skipped = skip;
}
  where
    skip : Skipped ps i (f.gap + 1)
    skip zero p q = absurd (omega arith)
    skip (suc zero) p q = passed
    skip (suc (suc e)) p q =
        let same : (i + suc (suc e)) % max_process_count ≡ (i + (suc e + 1)) % max_process_count =
          omega arith in
        rw (same, ← one_on i (suc e)) (f.skipped (suc e) (omega arith) (omega arith))

-- If a slot in use lies within the rounds, the search finds the first such slot.
pub next_used-FirstUsed :
    (fuel i d : ℕ) (ps : ℕ → Process)
    → 1 ≤ d
    → d ≤ fuel
    → is_unused (ps ((i + d) % max_process_count)) ≡ false
    → FirstUsed ps i d (next_used fuel i ps)
unfolding next_used
next_used-FirstUsed zero i d ps one le used = absurd (omega arith)
next_used-FirstUsed (suc fuel) i zero ps one le used = absurd (omega arith)
next_used-FirstUsed (suc fuel) i (suc d) ps one le used =
    elim (Bool-cases (is_unused (ps ((i + 1) % max_process_count)))) [
      | inr here ↦ record {
        gap = 1;
        gap_pos = omega arith;
        gap_le = one;
        found = rw here;
        in_use = here;
        skipped = λ e p q. absurd (omega arith);
      }
      | inl passed ↦ rw passed (
          later ps i d passed (
            next_used-FirstUsed fuel ((i + 1) % max_process_count) d ps (further passed)
              (omega arith) (rw (one_on i d, add-one) used)))
    ]
  where
    further : is_unused (ps ((i + 1) % max_process_count)) ≡ true → 1 ≤ d
    further passed = elim (dec_lt 0 d) [
      | yes h ↦ h
      | no h ↦
          let same : suc d ≡ 1 = omega arith in
          absurd (ground (arith, used, passed, ap (λ t. is_unused (ps ((i + t) % 16))) same))
    ]

-- With the kernel process in its slot and the current index within the table,
-- `move_to_next_process` comes to an end, whatever the other slots hold: it moves to the first
-- slot in use after the current one, the current one last, and changes nothing but the index.
pub move_to_next_process-FirstUsed :
    (s : Scheduler)
    → is_unused (s.process_list 0) ≡ false
    → s.current_process_index < max_process_count
    → (j : ℕ) × (move_to_next_process s ≡ some (record s { current_process_index = j }))
      × FirstUsed s.process_list s.current_process_index 16 (some j)
unfolding move_to_next_process
move_to_next_process-FirstUsed s kernel small =
    let i = s.current_process_index in
    let zero_on : (i + (max_process_count - i)) % max_process_count ≡ 0 = omega arith in
    let f : FirstUsed s.process_list i (16 - i) (next_used 16 i s.process_list) =
      next_used-FirstUsed 16 i (16 - i) s.process_list (omega arith) (omega arith)
        (rw zero_on kernel) in
    (
      (i + f.gap) % max_process_count,
      rw (f.found, move_to_next_process),
      record {
        gap = f.gap;
        gap_pos = f.gap_pos;
        gap_le = omega (arith, f.gap_le);
        found = refl;
        in_use = f.in_use;
        skipped = f.skipped;
      },
    )

-- `n` calls of `move_to_next_process`, one for each `schedule`.
pub moves : ℕ → Scheduler → Option Scheduler
moves zero s = some s
moves (suc n) s = elim (move_to_next_process s) [ none ↦ none | some s' ↦ moves n s' ]

gap-le :
    {ps : ℕ → Process} {i k : ℕ} {r : Option ℕ} (d : ℕ) (f : FirstUsed ps i k r)
    → 1 ≤ d
    → is_unused (ps ((i + d) % max_process_count)) ≡ false
    → f.gap ≤ d
gap-le d f one used = elim (dec_lt d f.gap) [
  | yes h ↦ absurd (false≢true (sym used ∙ f.skipped d one h))
  | no h ↦ omega arith
]

reaches :
    (fuel d : ℕ) (s : Scheduler)
    → d ≤ fuel
    → is_unused (s.process_list 0) ≡ false
    → s.current_process_index < max_process_count
    → d < 16
    → is_unused (s.process_list ((s.current_process_index + d) % max_process_count)) ≡ false
    → (n : ℕ) × (n ≤ d)
      × (moves n s
          ≡ some (record s {
            current_process_index = (s.current_process_index + d) % max_process_count;
          }))
unfolding moves
reaches fuel zero s le kernel small dl used = (0, omega arith, ground arith)
reaches zero (suc d) s le kernel small dl used = absurd (omega arith)
reaches (suc fuel) (suc d) s le kernel small dl used =
    let (j, e, f) = move_to_next_process-FirstUsed s kernel small in
    let close : f.gap ≤ suc d = gap-le (suc d) f (omega arith) used in
    let at : j ≡ (s.current_process_index + f.gap) % max_process_count = cc (f.found) in
    let same : (j + (suc d - f.gap)) % max_process_count
        ≡ (s.current_process_index + suc d) % max_process_count =
      omega (arith, f.gap_pos) in
    let (n, le', m) =
      reaches fuel (suc d - f.gap) (record s { current_process_index = j })
        (omega (arith, f.gap_pos)) kernel (omega arith) (omega arith) (rw same used) in
    (
      suc n,
      omega (arith, f.gap_pos),
      rw (e, moves) (m ∙ ap (λ k. some (record s { current_process_index = k })) same),
    )

-- No process starves: with the kernel process in its slot and the current index within the table,
-- every process in use becomes the current one within 15 moves, and these change nothing but the
-- index.
pub moves-fair :
    (s : Scheduler) (p : ℕ)
    → is_unused (s.process_list 0) ≡ false
    → s.current_process_index < max_process_count
    → p < max_process_count
    → is_unused (s.process_list p) ≡ false
    → (n : ℕ) × (n < 16) × (moves n s ≡ some (record s { current_process_index = p }))
moves-fair s p kernel small hp used =
    let d = (p + 16 - s.current_process_index) % 16 in
    let at : (s.current_process_index + d) % max_process_count ≡ p = omega arith in
    let (n, le, e) = reaches 16 d s (omega arith) kernel small (omega arith) (rw at used) in
    (n, omega arith, e ∙ ap (λ k. some (record s { current_process_index = k })) at)
