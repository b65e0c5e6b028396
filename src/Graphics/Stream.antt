-- ===== src/Graphics/Stream.antt =====
-- Whether `graphics_write` of `basekernel/kernel/graphics.c` comes to an end.
use stage_os.Base.{
  ℕ, zero, suc, ◌+◌, ◌-◌, ◌%◌, ◌^◌, ◌≤◌, ◌<◌, ◌≡◌, ◌⊎◌, ◌∙◌, refl, sym, subst, Option, ◌||◌,
  if◌then◌else◌, false, none, some, ◌==◌, arith, Bool-cases, Option-cases, inl, inr,
}
use native.Mathlib.Decide.{dec_lt}
use stage_os.Graphics.{Graphics, is_negative, rounds}
use stage_os.Graphics.Commands.{Status, ok, invalid_request, text_command, text, command, write}

command-text :
    (font cmd : ℕ → ℕ) (g : Graphics) (at : ℕ)
    → cmd at ≡ text_command
    → command font cmd g at
      ≡ some (text font cmd g at (rounds (cmd (at + 3))) 0, (4 + cmd (at + 3)) % 2 ^ 32)
unfolding command
command-text font cmd g at e = rw (e, command) refl

-- The words that the command at a place takes, by the table of the commands
abbrev pub words : (ℕ → ℕ) → ℕ → Option ℕ
words cmd at =
    if cmd at == 1 || cmd at == 2
    then some 4
    else if cmd at == 3 || cmd at == 4 || cmd at == 5
    then some 5
    else if cmd at == 6
    then some ((4 + cmd (at + 3)) % 2 ^ 32)
    else none

-- A text command whose length is -4, with words left to read, is read again and again:
-- `graphics_write` never returns.
pub write_forever :
    (font cmd : ℕ → ℕ) (fuel : ℕ) (g : Graphics) (at n : ℕ)
    → cmd at ≡ text_command
    → cmd (at + 3) ≡ 2 ^ 32 - 4
    → at < 2 ^ 32
    → 0 < n
    → n < 2 ^ 31
    → write font cmd fuel g at n ≡ none
unfolding write
write_forever font cmd zero g at n is_text len word pos small = refl
write_forever font cmd (suc fuel) g at n is_text len word pos small =
    let more : (n == 0) ≡ false = ground arith in
    let sign : is_negative n ≡ false = ground arith in
    let same_place : (at + 0) % 2 ^ 32 ≡ at = omega arith in
    let same_length : (n + 2 ^ 32 - 0) % 2 ^ 32 ≡ n = omega arith in
    rw (command-text font cmd g at is_text, len, more, sign, same_place, same_length, write)
      (write_forever font cmd fuel (text font cmd g at (rounds (2 ^ 32 - 4)) 0) at n is_text len
        word pos small)

-- The places at which a command of the stream of `n` words from `at` on begins: `at`, and where the next
-- begins if the command is one and ends before the stream does
pub data Begins (cmd : ℕ → ℕ) : (at n i : ℕ) → Type 0 where
  here : (at n : ℕ) → 0 < n → Begins cmd at n at
  later :
      (at n k i : ℕ)
      → words cmd at ≡ some k
      → k < n
      → Begins cmd ((at + k) % 2 ^ 32) (n - k) i
      → Begins cmd at n i

-- Every command takes four words at least, if no text is shorter than nothing.
command_words :
    (font cmd : ℕ → ℕ) (g : Graphics) (at : ℕ) (r : Graphics × ℕ)
    → (cmd at ≡ text_command → cmd (at + 3) < 2 ^ 31 - 4)
    → command font cmd g at ≡ some r
    → (4 ≤ r.1) × (r.1 < 2 ^ 31)
unfolding command
command_words font cmd g at r short e = elim (Bool-cases (cmd at == text_command)) [
  | inl is_text ↦
      let there : cmd at ≡ text_command = ground arith in
      let len : cmd (at + 3) < 2 ^ 31 - 4 = short there in
      let same : some (text font cmd g at (rounds (cmd (at + 3))) 0, (4 + cmd (at + 3)) % 2 ^ 32)
          ≡ some r =
        sym (command-text font cmd g at there) ∙ e in
      ground arith
  | inr other ↦ ground arith
]

-- The words that a command takes do not depend on what it draws.
command-words :
    (font cmd : ℕ → ℕ) (g : Graphics) (at : ℕ) (r : Graphics × ℕ)
    → command font cmd g at ≡ some r
    → words cmd at ≡ some r.1
unfolding command
command-words font cmd g at r e = ground arith

-- With no word left, or fewer than none, the loop ends.
write_done :
    (font cmd : ℕ → ℕ) (fuel : ℕ) (g : Graphics) (at n : ℕ)
    → 0 < fuel
    → (n ≡ 0) ⊎ (2 ^ 31 ≤ n)
    → write font cmd fuel g at n ≡ some (ok, g)
unfolding write
write_done font cmd zero g at n pos over = absurd (omega arith)
write_done font cmd (suc fuel) g at n pos over = elim (Option-cases (command font cmd g at)) [
  | inl e ↦ rw (e, write) (ground arith)
  | inr (r, e) ↦ rw (e, write) (ground arith)
]

-- `graphics_write` returns within as many rounds as there are words and one, if no text command of its
-- stream names a negative length or one of 2 ^ 31 - 4 or more.
pub write-returns :
    (font cmd : ℕ → ℕ) (fuel : ℕ) (g : Graphics) (at n : ℕ)
    → ((i : ℕ) → Begins cmd at n i → cmd i ≡ text_command → cmd (i + 3) < 2 ^ 31 - 4)
    → n < 2 ^ 31
    → n < fuel
    → (r : Status × Graphics) × (write font cmd fuel g at n ≡ some r)
unfolding write
write-returns font cmd zero g at n texts small enough = absurd (omega arith)
write-returns font cmd (suc fuel) g at n texts small enough = elim (Bool-cases (n == 0)) [
  | inl done ↦ ((ok, g), write_done font cmd (suc fuel) g at n (omega arith) (ground arith))
  | inr more ↦
      let pos : 0 < n = ground arith in
      let sign : is_negative n ≡ false = ground arith in
      elim (Option-cases (command font cmd g at)) [
        | inl e ↦ ((invalid_request, g), rw (e, more, sign, write) refl)
        | inr (r, e) ↦
            let words = command_words font cmd g at r (texts at (here at n pos)) e in
            let left : ℕ = (n + 2 ^ 32 - r.1) % 2 ^ 32 in
            let rest : (s : Status × Graphics) × (write font cmd fuel r.0 ((at + r.1) % 2 ^ 32) left
                  ≡ some s) =
              elim (dec_lt n r.1) [
                | yes past ↦ (
                  (ok, r.0),
                  write_done font cmd fuel r.0 _ left (omega arith) (inr (omega arith)),
                )
                | no within ↦ elim (dec_lt r.1 n) [
                  | yes inside ↦
                      let rest_length : left ≡ n - r.1 = omega arith in
                      let takes = command-words font cmd g at r e in
                      write-returns font cmd fuel r.0 ((at + r.1) % 2 ^ 32) left
                        (λ i begins. texts i (
                          later at n r.1 i takes inside
                            (subst (λ m. Begins cmd ((at + r.1) % 2 ^ 32) m i) rest_length begins)))
                        (omega arith) (omega arith)
                  | no end ↦ (
                    (ok, r.0),
                    write_done font cmd fuel r.0 _ left (omega arith) (inl (omega arith)),
                  )
                ]
              ] in
            (rest.0, rw (e, more, sign, write) rest.1)
      ]
]
