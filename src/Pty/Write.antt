-- ===== src/Pty/Write.antt =====
-- `Write` of src/pty_session.cpp.
use mathlib.Core.Path.{subst}
use sakura_wx_prototype.Prelude.{
  ℕ, zero, suc, if◌then◌else◌, ◌+◌, ◌-◌, ◌≤◌, ◌<◌, ◌≡◌, refl, ap, ◌∙◌, Bool, true, false, not, inl,
  inr, List, [], ◌∷◌, ◌++◌, Option, none, some, Option-cases, arith, ltb, length, All, take, drop,
  slice, Bool-cases,
}
use sakura_wx_prototype.Prelude.Word.{u64}
use sakura_wx_prototype.Pty.{
  Answer, wrote, interrupted, blocked, refused, write_loop, write_bytes, Writer,
}

-- `write` takes at most as many bytes as it is given.
abbrev pub IsFitting : List Answer → ℕ → Type 0
IsFitting [] rest = Unit
IsFitting (wrote n ∷ answers) rest = (n ≤ rest) × IsFitting answers (rest - n)
IsFitting (a ∷ answers) rest = IsFitting answers rest

-- The number of bytes taken before an answer that ends the loop.
abbrev pub accepted : List Answer → ℕ
accepted [] = 0
accepted (wrote n ∷ answers) = n + accepted answers
accepted (a ∷ answers) = accepted answers

-- No answer ends the loop: each `write` that succeeds takes a byte at least.
abbrev pub is_progress : Answer → Bool
is_progress (wrote n) = ltb 0 n
is_progress interrupted = true
is_progress blocked = true
is_progress refused = false

-- What the loop sends from `offset` on is `sent` bytes of the data; with result `true` it is the rest.
abbrev pub Sends : List ℕ → ℕ → List ℕ × Option Bool → Type 0
Sends data_bytes offset out =
    (count : ℕ) × (out.0 ≡ slice data_bytes offset count)
    × (offset + count ≤ length data_bytes)
    × (out.1 ≡ some true → offset + count ≡ length data_bytes)
    × (out.1 ≡ none → offset + count < length data_bytes)

take-nil : (m : ℕ) → take {A = ℕ} m [] ≡ []
take-nil zero = refl
take-nil (suc m) = refl

drop-nil : (m : ℕ) → drop {A = ℕ} m [] ≡ []
drop-nil zero = refl
drop-nil (suc m) = refl

take-take : (xs : List ℕ) (n m : ℕ) → take n xs ++ take m (drop n xs) ≡ take (n + m) xs
take-take xs zero m = let e : 0 + m ≡ m = omega arith in rw e refl
take-take [] (suc n) m = let e : suc n + m ≡ suc (n + m) = omega arith in rw (e, take-nil m) refl
take-take (x ∷ xs) (suc n) m =
    let e : suc n + m ≡ suc (n + m) = omega arith in rw (e, take-take xs n m) refl

drop-drop : (xs : List ℕ) (n m : ℕ) → drop (n + m) xs ≡ drop m (drop n xs)
drop-drop xs zero m = let e : 0 + m ≡ m = omega arith in rw e refl
drop-drop [] (suc n) m = let e : suc n + m ≡ suc (n + m) = omega arith in rw (e, drop-nil m) refl
drop-drop (x ∷ xs) (suc n) m =
    let e : suc n + m ≡ suc (n + m) = omega arith in rw e (drop-drop xs n m)

slice-slice :
    (data_bytes : List ℕ) (offset n m : ℕ)
    → slice data_bytes offset n ++ slice data_bytes (offset + n) m ≡ slice data_bytes offset (n + m)
slice-slice data_bytes offset n m =
    rw (drop-drop data_bytes offset n) (take-take (drop offset data_bytes) n m)

Sends-stop :
    (data_bytes : List ℕ) (offset : ℕ) (result : Option Bool)
    → offset ≤ length data_bytes
    → (result ≡ some true → offset ≡ length data_bytes)
    → (result ≡ none → offset < length data_bytes)
    → Sends data_bytes offset ([], result)
Sends-stop data_bytes offset result h whole short =
    (0, refl, omega arith, (λ e. omega (arith, whole e)), (λ e. omega (arith, short e)))

Sends-if :
    (data_bytes : List ℕ) (offset : ℕ) (out : List ℕ × Option Bool)
    → offset ≤ length data_bytes
    → (offset < length data_bytes → Sends data_bytes offset out)
    → Sends data_bytes offset (if ltb offset (length data_bytes) then out else ([], some true))
Sends-if data_bytes offset out h go = elim (Bool-cases (ltb offset (length data_bytes))) [
  | inl e ↦ rw e (go (ground arith))
  | inr e ↦
      let full : offset ≡ length data_bytes = ground arith in
      rw e (Sends-stop data_bytes offset (some true) h (λ x. full) (λ x. absurd (cc)))
]

Sends-wrote :
    (data_bytes : List ℕ) (offset n : ℕ) (out : List ℕ × Option Bool)
    → Sends data_bytes (offset + n) out
    → Sends data_bytes offset (slice data_bytes offset n ++ out.0, out.1)
Sends-wrote data_bytes offset n out (count, eq, low, whole, short) = (
  n + count,
  rw eq (slice-slice data_bytes offset n count),
  omega arith,
  (λ e. omega (arith, whole e)),
  (λ e. omega (arith, short e)),
)

write_loop-Sends :
    (answers : List Answer) (data_bytes : List ℕ) (offset : ℕ)
    → offset ≤ length data_bytes
    → IsFitting answers (length data_bytes - offset)
    → Sends data_bytes offset (write_loop answers data_bytes offset)
unfolding write_loop
write_loop-Sends [] data_bytes offset h fit =
    Sends-if data_bytes offset ([], none) h
      (λ more. Sends-stop data_bytes offset none h (λ e. absurd (cc)) (λ e. more))
write_loop-Sends (wrote n ∷ answers) data_bytes offset h fit =
    let rest : IsFitting answers (length data_bytes - (offset + n)) =
      let less : length data_bytes - offset - n ≡ length data_bytes - (offset + n) = omega arith in
      subst (IsFitting answers) less fit.1 in
    let ih = write_loop-Sends answers data_bytes (offset + n) (omega (arith, fit.0)) rest in
    Sends-if data_bytes offset _ h (λ more. elim (Bool-cases (ltb 0 n)) [
      | inl e ↦ rw e (Sends-wrote data_bytes offset n _ ih)
      | inr e ↦
          rw e (Sends-stop data_bytes offset (some false) h (λ x. absurd (cc)) (λ x. absurd (cc)))
    ])
write_loop-Sends (interrupted ∷ answers) data_bytes offset h fit =
    Sends-if data_bytes offset _ h (λ more. write_loop-Sends answers data_bytes offset h fit)
write_loop-Sends (blocked ∷ answers) data_bytes offset h fit =
    Sends-if data_bytes offset _ h (λ more. write_loop-Sends answers data_bytes offset h fit)
write_loop-Sends (refused ∷ answers) data_bytes offset h fit =
    Sends-if data_bytes offset _ h
      (λ more. Sends-stop data_bytes offset (some false) h (λ x. absurd (cc)) (λ x. absurd (cc)))

write_loop-true :
    (answers : List Answer) (data_bytes : List ℕ) (offset : ℕ)
    → offset ≤ length data_bytes
    → IsFitting answers (length data_bytes - offset)
    → All (λ a. is_progress a ≡ true) answers
    → length data_bytes ≤ offset + accepted answers
    → (write_loop answers data_bytes offset).1 ≡ some true
unfolding write_loop
write_loop-true [] data_bytes offset h fit go enough =
    let full : ltb offset (length data_bytes) ≡ false = ground arith in rw full refl
write_loop-true (wrote n ∷ answers) data_bytes offset h fit go enough =
    let rest : IsFitting answers (length data_bytes - (offset + n)) =
      let less : length data_bytes - offset - n ≡ length data_bytes - (offset + n) = omega arith in
      subst (IsFitting answers) less fit.1 in
    let ih =
      write_loop-true answers data_bytes (offset + n) (omega (arith, fit.0)) rest go.1
        (omega arith) in
    elim (Bool-cases (ltb offset (length data_bytes))) [
      | inl e ↦ rw (e, go.0) ih
      | inr e ↦ rw e refl
    ]
write_loop-true (interrupted ∷ answers) data_bytes offset h fit go enough =
    elim (Bool-cases (ltb offset (length data_bytes))) [
      | inl e ↦ rw e (write_loop-true answers data_bytes offset h fit go.1 enough)
      | inr e ↦ rw e refl
    ]
write_loop-true (blocked ∷ answers) data_bytes offset h fit go enough =
    elim (Bool-cases (ltb offset (length data_bytes))) [
      | inl e ↦ rw e (write_loop-true answers data_bytes offset h fit go.1 enough)
      | inr e ↦ rw e refl
    ]
write_loop-true (refused ∷ answers) data_bytes offset h fit go enough = absurd (cc)

abbrev pub counted : ℕ → Writer → Writer
counted size w = record w {
  bytes_written = u64 (w.bytes_written + size);
  write_events = u64 (w.write_events + 1);
}

-- What is true of a call of `Write` that has the given bytes: the bytes the kernel took are the first
-- ones of the data; a call that succeeds has sent them all and counts them; a call that fails or goes
-- on counts nothing, and one that goes on has bytes left.
abbrev pub IsWritten : List ℕ → Writer → List ℕ × Option Bool × Writer → Type 0
IsWritten data_bytes w (sent, result, after) =
    ((count : ℕ) × (sent ≡ take count data_bytes)
      × (count ≤ length data_bytes)
      × (result ≡ none → count < length data_bytes))
    × (result ≡ some true → (sent ≡ data_bytes) × (after ≡ counted (length data_bytes) w))
    × (¬ (result ≡ some true) → after ≡ w)

take-all : (xs : List ℕ) (n : ℕ) → n ≡ length xs → take n xs ≡ xs
take-all [] zero e = refl
take-all [] (suc n) e = absurd (omega arith)
take-all (x ∷ xs) zero e = absurd (omega arith)
take-all (x ∷ xs) (suc n) e = ap (◌∷◌ x) (take-all xs n (omega arith))

-- While the kernel takes at most as many bytes as it is given, `Write` on an open terminal sends a
-- first part of the data. If it succeeds it has sent all of it, in order and once, and has added its
-- length to the counters; else the counters stay.
pub write_bytes-IsWritten :
    (answers : List Answer) (data_bytes : List ℕ) (w : Writer)
    → w.is_open ≡ true
    → IsFitting answers (length data_bytes)
    → IsWritten data_bytes w (write_bytes answers data_bytes w)
unfolding write_bytes
write_bytes-IsWritten answers data_bytes w opened fit =
    let closed : not w.is_open ≡ false = ap not opened in
    let start : length data_bytes ≡ length data_bytes - 0 = omega arith in
    let (count, eq, fits, whole, short) =
      write_loop-Sends answers data_bytes 0 (omega arith) (subst (IsFitting answers) start fit) in
    let fits : count ≤ length data_bytes = omega arith in
    elim (Option-cases (write_loop answers data_bytes 0).1) [
      | inl e ↦
          rw (closed, e)
            ((count, eq, fits, λ x. omega (arith, short e)), (λ x. absurd (cc)), (λ x. refl))
      | inr (ok, e) ↦ elim (Bool-cases ok) [
        | inl f ↦
            let all = take-all data_bytes count (omega (arith, whole (e ∙ ap some f))) in
            rw (closed, e, f)
              ((count, eq, fits, λ x. absurd (cc)), (λ x. (eq ∙ all, refl)), (λ x. absurd (x refl)))
        | inr f ↦
            rw (closed, e, f) ((count, eq, fits, λ x. absurd (cc)), (λ x. absurd (cc)), (λ x. refl))
      ]
    ]

-- If no answer of the kernel ends the loop, and together they take the whole length of the data, then
-- `Write` on an open terminal succeeds.
pub write_bytes-true :
    (answers : List Answer) (data_bytes : List ℕ) (w : Writer)
    → w.is_open ≡ true
    → IsFitting answers (length data_bytes)
    → All (λ a. is_progress a ≡ true) answers
    → length data_bytes ≤ accepted answers
    → write_bytes answers data_bytes w ≡ (data_bytes, some true, counted (length data_bytes) w)
unfolding write_bytes
write_bytes-true answers data_bytes w opened fit go enough =
    let closed : not w.is_open ≡ false = ap not opened in
    let start : length data_bytes ≡ length data_bytes - 0 = omega arith in
    let fits = subst (IsFitting answers) start fit in
    let ok = write_loop-true answers data_bytes 0 (omega arith) fits go (omega arith) in
    let (count, eq, fits, whole, short) =
      write_loop-Sends answers data_bytes 0 (omega arith) fits in
    rw (closed, ok, eq, take-all data_bytes count (omega (arith, whole ok))) refl
