-- ===== src/Pty/Queue.antt =====
-- `TakeOutput` of src/pty_session.cpp.
use mathlib.Core.List.{append-nil, append_assoc}
use sakura_wx_prototype.Prelude.{
  ℕ, ◌+◌, ◌-◌, ◌≤◌, ◌<◌, min, ◌≡◌, refl, inl, inr, List, [], ◌∷◌, ◌++◌, arith, leb, ltb, length,
  length-append, length-take, take, drop, take-append-drop, Bool-cases,
}
use sakura_wx_prototype.Pty.{Output, take_chunks, take_locked}

-- The bytes of the chunks, in order.
abbrev pub flatten : List (List ℕ) → List ℕ
flatten [] = []
flatten (chunk ∷ chunks) = chunk ++ flatten chunks

pub flatten-append : (xs ys : List (List ℕ)) → flatten (xs ++ ys) ≡ flatten xs ++ flatten ys
flatten-append [] ys = refl
flatten-append (x ∷ xs) ys =
    rw (flatten-append xs ys, append_assoc x (flatten xs) (flatten ys)) refl

take_chunks-bytes :
    (chunks : List (List ℕ)) (taken max_bytes : ℕ)
    → flatten (take_chunks chunks taken max_bytes).0
        ++ flatten (take_chunks chunks taken max_bytes).1
      ≡ flatten chunks
unfolding take_chunks
take_chunks-bytes [] taken max_bytes = refl
take_chunks-bytes (chunk ∷ chunks) taken max_bytes = elim (Bool-cases (ltb taken max_bytes)) [
  | inr e ↦ rw e refl
  | inl e ↦ elim (Bool-cases (leb (length chunk) (max_bytes - taken))) [
    | inl f ↦
        rw
          (
            e,
            f,
            append_assoc chunk (flatten (take_chunks chunks (taken + length chunk) max_bytes).0)
                (flatten (take_chunks chunks (taken + length chunk) max_bytes).1),
            take_chunks-bytes chunks (taken + length chunk) max_bytes,
          )
          refl
    | inr f ↦
        rw
          (
            e,
            f,
            append-nil (take (max_bytes - taken) chunk),
            ← append_assoc (take (max_bytes - taken) chunk) (drop (max_bytes - taken) chunk)
                (flatten chunks),
            take-append-drop (max_bytes - taken) chunk,
          )
          refl
  ]
]

take_chunks-total :
    (chunks : List (List ℕ)) (taken max_bytes : ℕ)
    → (take_chunks chunks taken max_bytes).2
      ≡ taken + length (flatten (take_chunks chunks taken max_bytes).0)
unfolding take_chunks
take_chunks-total [] taken max_bytes = omega arith
take_chunks-total (chunk ∷ chunks) taken max_bytes =
    let ih = take_chunks-total chunks (taken + length chunk) max_bytes in
    let grows =
      length-append chunk (flatten (take_chunks chunks (taken + length chunk) max_bytes).0) in
    elim (Bool-cases (ltb taken max_bytes)) [
      | inr e ↦ rw e (omega arith)
      | inl e ↦ elim (Bool-cases (leb (length chunk) (max_bytes - taken))) [
        | inl f ↦ rw (e, f) (omega (arith, ih, grows))
        | inr f ↦
            let over : max_bytes - taken < length chunk = ground arith in
            rw (e, f, append-nil (take (max_bytes - taken) chunk))
              (omega (arith, length-take (max_bytes - taken) chunk))
      ]
    ]

take_chunks-count :
    (chunks : List (List ℕ)) (taken max_bytes : ℕ)
    → taken ≤ max_bytes
    → (take_chunks chunks taken max_bytes).2 ≡ min max_bytes (taken + length (flatten chunks))
unfolding take_chunks
take_chunks-count [] taken max_bytes h = omega arith
take_chunks-count (chunk ∷ chunks) taken max_bytes h =
    let total = length-append chunk (flatten chunks) in
    elim (Bool-cases (ltb taken max_bytes)) [
      | inr e ↦ rw e (ground (arith, total))
      | inl e ↦ elim (Bool-cases (leb (length chunk) (max_bytes - taken))) [
        | inl f ↦
            let fits : taken + length chunk ≤ max_bytes = ground arith in
            let ih = take_chunks-count chunks (taken + length chunk) max_bytes fits in
            rw (e, f) (omega (arith, ih, total))
        | inr f ↦
            let over : max_bytes - taken < length chunk = ground arith in
            rw (e, f) (omega (arith, total))
      ]
    ]

-- `TakeOutput` takes the first bytes of the queue, `max_bytes` of them or all if there are fewer, and
-- leaves the others in order; it counts as many bytes as it hands over.
pub take_locked-prefix :
    (o : Output) (max_bytes : ℕ)
    → (flatten (take_locked max_bytes o).0 ++ flatten (take_locked max_bytes o).2.chunks
        ≡ flatten o.chunks)
      × ((take_locked max_bytes o).1 ≡ length (flatten (take_locked max_bytes o).0))
      × ((take_locked max_bytes o).1 ≡ min max_bytes (length (flatten o.chunks)))
unfolding take_locked
take_locked-prefix o max_bytes = (
  take_chunks-bytes o.chunks 0 max_bytes,
  omega (arith, take_chunks-total o.chunks 0 max_bytes),
  omega (arith, take_chunks-count o.chunks 0 max_bytes (omega arith)),
)
