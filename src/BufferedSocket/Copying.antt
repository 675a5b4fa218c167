-- ===== src/BufferedSocket/Copying.antt =====
-- What `copy_iovec_to_write_buffer` of buffered_socket.c keeps.
use cjet.Base.{
  drop-within, ℕ, zero, suc, ◌-◌, ◌≤◌, true, false, List, [], ◌∷◌, ◌++◌, length, drop, ltb, leb,
  ◌≡◌, refl, sym, ap, ◌∙◌, arith, append_assoc, append-nil, length-append, length-drop, Bool-cases,
  inl, inr,
}
use cjet.BufferedSocket.{copy_single_buffer, copy_iovec_to_write_buffer, keep_rest, joined}

drop-beyond : (n : ℕ) (xs ys : List ℕ) → length xs ≤ n → drop n (xs ++ ys) ≡ drop (n - length xs) ys
drop-beyond n [] ys h = ap (λ k. drop k ys) (let q : n ≡ n - 0 = omega arith in q)
drop-beyond zero (x ∷ xs) ys h = absurd (omega arith)
drop-beyond (suc n) (x ∷ xs) ys h =
    drop-beyond n xs ys (omega arith)
    ∙ ap (λ k. drop k ys) (let q : n - length xs ≡ suc n - suc (length xs) = omega arith in q)

pub drop-all : (xs : List ℕ) → drop (length xs) xs ≡ []
drop-all [] = refl
drop-all (x ∷ xs) = drop-all xs

drop-nil : (n : ℕ) → drop {A = ℕ} n [] ≡ []
drop-nil zero = refl
drop-nil (suc n) = refl

module _ (cap : ℕ) (io : List ℕ) (io_vec : List (List ℕ)) (n : ℕ) (buffer : List ℕ) where
  copy-skipped :
      ltb n (length io) ≡ false
      → copy_iovec_to_write_buffer cap (io ∷ io_vec) n buffer
        ≡ copy_iovec_to_write_buffer cap io_vec (n - length io) buffer
  unfolding copy_iovec_to_write_buffer
  copy-skipped e = simp (e)

  copy-full :
      ltb n (length io) ≡ true
      → ltb (cap - length buffer) (length (drop n io)) ≡ true
      → copy_iovec_to_write_buffer cap (io ∷ io_vec) n buffer ≡ (false, buffer)
  unfolding copy_iovec_to_write_buffer copy_single_buffer
  copy-full e k = simp (e, k)

  copy-copied :
      ltb n (length io) ≡ true
      → ltb (cap - length buffer) (length (drop n io)) ≡ false
      → copy_iovec_to_write_buffer cap (io ∷ io_vec) n buffer
        ≡ copy_iovec_to_write_buffer cap io_vec 0 (buffer ++ drop n io)
  unfolding copy_iovec_to_write_buffer copy_single_buffer
  copy-copied e k = simp (e, k)

module _ (cap : ℕ) where
  copy-joined :
      (io_vec : List (List ℕ)) (n : ℕ) (buffer : List ℕ)
      → (copy_iovec_to_write_buffer cap io_vec n buffer).0 ≡ true
      → (copy_iovec_to_write_buffer cap io_vec n buffer).1 ≡ buffer ++ drop n (joined io_vec)
  unfolding copy_iovec_to_write_buffer
  copy-joined [] n buffer copied = sym (ap (λ l. buffer ++ l) (drop-nil n) ∙ append-nil buffer)
  copy-joined (io ∷ io_vec) n buffer copied = elim (Bool-cases (ltb n (length io))) [
    | inr e ↦
        let s = copy-skipped cap io io_vec n buffer e in
        ap (λ r. r.1) s
        ∙ copy-joined io_vec (n - length io) buffer (sym (ap (λ r. r.0) s) ∙ copied)
        ∙ ap (λ l. buffer ++ l) (sym (drop-beyond n io (joined io_vec) (ground arith)))
    | inl e ↦ elim (Bool-cases (ltb (cap - length buffer) (length (drop n io)))) [
      | inl k ↦
          let s = copy-full cap io io_vec n buffer e k in
          let q : false ≡ true = sym (ap (λ r. r.0) s) ∙ copied in absurd (cc)
      | inr k ↦
          let s = copy-copied cap io io_vec n buffer e k in
          ap (λ r. r.1) s
          ∙ copy-joined io_vec 0 (buffer ++ drop n io) (sym (ap (λ r. r.0) s) ∙ copied)
          ∙ append_assoc buffer (drop n io) (joined io_vec)
          ∙ ap (λ l. buffer ++ l) (sym (drop-within n io (joined io_vec) (ground arith)))
    ]
  ]

  copy-room :
      (io_vec : List (List ℕ)) (n : ℕ) (buffer : List ℕ)
      → length buffer ≤ cap
      → length (copy_iovec_to_write_buffer cap io_vec n buffer).1 ≤ cap
  unfolding copy_iovec_to_write_buffer
  copy-room [] n buffer room = room
  copy-room (io ∷ io_vec) n buffer room = elim (Bool-cases (ltb n (length io))) [
    | inr e ↦
        rw (copy-skipped cap io io_vec n buffer e) (copy-room io_vec (n - length io) buffer room)
    | inl e ↦ elim (Bool-cases (ltb (cap - length buffer) (length (drop n io)))) [
      | inl k ↦ rw (copy-full cap io io_vec n buffer e k) room
      | inr k ↦ rw (copy-copied cap io io_vec n buffer e k) (
          copy-room io_vec 0 (buffer ++ drop n io)
            (ground (arith, length-append buffer (drop n io))))
    ]
  ]

  pub keep_rest-joined :
      (io_vec : List (List ℕ)) (sent : ℕ) (buffer : List ℕ)
      → (keep_rest cap io_vec sent buffer).0 ≡ true
      → (keep_rest cap io_vec sent buffer).1 ≡ drop sent (buffer ++ joined io_vec)
  unfolding keep_rest
  keep_rest-joined io_vec sent buffer kept = elim (Bool-cases (leb sent (length buffer))) [
    | inl e ↦
        let s : keep_rest cap io_vec sent buffer
            ≡ copy_iovec_to_write_buffer cap io_vec 0 (drop sent buffer) =
          simp (e) in
        ap (λ r. r.1) s
        ∙ copy-joined io_vec 0 (drop sent buffer) (sym (ap (λ r. r.0) s) ∙ kept)
        ∙ sym (drop-within sent buffer (joined io_vec) (ground arith))
    | inr e ↦
        let s : keep_rest cap io_vec sent buffer
            ≡ copy_iovec_to_write_buffer cap io_vec (sent - length buffer) [] =
          simp (e) in
        ap (λ r. r.1) s
        ∙ copy-joined io_vec (sent - length buffer) [] (sym (ap (λ r. r.0) s) ∙ kept)
        ∙ sym (drop-beyond sent buffer (joined io_vec) (ground arith))
  ]

  pub keep_rest-room :
      (io_vec : List (List ℕ)) (sent : ℕ) (buffer : List ℕ)
      → length buffer ≤ cap
      → length (keep_rest cap io_vec sent buffer).1 ≤ cap
  unfolding keep_rest
  keep_rest-room io_vec sent buffer room = elim (Bool-cases (leb sent (length buffer))) [
    | inl e ↦ rw e (copy-room io_vec 0 (drop sent buffer) (omega (arith, length-drop sent buffer)))
    | inr e ↦ rw e (copy-room io_vec (sent - length buffer) [] (omega arith))
  ]
