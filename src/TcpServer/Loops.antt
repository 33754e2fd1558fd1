-- ===== src/TcpServer/Loops.antt =====
-- src/tcp_server.cpp: the loops over `recv` and `send`.
use edge_link.Prelude.{
  ℕ, zero, suc, ◌+◌, ◌-◌, ◌≤◌, min, ◌≡◌, refl, sym, ap, ◌∙◌, inl, inr, List, [], ◌∷◌, ◌++◌,
  append-nil, append_assoc, arith, ltb, eqb, Bool-cases, Text, length, take, drop, take-append-drop,
}
use edge_link.Prelude.Keys.{text_eq, nat_eq}
use edge_link.TcpServer.{
  RecvResult, read_loop, SendResult, wrote, send_interrupted, send_blocked, send_failed, WriteEnd,
  write_loop,
}

-- The bytes that the loop over `recv` takes.
unfoldable pub bytes_read : List RecvResult → Text
bytes_read [] = []
bytes_read (RecvResult.received [] ∷ rs) = []
bytes_read (RecvResult.received (c ∷ cs) ∷ rs) = (c ∷ cs) ++ bytes_read rs
bytes_read (RecvResult.recv_interrupted ∷ rs) = bytes_read rs
bytes_read (RecvResult.recv_closed ∷ rs) = []
bytes_read (RecvResult.recv_blocked ∷ rs) = []
bytes_read (RecvResult.recv_failed ∷ rs) = []

drop_nil : (n : ℕ) → drop {A = ℕ} n [] ≡ []
drop_nil zero = refl
drop_nil (suc n) = refl

drop-drop : (m n : ℕ) (t : Text) → drop (m + n) t ≡ drop n (drop m t)
drop-drop zero n t = ap (λ k. drop k t) (omega arith)
drop-drop (suc m) n [] = drop_nil (suc m + n) ∙ sym (drop_nil n)
drop-drop (suc m) n (c ∷ cs) =
    let next : suc m + n ≡ suc (m + n) = omega arith in
    ap (λ k. drop k (c ∷ cs)) next ∙ drop-drop m n cs

pub drop_all : (n : ℕ) (t : Text) → length t ≤ n → drop n t ≡ []
drop_all zero [] h = refl
drop_all zero (c ∷ cs) h = absurd (omega arith)
drop_all (suc n) [] h = refl
drop_all (suc n) (c ∷ cs) h = drop_all n cs (omega arith)

pub drop-append : (n : ℕ) (t u : Text) → n ≤ length t → drop n (t ++ u) ≡ drop n t ++ u
drop-append zero t u h = refl
drop-append (suc n) [] u h = absurd (omega arith)
drop-append (suc n) (c ∷ cs) u h = drop-append n cs u (omega arith)

pub read_loop_lem :
    (rs : List RecvResult) (buffer : Text) → (read_loop rs buffer).1 ≡ buffer ++ bytes_read rs
unfolding read_loop bytes_read
read_loop_lem [] buffer = sym (append-nil buffer)
read_loop_lem (RecvResult.received [] ∷ rs) buffer = sym (append-nil buffer)
read_loop_lem (RecvResult.received (c ∷ cs) ∷ rs) buffer =
    read_loop_lem rs (buffer ++ (c ∷ cs)) ∙ append_assoc buffer (c ∷ cs) (bytes_read rs)
read_loop_lem (RecvResult.recv_interrupted ∷ rs) buffer = read_loop_lem rs buffer
read_loop_lem (RecvResult.recv_closed ∷ rs) buffer = sym (append-nil buffer)
read_loop_lem (RecvResult.recv_blocked ∷ rs) buffer = sym (append-nil buffer)
read_loop_lem (RecvResult.recv_failed ∷ rs) buffer = sym (append-nil buffer)

-- The kernel takes the unsent bytes from the front; the loop succeeds only with the whole buffer.
pub write_loop_lem :
    (rs : List SendResult) (buffer : Text) (offset : ℕ)
    → offset ≤ length buffer
    → let (sent, end_offset, why) = write_loop rs buffer offset in
      (sent ++ drop end_offset buffer ≡ drop offset buffer)
      × (end_offset ≤ length buffer)
      × (why ≡ WriteEnd.all_written → end_offset ≡ length buffer)
unfolding write_loop
write_loop_lem [] buffer offset h = elim (Bool-cases (ltb offset (length buffer))) [
  | inl e ↦ rw e (refl, h, λ why. cc)
  | inr e ↦ rw e (refl, h, λ why. ground arith)
]
write_loop_lem (wrote n ∷ rs) buffer offset h = elim (Bool-cases (ltb offset (length buffer))) [
  | inr e ↦ rw e (refl, h, λ why. ground arith)
  | inl e ↦
      let k = min n (length buffer - offset) in
      let (taken, inside, whole) = write_loop_lem rs buffer (offset + k) (omega arith) in
      let (sent, end_offset, why) = write_loop rs buffer (offset + k) in
      elim (Bool-cases (eqb k 0)) [
        | inl z ↦ rw (e, z) (refl, h, λ why. cc)
        | inr z ↦
            rw (e, z)
              (
                append_assoc (take k (drop offset buffer)) sent (drop end_offset buffer)
                    ∙ ap (◌++◌ (take k (drop offset buffer))) (taken ∙ drop-drop offset k buffer)
                    ∙ take-append-drop k (drop offset buffer),
                inside,
                whole,
              )
      ]
]
write_loop_lem (send_interrupted ∷ rs) buffer offset h =
    elim (Bool-cases (ltb offset (length buffer))) [
      | inr e ↦ rw e (refl, h, λ why. ground arith)
      | inl e ↦ rw e (write_loop_lem rs buffer offset h)
    ]
write_loop_lem (send_blocked ∷ rs) buffer offset h =
    elim (Bool-cases (ltb offset (length buffer))) [
      | inr e ↦ rw e (refl, h, λ why. ground arith)
      | inl e ↦ rw e (refl, h, λ why. cc)
    ]
write_loop_lem (send_failed ∷ rs) buffer offset h = elim (Bool-cases (ltb offset (length buffer))) [
  | inr e ↦ rw e (refl, h, λ why. ground arith)
  | inl e ↦ rw e (refl, h, λ why. cc)
]
