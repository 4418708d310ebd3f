-- ===== src/Packet/UserId/Slices.antt =====
-- The cuts of a user id lie inside it, in their order.
use go_crypto.Base.{
  ℕ, suc, ◌+◌, ◌-◌, ◌≤◌, ◌⊎◌, [], ◌∷◌, length, take, drop, Bytes, ok, ◌≡◌, refl, subst, arith,
}
use go_crypto.Packet.UserId.{
  Cuts, no_cuts, in_name, in_comment, in_email, cut_step, cut_loop, cut_end, slice, simple_form,
  parse_user_id,
}

-- Up to `offset`, the open part has a start and all closed parts are slices.
record AreCuts (offset : ℕ) (s : Cuts) : Type 0 where
  name_open : s.state ≡ 1 → s.n_start ≤ offset
  name_ok : (s.n_start ≤ s.n_end) ⊎ (s.state ≡ 1)
  name_in : s.n_end ≤ offset
  comment_open : s.state ≡ 3 → s.c_start ≤ offset
  comment_ok : (s.c_start ≤ s.c_end) ⊎ (s.state ≡ 3)
  comment_in : s.c_end ≤ offset
  email_open : s.state ≡ 6 → s.e_start ≤ offset
  email_ok : (s.e_start ≤ s.e_end) ⊎ (s.state ≡ 6)
  email_in : s.e_end ≤ offset

cut_step-AreCuts :
    (offset c : ℕ) (s : Cuts) → AreCuts offset s → AreCuts (suc offset) (cut_step s offset c)
unfolding cut_step in_name in_comment in_email
cut_step-AreCuts offset c s are = ground (arith, are)

cut_loop-AreCuts :
    (offset : ℕ) (id : Bytes) (s : Cuts)
    → AreCuts offset s
    → AreCuts (offset + length id) (cut_loop s offset id)
unfolding cut_loop
cut_loop-AreCuts offset [] s are = subst (λ n. AreCuts n s) (omega arith) are
cut_loop-AreCuts offset (c ∷ id) s are =
    subst (λ n. AreCuts n (cut_loop (cut_step s offset c) (suc offset) id)) (omega arith)
      (cut_loop-AreCuts (suc offset) id (cut_step s offset c) (cut_step-AreCuts offset c s are))

-- All three parts are slices.
record AreSlices (n : ℕ) (s : Cuts) : Type 0 where
  name_ok : s.n_start ≤ s.n_end
  name_in : s.n_end ≤ n
  comment_ok : s.c_start ≤ s.c_end
  comment_in : s.c_end ≤ n
  email_ok : s.e_start ≤ s.e_end
  email_in : s.e_end ≤ n

cut_end-AreSlices : (n : ℕ) (s : Cuts) → AreCuts n s → AreSlices n (cut_end s n)
unfolding cut_end
cut_end-AreSlices n s are = ground (arith, are)

no_cuts-AreCuts : AreCuts 0 no_cuts
no_cuts-AreCuts = ground arith

slice_lem :
    (id : Bytes) (start end : ℕ)
    → start ≤ end
    → end ≤ length id
    → slice id start end ≡ ok (take (end - start) (drop start id))
unfolding slice
slice_lem id start end h h' = ground (arith, h, h')

-- On any user id parseUserId does not panic: its state machine leaves the starts and the ends of
-- name, comment and email in order and inside the id, and what it returns are those slices, each
-- trimmed, with a name that holds an at sign taken for the email where there is none.
pub parse_user_id_lem :
    (trim : Bytes → Bytes) (id : Bytes)
    → let s = cut_end (cut_loop no_cuts 0 id) (length id) in
      let part : ℕ → ℕ → Bytes = λ start end. trim (take (end - start) (drop start id)) in
      parse_user_id trim id
      ≡ ok (simple_form (part s.n_start s.n_end) (part s.c_start s.c_end) (part s.e_start s.e_end))
unfolding parse_user_id
parse_user_id_lem trim id =
    let s = cut_end (cut_loop no_cuts 0 id) (length id) in
    let cuts = cut_end-AreSlices (length id) (cut_loop no_cuts 0 id) (
      subst (λ (n : ℕ). AreCuts n (cut_loop no_cuts 0 id)) (omega arith)
        (cut_loop-AreCuts 0 id no_cuts no_cuts-AreCuts)) in
    rw
      (
        slice_lem id s.n_start s.n_end cuts.name_ok cuts.name_in,
        slice_lem id s.c_start s.c_end cuts.comment_ok cuts.comment_in,
        slice_lem id s.e_start s.e_end cuts.email_ok cuts.email_in,
      )
      refl
