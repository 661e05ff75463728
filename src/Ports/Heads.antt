-- ===== src/Ports/Heads.antt =====
-- Where the walk along `follows` ends.
use gsm.Common.{
  ℕ, zero, suc, ◌+◌, ◌≤◌, ◌≡◌, refl, inl, inr, none, some, List, length, Option-cases, arith,
}
use gsm.Ports.{TemplatePort, PortMap, next_head, head_loop, head_of, by_name}

head_loop_stop :
    (m : PortMap) (left : ℕ) (head : TemplatePort) (offset : ℕ)
    → next_head m head ≡ none
    → head_loop m (suc left) head offset ≡ (head, offset)
unfolding head_loop
head_loop_stop m left head offset e = rw (e, head_loop)

head_loop_step :
    (m : PortMap) (left : ℕ) (head : TemplatePort) (offset : ℕ) (h : TemplatePort)
    → next_head m head ≡ some h
    → head_loop m (suc left) head offset ≡ head_loop m left h (offset + 1)
unfolding head_loop
head_loop_step m left head offset h e = rw (e, head_loop)

pub head_loop_bounds :
    (m : PortMap) (left : ℕ) (head : TemplatePort) (offset : ℕ)
    → (offset ≤ (head_loop m left head offset).1)
      × ((head_loop m left head offset).1 ≤ offset + left)
unfolding head_loop
head_loop_bounds m zero head offset = omega arith
head_loop_bounds m (suc left) head offset = elim (Option-cases (next_head m head)) [
  | inl end ↦ rw (head_loop_stop m left head offset end) (omega arith)
  | inr (h, found) ↦
      rw (head_loop_step m left head offset h found)
        (omega (arith, head_loop_bounds m left h (offset + 1)))
]

-- A walk that made no step ends where it began.
head_loop_same :
    (m : PortMap) (left : ℕ) (head : TemplatePort) (offset : ℕ)
    → (head_loop m left head offset).1 ≡ offset
    → (head_loop m left head offset).0 ≡ head
unfolding head_loop
head_loop_same m zero head offset e = refl
head_loop_same m (suc left) head offset e = elim (Option-cases (next_head m head)) [
  | inl end ↦ rw (head_loop_stop m left head offset end)
  | inr (h, found) ↦ absurd (
      omega (
        arith,
        head_loop_bounds m left h (offset + 1),
        rw (head_loop_step m left head offset h found) at e,
      ))
]

pub head_of_self :
    (ports : List TemplatePort) (p : TemplatePort)
    → (head_of ports p).1 ≡ 0
    → (head_of ports p).0 ≡ p
unfolding head_of
head_of_self ports p e = head_loop_same (by_name ports) (length ports) p 0 e
