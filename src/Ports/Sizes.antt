-- ===== src/Ports/Sizes.antt =====
-- The block sizes: every port lies within its head's block, and each head is listed once.
use gsm.Common.{
  ℕ, ◌+◌, ◌≤◌, ◌<◌, max, ◌≡◌, some, List, [], ◌∷◌, String, ◌==◌, lookup, insert, UniqueKeys,
  insert-UniqueKeys, lookup-insert, All, All-zip, lookup_of_entry, string_eq, or_else, arith,
  if◌then◌else◌,
}
use gsm.Ports.{TemplatePort, Sizes, head_of, grow, sizes_from, block_sizes}

-- The size of the block of `name`; 0 if there is none.
abbrev pub size_of : Sizes → String → ℕ
size_of size name = or_else (lookup name size) 0

abbrev pub Positive : Sizes → Type 0
Positive size = All (λ e. 1 ≤ e.1) size

insert-Positive : (k : String) (n : ℕ) (m : Sizes) → 1 ≤ n → Positive m → Positive (insert k n m)
unfolding insert
insert-Positive k n [] h p = (h, tt)
insert-Positive k n ((j, w) ∷ m) h (q, p) = ground (arith, insert-Positive k n m h p)

size_of-insert :
    (k j : String) (n : ℕ) (m : Sizes)
    → size_of (insert k n m) j ≡ (if k == j then n else size_of m j)
size_of-insert k j n m = ground (arith, lookup-insert k j n m)

module _ (head : TemplatePort) (offset : ℕ) (size : Sizes) where
  new_size : ℕ
  new_size = max (or_else (lookup head.name size) 1) (offset + 1)

  grow_reaches : offset < size_of (grow (head, offset) size) head.name
  unfolding grow new_size
  grow_reaches = ground (
    arith,
    string_eq.test_iff head.name head.name,
    size_of-insert head.name head.name new_size size,
  )

  grow_mono :
      (name : String) (k : ℕ) → k < size_of size name → k < size_of (grow (head, offset) size) name
  unfolding grow new_size
  grow_mono name k h =
      ground (arith, string_eq.test_iff head.name name, size_of-insert head.name name new_size size)

  grow-UniqueKeys : UniqueKeys size → UniqueKeys (grow (head, offset) size)
  unfolding grow
  grow-UniqueKeys u = insert-UniqueKeys head.name _ size u

  grow-Positive : Positive size → Positive (grow (head, offset) size)
  unfolding grow
  grow-Positive p = insert-Positive head.name _ size (omega arith) p

module _ (all : List TemplatePort) where
  sizes_from_mono :
      (size : Sizes) (ports : List TemplatePort) (name : String) (k : ℕ)
      → k < size_of size name
      → k < size_of (sizes_from all size ports) name
  unfolding sizes_from
  sizes_from_mono size [] name k h = h
  sizes_from_mono size (p ∷ ports) name k h =
      let (head, offset) = head_of all p in
      sizes_from_mono (grow (head, offset) size) ports name k (grow_mono head offset size name k h)

  sizes_from_reaches :
      (size : Sizes) (ports : List TemplatePort)
      → All
          (λ p. (head_of all p).1 < size_of (sizes_from all size ports) (head_of all p).0.name)
          ports
  unfolding sizes_from
  sizes_from_reaches size [] = tt
  sizes_from_reaches size (p ∷ ports) =
      let (head, offset) = head_of all p in
      (
        sizes_from_mono (grow (head, offset) size) ports head.name offset
            (grow_reaches head offset size),
        sizes_from_reaches (grow (head, offset) size) ports,
      )

  sizes_from_kept :
      (size : Sizes) (ports : List TemplatePort)
      → UniqueKeys size
      → Positive size
      → UniqueKeys (sizes_from all size ports) × Positive (sizes_from all size ports)
  unfolding sizes_from
  sizes_from_kept size [] u p = (u, p)
  sizes_from_kept size (q ∷ ports) u p =
      let (head, offset) = head_of all q in
      sizes_from_kept (grow (head, offset) size) ports (grow-UniqueKeys head offset size u)
        (grow-Positive head offset size p)

-- Every port of the template lies within its head's block.
pub block_sizes_reach :
    (ports : List TemplatePort)
    → All (λ p. (head_of ports p).1 < size_of (block_sizes ports) (head_of ports p).0.name) ports
unfolding block_sizes
block_sizes_reach ports = sizes_from_reaches ports [] ports

-- What the loops over the sizes meet: each head once, with the size that `size` holds for it.
abbrev pub Entries : Sizes → Sizes → Type 0
Entries size = All (λ e. (lookup e.0 size ≡ some e.1) × (1 ≤ e.1))

pub block_sizes-Entries :
    (ports : List TemplatePort) → Entries (block_sizes ports) (block_sizes ports)
unfolding block_sizes
block_sizes-Entries ports =
    let (u, p) = sizes_from_kept ports [] ports tt tt in
    All-zip _ (sizes_from ports [] ports) (λ x a b. (a, b))
      (lookup_of_entry (sizes_from ports [] ports) u) p
