-- ===== src/Offsets/Ranges.antt =====
-- The byte ranges of a tensor's experts.
use pocket_agents_lab.Prelude.{
  zero, suc, ◌+◌, if◌then◌else◌, nat_Eq, ℕ, count_if, ◌<◌, Bool, ◌≡◌, leb, ◌%◌, ◌&&◌, ltb, ◌+◌,
  arith, ◌*◌, ◌/◌,
}
use pocket_agents_lab.Offsets.{Tensor, Expert, experts_from, entry_of, ℕ, Bool, leb, suc}

-- The byte is in the expert's range.
abbrev pub has_byte : ℕ → Expert → Bool
has_byte b e = leb e.offset b && ltb b (e.offset + e.length)

abbrev pub is_between : ℕ → ℕ → ℕ → Bool
is_between first b end = leb first b && ltb b end

mul-suc : (i size : ℕ) → (i + 1) * size ≡ i * size + size
mul-suc i size = omega arith

mul-add : (i n size : ℕ) → (i + 1 + n) * size ≡ (i + 1) * size + n * size
mul-add i n size = omega arith

quotient : (n d : ℕ) → 0 < d → n % d ≡ 0 → d * (n / d) ≡ n
quotient n d pos divides = omega arith

count-experts_from :
    (data_offset size i n b : ℕ)
    → count_if (has_byte b) (experts_from data_offset size i n)
      ≡ (if is_between (data_offset + i * size) b (data_offset + (i + n) * size) then 1 else 0)
unfolding experts_from
count-experts_from data_offset size i zero b = ground arith
count-experts_from data_offset size i (suc n) b =
    ground
      (arith, count-experts_from data_offset size (i + 1) n b, mul-suc i size, mul-add i n size)

-- The experts of a tensor whose size a positive expert count divides share its bytes out: every
-- byte of the tensor is in the range of exactly one expert, and no other byte of the file is in
-- any.
pub entry_of-bytes :
    (tensor : Tensor) (n_expert b : ℕ)
    → 0 < n_expert
    → tensor.n_bytes % n_expert ≡ 0
    → count_if (has_byte b) (entry_of tensor n_expert).experts
      ≡ (if is_between tensor.data_offset b (tensor.data_offset + tensor.n_bytes) then 1 else 0)
unfolding entry_of
entry_of-bytes tensor n_expert b pos divides = ground (
  arith,
  count-experts_from tensor.data_offset (tensor.n_bytes / n_expert) 0 n_expert b,
  quotient tensor.n_bytes n_expert pos divides,
)
