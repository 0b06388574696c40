-- ===== src/Pmm/Valid.antt =====
-- The invariant of the bitmap of mm/pmm.c: its size, its unused last bits, and `used_pages`.
use cane.Common.{
  ℕ, zero, suc, ◌+◌, ◌/◌, ◌%◌, ◌^◌, ◌<◌, ◌≤◌, ◌≡◌, refl, Bool, true, arith, ◌==◌, Bool-cases, inl,
  inr, get_or, set, length, length-set, length-replicate, get_or-set_self, get_or-set_ne, ◌∙◌,
  replicate,
}
use cane.Common.Bits.{test_bit-full}
use cane.Pmm.{Pmm, pmm_init}
use cane.Pmm.View.{bit_at, count, count-full, count-update, count_ext, update, weight}

pub record IsValid (m : Pmm) : Type 0 where
  pub small : m.total_pages < 2 ^ 52
  pub size : m.bitmap_size ≡ (m.total_pages + 7) / 8
  pub storage : length m.bitmap ≡ m.bitmap_size
  pub bytes : (i : ℕ) → get_or m.bitmap i 0xFF < 256
  pub tail : (n : ℕ) → m.total_pages ≤ n → bit_at m.bitmap n ≡ true
  pub counted : m.used_pages ≡ count (bit_at m.bitmap) m.total_pages

get_or-replicate_full : (k i : ℕ) → ◌≡◌ {A = ℕ} (get_or (replicate k 0xFF) i 0xFF) 0xFF
get_or-replicate_full zero i = refl
get_or-replicate_full (suc k) zero = refl
get_or-replicate_full (suc k) (suc i) = get_or-replicate_full k i

bit_at-replicate : (k n : ℕ) → bit_at (replicate k 0xFF) n ≡ true
bit_at-replicate k n = rw (get_or-replicate_full k (n / 8)) (test_bit-full (n % 8) (omega arith))

-- `pmm_init` makes a valid bitmap of `size / 4096` pages, all of them used.
pub pmm_init-IsValid :
    (size : ℕ)
    → size < 2 ^ 64
    → IsValid (pmm_init size)
      × ((n : ℕ) → bit_at (pmm_init size).bitmap n ≡ true)
      × ((pmm_init size).used_pages ≡ size / 4096)
unfolding pmm_init
pmm_init-IsValid size h = (
  record {
    small = omega arith;
    size = refl;
    storage = length-replicate _ _;
    bytes = λ i. omega (arith, get_or-replicate_full ((size / 4096 + 7) / 8) i);
    tail = λ n q. bit_at-replicate _ n;
    counted = rw (count-full _ (size / 4096) (λ k q. bit_at-replicate ((size / 4096 + 7) / 8) k));
  },
  λ n. bit_at-replicate _ n,
  refl,
)

-- A write of one byte that changes one bit keeps the invariant, if the count follows.
pub set-IsValid :
    {m : Pmm} (p b used : ℕ) (v : Bool)
    → IsValid m
    → p < m.total_pages
    → b < 256
    → ((n : ℕ) → bit_at (set m.bitmap (p / 8) b) n ≡ update (bit_at m.bitmap) p v n)
    → used + weight (bit_at m.bitmap p) ≡ m.used_pages + weight v
    → IsValid (record m { bitmap = set m.bitmap (p / 8) b; used_pages = used })
set-IsValid {m} p b used v ok inside small bits sum = record {
  small = ok.small;
  size = ok.size;
  storage = length-set m.bitmap (p / 8) b ∙ ok.storage;
  bytes = λ i. elim (Bool-cases (p / 8 == i)) [
    | inl e ↦
        let e' : p / 8 ≡ i = ground arith in
        rw (← e', get_or-set_self m.bitmap (p / 8) b 0xFF (omega (arith, ok.size, ok.storage)))
          small
    | inr e ↦ rw (get_or-set_ne m.bitmap (p / 8) i b 0xFF (ground arith)) (ok.bytes i)
  ];
  tail = λ n q. ground (arith, bits n, ok.tail n q);
  counted = omega (
    arith,
    ok.counted,
    count_ext (bit_at (set m.bitmap (p / 8) b)) (update (bit_at m.bitmap) p v) m.total_pages
        (λ k q. bits k),
    count-update (bit_at m.bitmap) p v m.total_pages inside,
  );
}
