-- ===== src/Host/Guard.antt =====
-- `RunGuard` (main.cpp): the guest's region of 2^32 bytes, of which only the first pages can be read
-- or written, and the report on how the child process ended.
use temp_esas.Prelude.{
  ℕ, zero, suc, ap, sym, ◌∙◌, ◌+◌, ◌-◌, ◌*◌, ◌/◌, ◌%◌, ◌^◌, ◌≤◌, ◌<◌, ◌≡◌, List, Option, none, some,
  ◌==◌, if◌then◌else◌, get_elem?, arith, bit_and,
}
use Prim.Native.Nat.add
use native.Mathlib.Nat.{
  pow-suc, one-le-pow, div-lt_iff_lt-mul, div-add-mod, mod-lt, mul-sub, mul-add,
  lt_of_mul-lt-mul_left, mul-le-mul_left, pow-le-pow_right,
}
use temp_esas.Masks.{and_top}
use temp_esas.Bits.{◌&&&◌}

-- `1ULL<<32`, the size of the mapping.
abbrev pub region_size : ℕ
region_size = 2 ^ 32

-- `(dataSize + page_size - 1) & ~(page_size - 1)`, on the 64 bits of a `size_t`.
unfoldable pub accessible_size : ℕ → ℕ → ℕ
accessible_size page_size data_size = data_size + page_size - 1 &&& 2 ^ 64 - 1 - (page_size - 1)

-- `memcpy(memory32, &data[0], data.size())` into fresh pages, which are zero.
unfoldable pub fill_memory : List ℕ → ℕ → ℕ
fill_memory bytes a = elim (get_elem? bytes a) [ some b ↦ b | none ↦ 0 ]

-- How the child process ends: `_exit(0)` behind `RunTest`, the handler of SIGSEGV and SIGBUS, the
-- hard timeout of a thread, or a signal, as of a failed `assert`.
pub data ChildEnd : Type 0 where
  finished memory_exception hard_timeout killed : ChildEnd

-- What `waitpid` gives: the code of `WEXITSTATUS`, or `none` if `WIFEXITED` is false.
abbrev pub exit_status : ChildEnd → Option ℕ
exit_status finished = some 0
exit_status memory_exception = some 3
exit_status hard_timeout = some 1
exit_status killed = none

pub data Report : Type 0 where
  exited_normally caught_memory_exception terminated_with_hard_timeout : Report

-- The parent's report; `none` is a failed `assert`.
abbrev pub report : Option ℕ → Option Report
report none = none
report (some code) =
    if code == 0
    then some exited_normally
    else if code == 3
    then some caught_memory_exception
    else if code == 1
    then some terminated_with_hard_timeout
    else none

pow_add : (k w : ℕ) → 2 ^ (k + w) ≡ 2 ^ k * 2 ^ w
pow_add zero w = rw add.zero (omega arith)
pow_add (suc k) w = rw add.suc (
    ground
      (arith, pow-suc 2 k, pow-suc 2 (k + w), pow_add k w, ap (λ (t : ℕ). t * 2 ^ w) (pow-suc 2 k)))

module _ (k w : ℕ) (total : k + w ≡ 64) (n : ℕ) (small : n + 2 ^ k ≤ 2 ^ 64) where
  whole : 2 ^ k * 2 ^ w ≡ 2 ^ 64
  whole = sym (pow_add k w) ∙ ap (λ (t : ℕ). 2 ^ t) total

  abbrev pages : ℕ
  pages = (n + 2 ^ k - 1) / 2 ^ k

  pages-lt : pages < 2 ^ w
  pages-lt =
      (div-lt_iff_lt-mul {x = n + 2 ^ k - 1} (one-le-pow k 2 (omega arith))).1
        (omega (arith, whole, one-le-pow k 2 (omega arith)))

  mask : 2 ^ k * (2 ^ w - 1) + 0 ≡ 2 ^ 64 - 1 - (2 ^ k - 1)
  mask = rw (mul-sub (2 ^ k) (2 ^ w) 1) (omega (arith, whole, one-le-pow k 2 (omega arith)))

  -- The size is the smallest number of pages that holds the data.
  accessible_size-pages : accessible_size (2 ^ k) n ≡ 2 ^ k * pages
  unfolding accessible_size
  accessible_size-pages = rw (sym mask) (
      ap (λ (x : ℕ). bit_and x (2 ^ k * (2 ^ w - 1) + 0))
        (sym (div-add-mod (n + 2 ^ k - 1) (2 ^ k)))
      ∙ and_top k w pages ((n + 2 ^ k - 1) % 2 ^ k) pages-lt
          (mod-lt (n + 2 ^ k - 1) (one-le-pow k 2 (omega arith))))

-- A number of pages that reaches the end of the region, and no more.
pages_le :
    (p v q n : ℕ)
    → 0 < p
    → p * v ≡ region_size
    → n < region_size
    → p * q ≤ n + p - 1
    → p * q ≤ region_size
pages_le p v q n hp e hn h =
    let next : p * (v + 1) ≡ region_size + p = grind (arith, mul-add p v 1) in
    let few : q < v + 1 = lt_of_mul-lt-mul_left p (omega arith) in
    let most : p * q ≤ p * v = mul-le-mul_left p (omega arith) in omega (arith, most)

-- For pages of 2^k bytes, k at most 32, and a data size below 2^32, the accessible part of the
-- region holds the data, is less than a page larger, is a number of whole pages, and does not
-- reach past the region.
pub accessible_size-bounds :
    (k data_size : ℕ)
    → k ≤ 32
    → data_size < 2 ^ 32
    → (data_size ≤ accessible_size (2 ^ k) data_size)
      × (accessible_size (2 ^ k) data_size < data_size + 2 ^ k)
      × (accessible_size (2 ^ k) data_size ≤ region_size)
      × ((pages : ℕ) × (accessible_size (2 ^ k) data_size ≡ 2 ^ k * pages))
accessible_size-bounds k n hk hn =
    let total : k + (64 - k) ≡ 64 = omega arith in
    let page : 2 ^ k ≤ 2 ^ 32 = pow-le-pow_right (omega arith) hk in
    let one : 1 ≤ 2 ^ k = one-le-pow k 2 (omega arith) in
    let sum : k + (32 - k) ≡ 32 = omega arith in
    let region : 2 ^ k * 2 ^ (32 - k) ≡ region_size =
      sym (pow_add k (32 - k)) ∙ ap (λ (t : ℕ). 2 ^ t) sum in
    let count = (n + 2 ^ k - 1) / 2 ^ k in
    let e = accessible_size-pages k (64 - k) total n (omega arith) in
    let split = div-add-mod (n + 2 ^ k - 1) (2 ^ k) in
    let rest = mod-lt (n + 2 ^ k - 1) one in
    (
      omega (arith, e, split, rest),
      omega (arith, e, split, rest),
      rw e (pages_le (2 ^ k) (2 ^ (32 - k)) count n one region hn (omega (arith, split))),
      (count, e),
    )
