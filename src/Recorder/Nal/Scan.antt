-- ===== src/Recorder/Nal/Scan.antt =====
-- compressed_recorder.c, `find_start_code`: it finds the first start code, and misses none.
use myworkspace.Prelude.{
  ℕ, zero, suc, ◌+◌, ◌-◌, ◌≤◌, ◌<◌, ◌≡◌, ◌⊎◌, ◌≢◌, inl, inr, List, Option, none, some, arith,
  length, refl, ltb, leb, Bool-cases, ltb→lt,
}
use native.Mathlib.Decide.{dec_lt}
use myworkspace.Protocol.{byte_at}
use myworkspace.Recorder.Nal.{start_code_len_at, find_loop, find_start_code, trim_end}

-- No start code begins from `i` up to before `j`.
abbrev pub IsFree : List ℕ → ℕ → ℕ → Type 0
IsFree d i j = (p : ℕ) → i ≤ p → p < j → start_code_len_at d p ≡ 0

-- `pos` is the first start code from `i` on.
pub record IsFirst (d : List ℕ) (i pos sc : ℕ) : Type 0 where
  pub after : i ≤ pos
  pub inside : pos + sc ≤ length d
  pub code : start_code_len_at d pos ≡ sc
  pub some_code : (sc ≡ 3) ⊎ (sc ≡ 4)
  pub none_before : IsFree d i pos

pub data Found (d : List ℕ) (i : ℕ) : Option (ℕ × ℕ) → Type 0 where
  at : (pos sc : ℕ) → IsFirst d i pos sc → Found d i (some (pos, sc))
  nowhere : IsFree d i (length d) → Found d i none

start_code_len_inside :
    (d : List ℕ) (i : ℕ)
    → 0 < start_code_len_at d i
    → (i + start_code_len_at d i ≤ length d)
      × ((start_code_len_at d i ≡ 3) ⊎ (start_code_len_at d i ≡ 4))
unfolding start_code_len_at
start_code_len_inside d i h = ground arith

start_code_len_tail : (d : List ℕ) (p : ℕ) → length d < p + 3 → start_code_len_at d p ≡ 0
unfolding start_code_len_at
start_code_len_tail d p h = ground arith

IsFree-extend :
    (d : List ℕ) (i j : ℕ) → start_code_len_at d i ≡ 0 → IsFree d (i + 1) j → IsFree d i j
IsFree-extend d i j z free p ip pj = elim (dec_lt i p) [
  | yes less ↦ free p (omega arith) pj
  | no same ↦ let e : p ≡ i = omega arith in rw e z
]

Found-extend :
    (d : List ℕ) (i : ℕ) {o : Option (ℕ × ℕ)}
    → start_code_len_at d i ≡ 0
    → Found d (i + 1) o
    → Found d i o
Found-extend d i z (at pos sc f) = at pos sc (record {
  after = omega (arith, f.after);
  inside = f.inside;
  code = f.code;
  some_code = f.some_code;
  none_before = IsFree-extend d i pos z f.none_before;
})
Found-extend d i z (nowhere free) = nowhere (IsFree-extend d i (length d) z free)

find_loop-Found : (k : ℕ) (d : List ℕ) (i : ℕ) → length d < i + 3 + k → Found d i (find_loop k d i)
unfolding find_loop
find_loop-Found zero d i h = nowhere (λ p ip pl. start_code_len_tail d p (omega arith))
find_loop-Found (suc k) d i h = elim (Bool-cases (leb (i + 3) (length d))) [
  | inr short ↦ rw short (nowhere (λ p ip pl. start_code_len_tail d p (ground arith)))
  | inl long ↦ rw long (elim (Bool-cases (ltb 0 (start_code_len_at d i))) [
    | inl hit ↦
        let inside = start_code_len_inside d i (ltb→lt 0 (start_code_len_at d i) hit) in
        rw hit (
          at i (start_code_len_at d i) (record {
            after = omega arith;
            inside = inside.0;
            code = refl;
            some_code = inside.1;
            none_before = λ p ip pl. absurd (omega arith);
          }))
    | inr miss ↦
        rw miss (Found-extend d i (ground arith) (find_loop-Found k d (i + 1) (omega arith)))
  ])
]

-- From any position, `find_start_code` returns the first start code at or after it, with its
-- length, which is 3 or 4, all inside the buffer; it returns SIZE_MAX only if there is none. Its
-- rounds suffice.
pub find_start_code-Found : (d : List ℕ) (start : ℕ) → Found d start (find_start_code d start)
unfolding find_start_code
find_start_code-Found d start = find_loop-Found (length d) d start (omega arith)

-- `nal_end` never goes below `nal_start`, never grows, and what is cut off is zero bytes; a unit
-- that is left does not end in a zero byte.
pub trim_end_lem :
    (d : List ℕ) (nal_start nal_end : ℕ)
    → nal_start ≤ nal_end
    → (nal_start ≤ trim_end d nal_start nal_end)
      × (trim_end d nal_start nal_end ≤ nal_end)
      × ((trim_end d nal_start nal_end ≡ nal_start)
          ⊎ (byte_at d (trim_end d nal_start nal_end - 1) ≢ 0))
unfolding trim_end
trim_end_lem d nal_start zero h = ground arith
trim_end_lem d nal_start (suc e) h = ground (arith, trim_end_lem d nal_start e)
