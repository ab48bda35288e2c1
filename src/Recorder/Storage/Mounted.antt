-- ===== src/Recorder/Storage/Mounted.antt =====
-- compressed_recorder.c, `path_is_under_mountpoint`: a mount covers the paths below it by whole
-- components, so "/mnt/nfs" does not cover "/mnt/nfs2".
use myworkspace.Prelude.{
  bytes_eq_sound, bytes_eq_refl, ℕ, zero, suc, ◌-◌, ◌≤◌, ◌<◌, ◌≡◌, ◌≢◌, ◌⊎◌, inl, inr, ◌↔◌, refl,
  List, [], ◌∷◌, ◌++◌, true, arith, length, length-append, take, drop, take-append-drop,
  take-length-append, ap, ap₂, sym, ◌∙◌,
}
use native.Mathlib.Decide.{dec_lt}
use myworkspace.Protocol.{byte_at}
use myworkspace.Recorder.Storage.{strip_len, path_is_under_mountpoint}

strip_len-le : (p : List ℕ) (n : ℕ) → strip_len p n ≤ n
unfolding strip_len
strip_len-le p zero = omega arith
strip_len-le p (suc zero) = omega arith
strip_len-le p (suc (suc n)) = ground (arith, strip_len-le p (suc n))

byte_at-append : (xs : List ℕ) (y : ℕ) (ys : List ℕ) → byte_at (xs ++ (y ∷ ys)) (length xs) ≡ y
byte_at-append [] y ys = refl
byte_at-append (x ∷ xs) y ys = byte_at-append xs y ys

byte_at-left : (xs ys : List ℕ) (i : ℕ) → i < length xs → byte_at (xs ++ ys) i ≡ byte_at xs i
byte_at-left [] ys i h = absurd (omega arith)
byte_at-left (x ∷ xs) ys zero h = refl
byte_at-left (x ∷ xs) ys (suc i) h = byte_at-left xs ys i (omega arith)

take_all : (xs : List ℕ) → take (length xs) xs ≡ xs
take_all [] = refl
take_all (x ∷ xs) = ap (λ t. x ∷ t) (take_all xs)

drop-byte_at : (xs : List ℕ) (n c : ℕ) → 0 < c → byte_at xs n ≡ c → drop n xs ≡ c ∷ drop (suc n) xs
drop-byte_at [] zero c p e = absurd (omega arith)
drop-byte_at [] (suc n) c p e = absurd (omega arith)
drop-byte_at (x ∷ xs) zero c p e = ground arith
drop-byte_at (x ∷ xs) (suc n) c p e = drop-byte_at xs n c p e

-- The strip stops at a byte that is no slash,
strip_len-ge : (p : List ℕ) (n m : ℕ) → m < n → byte_at p m ≢ b'/' → suc m ≤ strip_len p n
unfolding strip_len
strip_len-ge p zero m h e = absurd (omega arith)
strip_len-ge p (suc zero) m h e = omega arith
strip_len-ge p (suc (suc n)) m h e = elim (dec_lt m (suc n)) [
  | yes below ↦ ground (arith, strip_len-ge p (suc n) m below e)
  | no last ↦ let same : m ≡ suc n = omega arith in ground arith
]

-- and what it drops is slashes.
strip_len-slash : (p : List ℕ) (n : ℕ) → strip_len p n < n → byte_at p (strip_len p n) ≡ b'/'
unfolding strip_len
strip_len-slash p zero h = absurd (omega arith)
strip_len-slash p (suc zero) h = absurd (omega arith)
strip_len-slash p (suc (suc n)) h =
    ground (arith, strip_len-slash p (suc n), strip_len-le p (suc n))

module _ (mp : List ℕ) (some_byte : 0 < length mp)
    (no_slash : byte_at mp (length mp - 1) ≢ b'/') where
  stripped_mp : strip_len mp (length mp) ≡ length mp
  stripped_mp = omega (
    arith,
    strip_len-le mp (length mp),
    strip_len-ge mp (length mp) (length mp - 1) (omega arith) no_slash,
  )

  under_mp :
      (path : List ℕ)
      → (path_is_under_mountpoint path mp ≡ true) ↔ (
          (0 < length path)
          × (length mp ≤ strip_len path (length path))
          × (take (length mp) path ≡ mp)
          × ((strip_len path (length path) ≡ length mp) ⊎ (byte_at path (length mp) ≡ b'/')))
  unfolding path_is_under_mountpoint
  under_mp path = (forth, back)
    where
      forth :
          path_is_under_mountpoint path mp ≡ true
          → (0 < length path)
            × (length mp ≤ strip_len path (length path))
            × (take (length mp) path ≡ mp)
            × ((strip_len path (length path) ≡ length mp) ⊎ (byte_at path (length mp) ≡ b'/'))
      forth h = ground (arith, stripped_mp, take_all mp, bytes_eq_sound (take (length mp) path) mp)

      back :
          ((0 < length path)
            × (length mp ≤ strip_len path (length path))
            × (take (length mp) path ≡ mp)
            × ((strip_len path (length path) ≡ length mp) ⊎ (byte_at path (length mp) ≡ b'/')))
          → path_is_under_mountpoint path mp ≡ true
      back h = ground (arith, stripped_mp, take_all mp, bytes_eq_refl mp)

  -- For a mount point that is not empty and does not end in a slash, a path counts as below it exactly
  -- if it is the mount point itself or continues it with a slash.
  pub path_is_under_mountpoint_iff :
      (path : List ℕ)
      → (path_is_under_mountpoint path mp ≡ true)
        ↔ ((path ≡ mp) ⊎ ((rest : List ℕ) × (path ≡ mp ++ (b'/' ∷ rest))))
  path_is_under_mountpoint_iff path = (forth, back)
    where
      slash :
          length mp < length path
          → (strip_len path (length path) ≡ length mp) ⊎ (byte_at path (length mp) ≡ b'/')
          → byte_at path (length mp) ≡ b'/'
      slash more (inl e) = ground (arith, strip_len-slash path (length path))
      slash more (inr b) = b

      forth :
          path_is_under_mountpoint path mp ≡ true
          → (path ≡ mp) ⊎ ((rest : List ℕ) × (path ≡ mp ++ (b'/' ∷ rest)))
      forth h =
          let u = (under_mp path).0 h in
          let halves = take-append-drop (length mp) path in
          elim (dec_lt (length mp) (length path)) [
            | yes more ↦ inr (
              drop (suc (length mp)) path,
              sym halves
                  ∙ ap₂ ◌++◌ u.2
                      (drop-byte_at path (length mp) b'/' (omega arith) (slash more u.3)),
            )
            | no whole ↦
                let same : length path ≡ length mp =
                  omega (arith, strip_len-le path (length path)) in
                inl (sym (take_all path) ∙ ap (λ n. take n path) same ∙ u.2)
          ]

      back :
          (path ≡ mp) ⊎ ((rest : List ℕ) × (path ≡ mp ++ (b'/' ∷ rest)))
          → path_is_under_mountpoint path mp ≡ true
      back (inl e) =
          rw e
            ((under_mp mp).1 (some_byte, omega (arith, stripped_mp), take_all mp, inl stripped_mp))
      back (inr (rest, e)) =
          let longer = mp ++ (b'/' ∷ rest) in
          let size = length-append mp (b'/' ∷ rest) in
          rw e (
            (under_mp longer).1 (
              omega (arith, size),
              omega (
                arith,
                size,
                strip_len-ge longer (length longer) (length mp - 1) (omega (arith, size)) (λ s.
                    no_slash
                      (sym (byte_at-left mp (b'/' ∷ rest) (length mp - 1) (omega arith)) ∙ s)),
              ),
              take-length-append mp (b'/' ∷ rest),
              inr (byte_at-append mp b'/' rest),
            ))
