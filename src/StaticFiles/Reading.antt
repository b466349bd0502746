-- ===== src/StaticFiles/Reading.antt =====
-- `read_range` of src/http_static.cpp: the loop reads all it is asked for, however the system
-- cuts the bytes.
use libasyik.Common.{
  ℕ, zero, suc, ◌+◌, ◌-◌, ◌≤◌, ◌<◌, ◌≡◌, refl, sym, ap, ◌∙◌, some, List, [], ◌∷◌, ◌++◌, true, false,
  ◌==◌, length, take, drop, Bytes, arith,
}
use libasyik.StaticFiles.{FileSystem, read_loop, read_range, read_file_range}

length-take {ℓ} : {A : Type ℓ} (n : ℕ) (xs : List A) → n ≤ length xs → length (take n xs) ≡ n
length-take zero xs h = refl
length-take (suc n) [] h = omega arith
length-take (suc n) (x ∷ xs) h = omega (arith, length-take n xs (omega arith))

length-drop {ℓ} : {A : Type ℓ} (n : ℕ) (xs : List A) → length (drop n xs) ≡ length xs - n
length-drop zero xs = omega arith
length-drop (suc n) [] = omega arith
length-drop (suc n) (x ∷ xs) = omega (arith, length-drop n xs)

abbrev the_empty {ℓ} : (A : Type ℓ) → List A
the_empty A = []

take-nil {ℓ} : {A : Type ℓ} (n : ℕ) → take n [] ≡ the_empty A
take-nil zero = refl
take-nil (suc n) = refl

drop-nil {ℓ} : {A : Type ℓ} (n : ℕ) → drop n [] ≡ the_empty A
drop-nil zero = refl
drop-nil (suc n) = refl

suc_add : (m n : ℕ) → suc (m + n) ≡ suc m + n
suc_add m n = omega arith

take-add {ℓ} :
    {A : Type ℓ} (m n : ℕ) (xs : List A) → take m xs ++ take n (drop m xs) ≡ take (m + n) xs
take-add zero n xs = ap (λ k. take k xs) (omega arith)
take-add (suc m) n [] = take-nil n ∙ sym (take-nil (suc m + n))
take-add (suc m) n (x ∷ xs) = ap (◌∷◌ x) (take-add m n xs) ∙ ap (λ k. take k (x ∷ xs)) (suc_add m n)

drop-add {ℓ} : {A : Type ℓ} (m n : ℕ) (xs : List A) → drop n (drop m xs) ≡ drop (m + n) xs
drop-add zero n xs = ap (λ k. drop k xs) (omega arith)
drop-add (suc m) n [] = drop-nil n ∙ sym (drop-nil (suc m + n))
drop-add (suc m) n (x ∷ xs) = drop-add m n xs ∙ ap (λ k. drop k (x ∷ xs)) (suc_add m n)

nonempty : (s : Bytes) → 0 < length s → (b : ℕ) × (bs : Bytes) × (s ≡ b ∷ bs)
nonempty [] h = absurd (omega (arith, h))
nonempty (b ∷ bs) h = (b, bs, refl)

-- A chunk and what follows it.
joined :
    (offset count n : ℕ) (bytes chunk : Bytes)
    → chunk ≡ take n (drop offset bytes)
    → length chunk ≡ n
    → n ≤ count
    → chunk ++ take (count - length chunk) (drop (offset + length chunk) bytes)
      ≡ take count (drop offset bytes)
joined offset count n bytes chunk e size few =
    ap (λ l. chunk ++ take (count - l) (drop (offset + l) bytes)) size
    ∙ ap (λ c. c ++ take (count - n) (drop (offset + n) bytes)) e
    ∙ ap (λ d. take n (drop offset bytes) ++ take (count - n) d) (sym (drop-add offset n bytes))
    ∙ take-add n (count - n) (drop offset bytes)
    ∙ ap (λ k. take k (drop offset bytes)) (omega arith)

-- What a read does where the file has bytes: it gives some of them, up to the number asked for.
abbrev pub Reads : {F : Type 0} → FileSystem F → F → Bytes → Type 0
Reads fs fd bytes =
    (offset count : ℕ)
    → 0 < count
    → offset < length bytes
    → (n : ℕ) × (0 < n)
      × (n ≤ count)
      × (offset + n ≤ length bytes)
      × (fs.read fd offset count ≡ some (take n (drop offset bytes)))

module _ {F : Type 0} (fs : FileSystem F) (fd : F) (bytes : Bytes) (reads : Reads fs fd bytes) where
  read_loop_lem :
      (fuel offset remaining : ℕ)
      → remaining < fuel
      → offset + remaining ≤ length bytes
      → read_loop fs fuel fd offset remaining ≡ some (take remaining (drop offset bytes))
  unfolding read_loop
  read_loop_lem zero offset remaining h fits = absurd (omega (arith, h))
  read_loop_lem (suc fuel) offset zero h fits = refl
  read_loop_lem (suc fuel) offset (suc remaining) h fits =
      let (n, some_read, few, inside, e) =
        reads offset (suc remaining) (omega arith) (omega arith) in
      let size : length (take n (drop offset bytes)) ≡ n =
        length-take n (drop offset bytes) (omega (arith, length-drop offset bytes)) in
      let (b, bs, shape) = nonempty (take n (drop offset bytes)) (omega (arith, size)) in
      let size' : length (b ∷ bs) ≡ n = ap length (sym shape) ∙ size in
      let rest =
        read_loop_lem fuel (offset + length (b ∷ bs)) (suc remaining - length (b ∷ bs))
          (omega arith) (omega arith) in
      let more : (suc remaining == 0) ≡ false = ground arith in
      rw (more, e ∙ ap some shape, rest)
        (ap some (joined offset (suc remaining) n bytes (b ∷ bs) (sym shape) size' few))

  -- Where a read gives at least one byte of the file inside it, and seeking succeeds, the loop of
  -- read_range ends with all the bytes asked for, from the right place.
  pub read_range_lem :
      (offset size : ℕ)
      → fs.lseek fd offset ≡ true
      → offset + size ≤ length bytes
      → read_range fs fd offset size ≡ some (take size (drop offset bytes))
  unfolding read_range
  read_range_lem offset size seeks fits =
      rw seeks (read_loop_lem (suc size) offset size (omega arith) fits)

  pub read_file_range_lem :
      (path : Bytes) (offset size : ℕ)
      → fs.open_file path ≡ some fd
      → fs.lseek fd offset ≡ true
      → offset + size ≤ length bytes
      → read_file_range fs path offset size ≡ some (take size (drop offset bytes))
  unfolding read_file_range
  read_file_range_lem path offset size opens seeks fits =
      rw opens (read_range_lem offset size seeks fits)
