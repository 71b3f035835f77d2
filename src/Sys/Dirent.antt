-- ===== src/Sys/Dirent.antt =====
-- The layout of `struct dirent` of FreeBSD, which src/sys.rs declares with `repr(C)`, and how an entry of a
-- directory is read from it. The other systems take the struct from the libc crate.
use close_fds.Base.{
  ◌⊎◌, ℕ, zero, suc, ◌+◌, ◌-◌, ◌*◌, ◌/◌, ◌%◌, ◌<◌, ◌≡◌, ◌≢◌, refl, ◌∙◌, ap, Bool, true, false, some,
  List, [], ◌∷◌, ◌++◌, if◌then◌else◌, ◌==◌, arith, length, take, drop, position, All, inl, inr,
}
use close_fds.Kernel.{Kernel}
use close_fds.Sys.{c_string}
use close_fds.IterFds.DirFd.{DirFdIter, parse_int_bytes, get_entry_info}

-- `repr(C)` puts every field, given by its size and its alignment, at the next multiple of its alignment.
abbrev align_up : ℕ → ℕ → ℕ
align_up offset alignment = (offset + (alignment - 1)) / alignment * alignment

unfoldable offsets : ℕ → List (ℕ × ℕ) → List ℕ
offsets offset [] = []
offsets offset ((size, alignment) ∷ fields) =
    let start = align_up offset alignment in start ∷ offsets (start + size) fields

-- The fields of `dirent`; `libc::ino_t` has a number of bytes that depends on the version of FreeBSD.
unfoldable dirent_fields : ℕ → List (ℕ × ℕ)
dirent_fields ino_size =
    (ino_size, ino_size) ∷ (8, 8) ∷ (2, 2) ∷ (1, 1) ∷ (1, 1) ∷ (2, 2) ∷ (2, 2) ∷ (256, 1) ∷ []

-- The number of a `u16` in memory.
unfoldable u16 : Bool → List ℕ → ℕ
u16 big (a ∷ b ∷ bytes) = if big then a * 256 + b else b * 256 + a
u16 big _ = 0

unfoldable u16_bytes : Bool → ℕ → List ℕ
u16_bytes big n = if big then n / 256 ∷ n % 256 ∷ [] else n % 256 ∷ n / 256 ∷ []

-- The fields `d_reclen`, `d_namlen` and `d_name` of the struct at the start of some bytes.
unfoldable pub dirent_reclen : Bool → List ℕ → ℕ
unfolding u16
dirent_reclen big bytes = u16 big (drop 16 bytes)

unfoldable pub dirent_name : List ℕ → List ℕ
dirent_name bytes = take 256 (drop 24 bytes)

-- With either size of `ino_t` the fields begin at the same bytes.
dirent-offsets :
    (ino_size : ℕ)
    → (ino_size ≡ 4) ⊎ (ino_size ≡ 8)
    → offsets 0 (dirent_fields ino_size) ≡ 0 ∷ 8 ∷ 16 ∷ 18 ∷ 19 ∷ 20 ∷ 22 ∷ 24 ∷ []
unfolding offsets dirent_fields
dirent-offsets ino_size (inl four) = rw four refl
dirent-offsets ino_size (inr eight) = rw eight refl

-- An entry in memory: the 16 bytes before `d_reclen`, those of `d_fileno` and `d_off`; `d_reclen`; the 6 bytes
-- between it and the name, those of `d_type`, `d_namlen` and the padding; the name, a 0, and what follows.
unfoldable pub entry_bytes : Bool → List ℕ → ℕ → List ℕ → List ℕ → List ℕ → List ℕ
unfolding u16_bytes
entry_bytes big before reclen between name rest =
    before ++ (u16_bytes big reclen ++ (between ++ (name ++ (0 ∷ rest))))

drop-before : (k n : ℕ) (xs ys : List ℕ) → length xs ≡ n → drop (n + k) (xs ++ ys) ≡ drop k ys
drop-before k zero [] ys e = let same : 0 + k ≡ k = omega arith in rw same refl
drop-before k zero (x ∷ xs) ys e = absurd (omega (arith, e))
drop-before k (suc n) [] ys e = absurd (omega (arith, e))
drop-before k (suc n) (x ∷ xs) ys e =
    let same : suc n + k ≡ suc (n + k) = omega arith in
    rw same (drop-before k n xs ys (omega (arith, e)))

name_end :
    (k : ℕ) (name rest : List ℕ)
    → length name < k
    → All (λ c. c ≢ 0) name
    → (position (λ c. c == 0) (take k (name ++ (0 ∷ rest))) ≡ some (length name))
      × (take (length name) (take k (name ++ (0 ∷ rest))) ≡ name)
name_end zero name rest h nonzero = absurd (omega (arith, h))
name_end (suc k) [] rest h nonzero = (refl, refl)
name_end (suc k) (c ∷ name) rest h (some_char, nonzero) =
    let (at, before) = name_end k name rest (omega (arith, h)) nonzero in
    let other : (c == 0) ≡ false = ground (arith, some_char) in
    (rw (other, at) refl, ap (λ cs. c ∷ cs) before)

-- A name in an array that is longer is what comes before the first 0.
c_string-name :
    (k : ℕ) (name rest : List ℕ)
    → length name < k
    → All (λ c. c ≢ 0) name
    → c_string (take k (name ++ (0 ∷ rest))) ≡ name
unfolding c_string
c_string-name k name rest h nonzero =
    let (at, before) = name_end k name rest h nonzero in rw (c_string, at) before

u16-u16_bytes :
    (big : Bool) (n : ℕ) (rest : List ℕ) → n < 65536 → u16 big (u16_bytes big n ++ rest) ≡ n
unfolding u16 u16_bytes
u16-u16_bytes true n rest h = omega (arith, h)
u16-u16_bytes false n rest h = omega (arith, h)

dirent_name-entry_bytes :
    (big : Bool) (reclen : ℕ) (before between name rest : List ℕ)
    → length before ≡ 16
    → length between ≡ 6
    → dirent_name (entry_bytes big before reclen between name rest) ≡ take 256 (name ++ (0 ∷ rest))
unfolding dirent_name entry_bytes u16_bytes
dirent_name-entry_bytes true reclen before between name rest sixteen six =
    ap (take 256) (drop-before 8 16 before _ sixteen ∙ drop-before 0 6 between _ six)
dirent_name-entry_bytes false reclen before between name rest sixteen six =
    ap (take 256) (drop-before 8 16 before _ sixteen ∙ drop-before 0 6 between _ six)

dirent_reclen-entry_bytes :
    (big : Bool) (reclen : ℕ) (before between name rest : List ℕ)
    → length before ≡ 16
    → reclen < 65536
    → dirent_reclen big (entry_bytes big before reclen between name rest) ≡ reclen
unfolding dirent_reclen entry_bytes
dirent_reclen-entry_bytes big reclen before between name rest sixteen short =
    ap (u16 big) (drop-before 0 16 before _ sixteen) ∙ u16-u16_bytes big reclen _ short

module _ (K : Kernel) (big : Bool) where
  -- The kernel of a FreeBSD with this struct.
  pub record IsDirent : Type 0 where
    pub name_lem : (bytes : List ℕ) → K.d_name bytes ≡ dirent_name bytes
    pub reclen_lem : (bytes : List ℕ) → K.d_reclen bytes ≡ dirent_reclen big bytes

  -- With the struct `dirent` of FreeBSD, for an entry in the buffer at the offset, its length being a `u16`
  -- and its name shorter than 256 bytes, none of them 0, `get_entry_info` gives the entry's length and
  -- what `parse_int_bytes` reads from the name, whatever the other fields hold and whatever follows.
  pub get_entry_info-entry_bytes :
      (R : IsDirent) (it : DirFdIter) (offset reclen : ℕ) (before between name rest : List ℕ)
      → drop offset it.dirent_buf ≡ entry_bytes big before reclen between name rest
      → length before ≡ 16
      → length between ≡ 6
      → reclen < 65536
      → length name < 256
      → All (λ c. c ≢ 0) name
      → get_entry_info K it offset ≡ (parse_int_bytes name, reclen)
  unfolding get_entry_info
  get_entry_info-entry_bytes R it offset reclen before between name rest at sixteen six short fits
        nonzero =
      let entry = entry_bytes big before reclen between name rest in
      rw
        (
          at,
          R.name_lem entry,
          R.reclen_lem entry,
          dirent_name-entry_bytes big reclen before between name rest sixteen six,
          dirent_reclen-entry_bytes big reclen before between name rest sixteen short,
          c_string-name 256 name rest fits nonzero,
        )
        refl
