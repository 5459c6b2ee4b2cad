-- ===== src/Fs/Archive/Entries.antt =====
-- An archive as the list of its entries, and what the loop over its headers does with them.
use best_os.Common.{
  ℕ, zero, suc, ◌+◌, ◌-◌, ◌*◌, ◌/◌, ◌%◌, ◌^◌, ◌<◌, ◌≡◌, ◌≢◌, refl, ap, sym, ◌∙◌, arith, Bool, false,
  some, List, [], ◌∷◌, ◌++◌, ◌==◌, if◌then◌else◌, length, take, add64,
}
use mathlib.Core.List.{append-nil}
use best_os.Mem.{Memory}
use best_os.Str.{Text, slash}
use best_os.Str.Equality.{IsText}
use best_os.Str.Copy.{Holds}
use best_os.Kernel.{text_at}
use best_os.Vfs.{Vfs, Cmd, pure, on_ok, on_ok-congr, ◌>>=◌, ◌>>◌}
use best_os.Vfs.Open.{Env, vfs_mkdir}
use best_os.Fs.{getsize_from, getsize, bytes_at}
use best_os.Fs.Archive.{
  tmpfs_create_file, size_at, is_folder, next_header, rooted, create_entry, create_tmpfs_files,
}

-- The eleven octal digits of a number.
abbrev pub octal : ℕ → Text
octal n =
    (b'0' + n / 8 ^ 10 % 8)
    ∷ (b'0' + n / 8 ^ 9 % 8)
    ∷ (b'0' + n / 8 ^ 8 % 8)
    ∷ (b'0' + n / 8 ^ 7 % 8)
    ∷ (b'0' + n / 8 ^ 6 % 8)
    ∷ (b'0' + n / 8 ^ 5 % 8)
    ∷ (b'0' + n / 8 ^ 4 % 8)
    ∷ (b'0' + n / 8 ^ 3 % 8)
    ∷ (b'0' + n / 8 ^ 2 % 8)
    ∷ (b'0' + n / 8 % 8)
    ∷ (b'0' + n % 8)
    ∷ []

-- `getsize` reads back what a header says in octal, for every size of 32 bits.
pub getsize-octal : (n : ℕ) → n < 2 ^ 32 → getsize (octal n) ≡ n
unfolding getsize getsize_from
getsize-octal n small = omega arith

pub record Entry : Type 0 where
  pub name : Text
  pub folder : Bool
  pub size : ℕ

-- The bytes of an entry, with its header and the blocks of its content.
abbrev pub extent : ℕ → ℕ
extent size = 512 + 512 * ((size + 511) / 512)

-- The headers of the entries from `a` on, and the end of the archive.
abbrev pub Archive : ℕ → Memory → ℕ → List Entry → Type 0
Archive longest m a [] = m a ≡ 0
Archive longest m a (e ∷ es) =
    Holds m a e.name
    × IsText e.name
    × (e.name ≢ [])
    × (length e.name < longest)
    × (is_folder a m ≡ e.folder)
    × (bytes_at 11 (a + 124) m ≡ octal e.size)
    × (e.size < 2 ^ 32)
    × (a + extent e.size < 2 ^ 64)
    × Archive longest m (a + extent e.size) es

-- What the entries ask for, one after the other: a directory under its name without the slash at its
-- end, or a file of the size whose content is behind the header.
abbrev pub create_one : Env → ℕ → Entry → Cmd (Unit {0})
create_one env a e =
    if e.folder
    then (do made ← vfs_mkdir env (slash ∷ take (length e.name - 1) e.name); pure tt)
    else tmpfs_create_file env (slash ∷ e.name) (a + 512) e.size

abbrev pub create_all : Env → ℕ → List Entry → Cmd ℕ
create_all env a [] = pure 0xc001c0de
create_all env a (e ∷ es) = create_one env a e >> create_all env (a + extent e.size) es

pub text_at_lem :
    (f p : ℕ) (m : Memory) (s : Text)
    → IsText s
    → Holds m p s
    → length s < f
    → text_at f p m ≡ some s
unfolding text_at
text_at_lem zero p m s t h few = absurd (omega arith)
text_at_lem (suc f) p m [] t h few = ground arith
text_at_lem (suc f) p m (c ∷ s) t h few =
    ground (arith, t.0, h.0, text_at_lem f (p + 1) m s t.1 h.1 (omega arith))

next_header_lem :
    (a size : ℕ) → a + extent size < 2 ^ 64 → size < 2 ^ 32 → next_header a size ≡ a + extent size
unfolding next_header
next_header_lem a size top small = ground arith

create_entry_lem :
    (env : Env) (behind : ℕ → Text) (a : ℕ) (e : Entry) (m : Memory)
    → ((n : ℕ) → behind n ≡ [])
    → is_folder a m ≡ e.folder
    → size_at a m ≡ e.size
    → a + 512 < 2 ^ 64
    → create_entry env behind a e.name m ≡ create_one env a e
unfolding create_entry
create_entry_lem env behind a e m clear folder size top =
    let next : add64 a 512 ≡ a + 512 = omega arith in
    let clean : (s : Text) → rooted env behind s ≡ slash ∷ s = λ s.
      ap (λ (x : Text). slash ∷ (s ++ x)) (clear (length s + 2)) ∙ ap (◌∷◌ slash) (append-nil s) in
    rw (folder, size, next, clean e.name, clean (take (length e.name - 1) e.name)) refl

loop_end :
    (env : Env) (behind : ℕ → Text) (longest f a : ℕ) (m : Memory)
    → m a ≡ 0
    → create_tmpfs_files env behind longest (suc f) a m ≡ pure 0xc001c0de
unfolding create_tmpfs_files
loop_end env behind longest f a m last = ground arith

loop_round :
    (env : Env) (behind : ℕ → Text) (longest f a : ℕ) (name : Text) (m : Memory)
    → m a ≢ 0
    → text_at longest a m ≡ some name
    → create_tmpfs_files env behind longest (suc f) a m ≡ (
        create_entry env behind a name m
        >> create_tmpfs_files env behind longest f (next_header a (size_at a m)) m)
unfolding create_tmpfs_files
loop_round env behind longest f a name m more named =
    let e : (m a == 0) ≡ false = ground arith in rw (create_tmpfs_files, e, named) refl

name_first : (m : Memory) (a : ℕ) (name : Text) → Holds m a name → IsText name → name ≢ [] → m a ≢ 0
name_first m a [] held t some_byte = absurd (some_byte refl)
name_first m a (c ∷ s) held t some_byte = λ z. t.0 (sym held.0 ∙ z)

-- When the memory holds an archive of the entries, with sizes of 32 bits, and a new block is clear
-- behind what is written to it, the loop takes the entries one after the other, each once: it ends, with
-- fuel for one round more than there are entries, and does to the tree just what the entries ask for.
pub create_tmpfs_files-create_all :
    (env : Env) (behind : ℕ → Text) (longest f a : ℕ) (m : Memory) (es : List Entry) (s : Vfs)
    → ((n : ℕ) → behind n ≡ [])
    → Archive longest m a es
    → length es < f
    → create_tmpfs_files env behind longest f a m s ≡ create_all env a es s
create_tmpfs_files-create_all env behind longest zero a m es s clear h few = absurd (omega arith)
create_tmpfs_files-create_all env behind longest (suc f) a m [] s clear h few =
    ap (λ (c : Cmd ℕ). c s) (loop_end env behind longest f a m h)
create_tmpfs_files-create_all env behind longest (suc f) a m (e ∷ es) s clear
      (held, t, some_byte, short, folder, digits, small, top, rest) few =
    let size : size_at a m ≡ e.size = ap getsize digits ∙ getsize-octal e.size small in
    let next : next_header a (size_at a m) ≡ a + extent e.size =
      ap (next_header a) size ∙ next_header_lem a e.size top small in
    let one : create_entry env behind a e.name m ≡ create_one env a e =
      create_entry_lem env behind a e m clear folder size (omega arith) in
    let go_on : (s : Vfs)
        → create_tmpfs_files env behind longest f (next_header a (size_at a m)) m s
          ≡ create_all env (a + extent e.size) es s =
      λ s.
        ap (λ (x : ℕ). create_tmpfs_files env behind longest f x m s) next
        ∙ create_tmpfs_files-create_all env behind longest f (a + extent e.size) m es s clear rest
            (omega arith) in
    ap (λ (c : Cmd ℕ). c s)
      (loop_round env behind longest f a e.name m (name_first m a e.name held t some_byte)
        (text_at_lem longest a m e.name t held short))
    ∙ ap
        (λ (c : Cmd (Unit {0})).
          on_ok (c s)
            (λ x. create_tmpfs_files env behind longest f (next_header a (size_at a m)) m))
        one
    ∙ on_ok-congr (create_one env a e s)
        (λ x. create_tmpfs_files env behind longest f (next_header a (size_at a m)) m)
        (λ x. create_all env (a + extent e.size) es) (λ x. go_on)
