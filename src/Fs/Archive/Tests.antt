-- ===== src/Fs/Archive/Tests.antt =====
-- An archive at 0x1000 with one file, "a", of five bytes.
use best_os.Common.{◌+◌, ◌≡◌, refl, arith, false, [], ◌∷◌, ◌==◌, if◌then◌else◌, ltb, leb, ◌&&◌}
use best_os.Mem.{Memory}
use best_os.Kernel.Sample.{env, files}
use best_os.Fs.{getsize, bytes_at}
use best_os.Fs.Archive.{create_tmpfs_files}
use best_os.Fs.Archive.Entries.{
  octal, getsize-octal, Entry, Archive, create_all, create_tmpfs_files-create_all,
}

abbrev archive : Memory
archive a =
    if a == 0x1000
    then b'a'
    else (if a == 0x1000 + 134
        then b'5'
        else (if leb (0x1000 + 124) a && ltb a (0x1000 + 160) then b'0' else 0))

abbrev file_a : Entry
file_a = record { name = b'a' ∷ []; folder = false; size = 5 }

digits : bytes_at 11 (0x1000 + 124) archive ≡ octal 5
unfolding bytes_at
digits = refl

archive-Archive : Archive 64 archive 0x1000 (file_a ∷ [])
archive-Archive = (
  (refl, refl),
  (λ e. omega arith, tt),
  λ e. cc,
  omega arith,
  refl,
  digits,
  omega arith,
  omega arith,
  refl,
)

create_tmpfs_files-create_all_example :
    create_tmpfs_files env (λ n. []) 64 9 0x1000 archive files
    ≡ create_all env 0x1000 (file_a ∷ []) files
create_tmpfs_files-create_all_example =
    create_tmpfs_files-create_all env (λ n. []) 64 9 0x1000 archive (file_a ∷ []) files (λ n. refl)
      archive-Archive (omega arith)

getsize-octal_example : getsize (octal 1234) ≡ 1234
getsize-octal_example = getsize-octal 1234 (omega arith)
