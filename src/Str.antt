-- ===== src/Str.antt =====
-- lib/str.c. A `char *` is the list of the bytes from it up to the terminator, which is read as 0
-- behind the last one; a 0 in the list ends the string too. NULL is `none`. A returned pointer into
-- the string is the rest of the list from there.
pub mod Equality
pub mod Search
pub mod Copy
pub mod Path
pub mod Tokens
mod Tests
use best_os.Mem.{Memory, store}
use best_os.Common.{
  ℕ, zero, suc, ◌+◌, ◌*◌, ◌^◌, Bool, true, false, not, Option, none, some, List, [], ◌∷◌, ◌==◌,
  if◌then◌else◌, length, get_or, drop, take, u32, add64, sub64, int_to_u64,
}

abbrev pub Text : Type 0
Text = List ℕ

abbrev pub slash : ℕ
slash = b'/'

-- `*p`.
abbrev pub head0 : Text → ℕ
head0 [] = 0
head0 (c ∷ s) = c

-- `p + 1`.
abbrev pub next : Text → Text
next [] = []
next (c ∷ s) = s

unfoldable pub strlen : Text → ℕ
strlen [] = 0
strlen (c ∷ s) = if c == 0 then 0 else suc (strlen s)

-- The loop of `str_eq`: the rounds left, and `i`.
unfoldable pub str_eq_from : ℕ → ℕ → Text → Text → Bool
str_eq_from zero i s1 s2 = true
str_eq_from (suc n) i s1 s2 =
    if get_or s1 i 0 == get_or s2 i 0 then str_eq_from n (i + 1) s1 s2 else false

unfoldable pub str_eq : Text → Text → Bool
str_eq s1 s2 = if strlen s1 == strlen s2 then str_eq_from (strlen s1) 0 s1 s2 else false

-- The loop of `strstr`; the outer `none` is out of fuel.
unfoldable pub strstr_loop : ℕ → (a b str substr : Text) → Option (Option Text)
strstr_loop zero a b str substr = none
strstr_loop (suc f) a b str substr =
    let again = strstr_loop f (next a) (next b) str substr in
    let moved = strstr_loop f (next str) substr (next str) substr in
    if head0 b == 0
    then some (some str)
    else (if head0 a == 0 then some none else (if head0 a == head0 b then again else moved))

abbrev pub strstr_fuel : Text → Text → ℕ
strstr_fuel str substr = length substr + length str * (length substr + 1) + 1

unfoldable pub strstr : Text → Text → Option (Option Text)
strstr str substr = strstr_loop (strstr_fuel str substr) str substr str substr

-- `path = &path[strlen(path) - l + 2]`, with `l` an `int`, at the slash that `ssc` begins with.
unfoldable pub step_path : Text → Text → Text
step_path path ssc = drop (add64 (sub64 (strlen path) (int_to_u64 (strlen ssc + 1))) 2) path

-- What follows a search: out of fuel, NULL, or a place in the string.
abbrev pub on_found : Option (Option Text) → Option Text → (Text → Option Text) → Option Text
on_found none missing found = none
on_found (some none) missing found = missing
on_found (some (some t)) missing found = found t

-- The loop of `basename` from the slash found; `none` is out of fuel.
unfoldable pub basename_loop : ℕ → Text → Text → Option Text
basename_loop zero path ssc = none
basename_loop (suc f) path ssc =
    on_found (strstr (step_path path ssc) (slash ∷ [])) (some (step_path path ssc))
      (basename_loop f (step_path path ssc))

-- Had the first search found no slash, its result would be read through NULL: `none` too.
unfoldable pub basename : Text → Option Text
basename path =
    if head0 path == slash
    then (if strlen path == 1
        then some path
        else on_found (strstr path (slash ∷ [])) none (basename_loop (length path) path))
    else some path

unfoldable pub strchr : Text → ℕ → Option Text
strchr [] c = if 0 == c then some [] else none
strchr (x ∷ s) c = if x == c then some (x ∷ s) else (if x == 0 then none else strchr s c)

abbrev pub is_some {ℓ} : {A : Type ℓ} → Option A → Bool
is_some none = false
is_some (some a) = true

-- The loop of `strtok` from the position `s`: the token and the new value of the static `s`.
unfoldable pub strtok_scan : Text → Text → Text × Option Text
strtok_scan delim [] = ([], none)
strtok_scan delim (c ∷ s) =
    let (token, rest) = strtok_scan delim s in
    if c == 0
    then ([], none)
    else (if is_some (strchr delim c) then ([], some s) else (c ∷ token, rest))

-- The argument `str`, the static `s` before, the token and the static `s` after.
unfoldable pub strtok : Option Text → Option Text → Text → Option Text × Option Text
strtok (some str) s delim = let (token, rest) = strtok_scan delim str in (some token, rest)
strtok none none delim = (none, none)
strtok none (some s) delim = let (token, rest) = strtok_scan delim s in (some token, rest)

-- The bytes that `strdup` copies; the string is the copy.
unfoldable pub strdup : Text → Text
strdup [] = []
strdup (c ∷ s) = if c == 0 then [] else c ∷ strdup s

-- The loop of `dirname`: the last slash before the end, from position `i`.
unfoldable pub last_slash : Text → ℕ → ℕ → ℕ
last_slash [] i j = j
last_slash (c ∷ s) i j = if c == 0 then j else last_slash s (i + 1) (if c == slash then i else j)

unfoldable pub dirname : Text → Text
dirname path = let j = last_slash path 0 0 in if j == 0 then slash ∷ [] else take j path

unfoldable pub strcat : Text → Text → Text
strcat [] s2 = strdup s2
strcat (c ∷ s) s2 = if c == 0 then strdup s2 else c ∷ strcat s s2

-- `strcpy` in memory: the loop from `i` with fuel, then the terminator.
unfoldable pub strcpy_from : ℕ → ℕ → ℕ → ℕ → Memory → Option Memory
unfolding store
strcpy_from zero i dest src m = none
strcpy_from (suc f) i dest src m =
    let rest = strcpy_from f (i + 1) dest src (store m (dest + i) (m (src + i))) in
    if m (src + i) == 0 then some (store m (dest + i) 0) else rest

unfoldable pub strcpy : ℕ → ℕ → ℕ → Memory → Option Memory
strcpy fuel dest src m = strcpy_from fuel 0 dest src m
