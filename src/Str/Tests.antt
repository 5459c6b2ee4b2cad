-- ===== src/Str/Tests.antt =====
-- The string functions at concrete strings.
use best_os.Common.{◌≡◌, refl, arith, some, [], ◌∷◌, ◌==◌, if◌then◌else◌, not, ◌&&◌, length}
use best_os.Str.{Text, slash, head0, strstr, basename}
use best_os.Str.Equality.{IsText, is_text, is_text-IsText}
use best_os.Str.Search.{find_sub, strstr-find_sub}
use best_os.Str.Path.{last_segment, basename-last_segment}

-- "/usr/a"
abbrev usr_a : Text
usr_a = b'/' ∷ b'u' ∷ b's' ∷ b'r' ∷ b'/' ∷ b'a' ∷ []

usr_a-IsText : IsText usr_a
unfolding is_text
usr_a-IsText = is_text-IsText usr_a refl

abbrev one_a : Text
one_a = b'a' ∷ []

one_a-IsText : IsText one_a
unfolding is_text
one_a-IsText = is_text-IsText one_a refl

strstr-find_sub_example : strstr usr_a one_a ≡ some (find_sub usr_a one_a)
strstr-find_sub_example = strstr-find_sub usr_a one_a usr_a-IsText one_a-IsText

basename-last_segment_example :
    basename usr_a
    ≡ some (if head0 usr_a == slash && not (length usr_a == 1) then last_segment usr_a else usr_a)
basename-last_segment_example = basename-last_segment usr_a usr_a-IsText (omega arith)
