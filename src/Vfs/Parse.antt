-- ===== src/Vfs/Parse.antt =====
-- `vfs_parse_path`: the segments between the slashes.
use best_os.Common.{
  ℕ, zero, suc, ◌+◌, ◌<◌, ◌≡◌, ◌∙◌, arith, Option, none, some, List, [], ◌∷◌, ◌++◌, length,
}
use best_os.Str.{Text, slash, strtok_scan, strtok, strdup}
use best_os.Str.Equality.{IsText}
use best_os.Str.Tokens.{split, split_rest, rest_length, RestIsText, strtok_scan-Scanned}
use best_os.Str.Copy.{strdup_lem}
use best_os.Vec.{VecOps}
use mathlib.Core.List.{append-nil, append_assoc}

module _ (vec : VecOps Text) where
  -- The `while` loop with fuel; `none` is out of fuel.
  unfoldable pub segments_from : ℕ → Option Text → Option Text → List Text → Option (List Text)
  segments_from zero segment s segments = none
  segments_from (suc f) none s segments = some segments
  segments_from (suc f) (some segment) s segments =
      let (segment', s') = strtok none s (slash ∷ []) in
      segments_from f segment' s' (vec.push segments (strdup segment))

  unfoldable pub parse_path : Text → Option (List Text)
  parse_path path =
      let (segment, s) = strtok (some (strdup path)) none (slash ∷ []) in
      segments_from (length path + 3) segment s []

  segments_from-split :
      (f : ℕ) (s : Option Text) (segments : List Text)
      → RestIsText s
      → rest_length s < f
      → (let (segment, s') = strtok none s (slash ∷ []) in segments_from f segment s' segments)
        ≡ some (segments ++ split_rest s)
  unfolding strtok segments_from split_rest
  segments_from-split zero s segments t h = absurd (omega arith)
  segments_from-split (suc f) none segments t h = rw append-nil
  segments_from-split (suc f) (some s) segments t h =
      let r = strtok_scan-Scanned s t in
      let token = (strtok_scan (slash ∷ []) s).0 in
      rw (strdup_lem token r.token_text, vec.push_lem segments token)
        (segments_from-split f (strtok_scan (slash ∷ []) s).1 (segments ++ token ∷ []) r.rest_text
            (omega (arith, r.shorter))
          ∙ rw (append_assoc, r.whole))

  -- `vfs_parse_path` always returns, and gives the segments of the path between its slashes, one
  -- more than there are slashes, empty ones included.
  pub parse_path-split : (path : Text) → IsText path → parse_path path ≡ some (split path)
  unfolding parse_path strtok split_rest
  parse_path-split path t =
      rw (strdup_lem path t) (segments_from-split (length path + 3) (some path) [] t (omega arith))
