-- ===== src/Files.antt =====
-- What the runtime uses of Go's `path/filepath`, where the separator is `/` (so that ToSlash and
-- FromSlash change nothing), and the tests of service_job_report.go on paths.
pub mod Segments
pub mod Within
use Prim.Native.Char.{code}
use mathlib.Core.List.{reverse}
use text.Mathlib.Text.{starts_with}
use layeros.Base.{
  String, Bool, true, false, not, ◌&&◌, ◌||◌, Option, none, some, List, [], ◌∷◌, ◌++◌, eqb,
  if◌then◌else◌, ◌==◌,
}
use layeros.Text.{◌<>◌, trim_space, is_empty}
use layeros.Text.Parts.{split, join}

unfoldable pub is_abs : String → Bool
is_abs path = starts_with path "/"

-- one element of Clean, on the elements so far, the last in front
unfoldable pub clean_step : Bool → List String → String → List String
clean_step rooted [] part =
    if part == "" || part == "." then [] else if part == ".." && rooted then [] else part ∷ []
clean_step rooted (top ∷ stack) part =
    if part == "" || part == "."
    then top ∷ stack
    else if part == ".."
    then if top == ".." then part ∷ top ∷ stack else stack
    else part ∷ top ∷ stack

unfoldable pub clean_parts : Bool → List String → List String → List String
unfolding clean_step
clean_parts rooted stack [] = reverse stack
clean_parts rooted stack (part ∷ parts) = clean_parts rooted (clean_step rooted stack part) parts

-- `filepath.Clean`
unfoldable pub clean : String → String
unfolding clean_parts is_abs
clean path =
    let rooted = is_abs path in
    let out = join "/" (clean_parts rooted [] (split b'/' path)) in
    if rooted then "/" <> out else if out == "" then "." else out

-- `strings.HasSuffix(s, "/")` and `strings.TrimSuffix(s, "/")`
unfoldable pub ends_with_slash : String → Bool
ends_with_slash String.[] = false
ends_with_slash (String.◌∷◌ c s) = if is_empty s then eqb (code c) b'/' else ends_with_slash s

unfoldable pub trim_slash : String → String
trim_slash String.[] = String.[]
trim_slash (String.◌∷◌ c s) =
    if is_empty s && eqb (code c) b'/' then String.[] else String.◌∷◌ c (trim_slash s)

unfoldable pub normalize_path_prefix : String → String
unfolding clean ends_with_slash
normalize_path_prefix raw =
    let value = trim_space raw in
    let path = clean value in
    if value == ""
    then ""
    else if path == "."
    then ""
    else if ends_with_slash path
    then path
    else path <> "/"

-- the test of one prefix that is not passed over
unfoldable pub under : String → String → Bool
unfolding trim_slash
under path prefix = path == trim_slash prefix || starts_with path prefix

unfoldable pub within_any : String → List String → Bool
unfolding normalize_path_prefix under
within_any path [] = false
within_any path (raw ∷ rest) =
    let prefix = normalize_path_prefix raw in
    let later = within_any path rest in
    if prefix == "" then later else if under path prefix then true else later

-- `pathWithinAnyPrefix`
unfoldable pub path_within_any_prefix : String → List String → Bool
unfolding within_any clean
path_within_any_prefix path prefixes = within_any (clean path) prefixes

-- what two lists have in front of a common start
unfoldable pub strip_common : List String → List String → List String × List String
strip_common [] ts = ([], ts)
strip_common (b ∷ bs) [] = (b ∷ bs, [])
strip_common (b ∷ bs) (t ∷ ts) =
    let rest = strip_common bs ts in if b == t then rest else (b ∷ bs, t ∷ ts)

ups : List String → List String
ups [] = []
ups (_ ∷ bs) = ".." ∷ ups bs

-- the way from what is left of the base to what is left of the target
relative : List String × List String → Option String
unfolding ups
relative ([], ts) = some (join "/" ts)
relative (b ∷ bs, ts) = if b == ".." then none else some (join "/" (ups (b ∷ bs) ++ ts))

elements : String → List String
elements path = if path == "/" then "" ∷ [] else split b'/' path

-- `filepath.Rel`
unfoldable pub rel : String → String → Option String
unfolding clean is_abs elements strip_common relative
rel base_path target_path =
    let base = clean base_path in
    let target = clean target_path in
    if base == target
    then some "."
    else if not (is_abs base) && is_abs target || is_abs base && not (is_abs target)
    then none
    else relative (strip_common (if base == "." then [] else elements base) (elements target))
