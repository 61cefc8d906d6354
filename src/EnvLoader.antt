-- ===== src/EnvLoader.antt =====
-- auth_service/src/utils/EnvLoader.cpp and services/messaging_service/src/utils/EnvLoader.cpp, which
-- do the same but for what they print. A file is its text, `none` where it cannot be opened; the
-- environment is the map that `setenv` and `getenv` work on.
pub mod Lines
pub mod Last
use wizz_mania.Prelude.{
  ℕ, Bool, true, false, ◌&&◌, ◌||◌, List, [], ◌∷◌, leb, ◌==◌, ◌-◌, length, take, drop, Option, none,
  some, if◌then◌else◌,
}
use wizz_mania.Prelude.Text.{Str, empty, is_space, split_at}
use wizz_mania.Prelude.Maps.{Map, lookup, assign}

abbrev pub newline : ℕ
newline = 10

in_front : ℕ → List Str → List Str
in_front c [] = (c ∷ []) ∷ []
in_front c (l ∷ ls) = (c ∷ l) ∷ ls

-- What `std::getline` yields, one line after the other.
unfoldable pub lines : Str → List Str
unfolding in_front
lines [] = []
lines (c ∷ s) = let rest = lines s in if c == newline then [] ∷ rest else in_front c rest

ltrim : Str → Str
ltrim [] = []
ltrim (c ∷ s) = let rest = ltrim s in if is_space c then rest else c ∷ s

rtrim : Str → Str
rtrim [] = []
rtrim (c ∷ s) = let rest = rtrim s in if is_space c && empty rest then [] else c ∷ rest

unfoldable pub trim : Str → Str
unfolding ltrim rtrim
trim s = rtrim (ltrim s)

-- `value.back()` behind the character `c`
back : ℕ → Str → ℕ
back c [] = c
back c (d ∷ s) = back d s

-- Whether the text from its first character `c` on stands in quotes of one kind.
enclosed : ℕ → Str → Bool
unfolding back
enclosed c s = (c == b'"' && back c s == b'"') || (c == b'\'' && back c s == b'\'')

unfoldable pub unquote : Str → Str
unfolding enclosed
unquote [] = []
unquote (c ∷ s) =
    if leb 2 (length (c ∷ s)) && enclosed c s then take (length (c ∷ s) - 2) s else c ∷ s

-- `c_str()`, as C functions read it.
unfoldable pub c_str : Str → Str
c_str [] = []
c_str (c ∷ s) = let rest = c_str s in if c == 0 then [] else c ∷ rest

-- `setenv(key, value, 1)`, which fails on an empty name and on one with `=`.
unfoldable pub setenv : Str → Str → Map Str → Map Str
unfolding assign
setenv key value env = elim (split_at b'=' key) [
  | some parts ↦ env
  | none ↦ if empty key then env else assign key value env
]

-- The body of the loop.
unfoldable pub load_line : Str → Map Str → Map Str
unfolding trim unquote c_str setenv
load_line [] env = env
load_line (c ∷ s) env = if c == b'#' then env else elim (split_at b'=' (c ∷ s)) [
  | none ↦ env
  | some (key, value) ↦ setenv (c_str (trim key)) (c_str (unquote (trim value))) env
]

unfoldable pub load_lines : List Str → Map Str → Map Str
unfolding load_line
load_lines [] env = env
load_lines (l ∷ ls) env = load_lines ls (load_line l env)

unfoldable pub load_env_file : Option Str → Map Str → Map Str
unfolding lines load_lines
load_env_file none env = env
load_env_file (some text) env = load_lines (lines text) env

unfoldable pub get : Str → Map Str → Str
unfolding lookup c_str
get key env = elim (lookup (c_str key) env) [ none ↦ [] | some value ↦ value ]
