-- ===== src/EnvLoader/Lines.antt =====
-- A line of a .env file that is written with care is read back: the two files EnvLoader.cpp.
use wizz_mania.Prelude.{
  ℕ, suc, ◌-◌, ◌≡◌, refl, ap, ◌∙◌, Bool, true, false, ◌&&◌, List, [], ◌∷◌, ◌++◌, ◌==◌, length, take,
  leb, Option, none, some, if◌then◌else◌, All, arith, Bool-cases, inl, inr, length-append,
  All-append,
}
use wizz_mania.Prelude.Text.{Str, empty, is_space, split_at}
use wizz_mania.Prelude.Maps.{lookup, Map, assign, lookup-assign}
use wizz_mania.Keys.Pairs.{split_at-append}
use wizz_mania.EnvLoader.{
  newline, in_front, lines, ltrim, rtrim, trim, back, enclosed, unquote, c_str, setenv, load_line,
  load_lines, load_env_file, get,
}

abbrev pub Lacks : ℕ → Str → Type 0
Lacks c s = All (λ d. (d == c) ≡ false) s

-- A text before a newline makes whole lines.
lines-append :
    (b s : Str)
    → (l : Str) × (ls : List Str) × (lines (b ++ newline ∷ []) ≡ l ∷ ls)
      × (lines (b ++ newline ∷ s) ≡ l ∷ (ls ++ lines s))
unfolding lines in_front
lines-append [] s = ([], [], refl, refl)
lines-append (c ∷ b) s =
    let (l, ls, h, k) = lines-append b s in
    elim (Bool-cases (c == newline)) [
      | inl ends ↦ ([], l ∷ ls, rw (ends, h) refl, rw (ends, k) refl)
      | inr goes ↦ (c ∷ l, ls, rw (goes, h) refl, rw (goes, k) refl)
    ]

lines-line : (w : Str) → Lacks newline w → empty w ≡ false → lines (w ++ newline ∷ []) ≡ w ∷ []
unfolding lines in_front
lines-line [] h e = cc e
lines-line (c ∷ []) h e = rw (h.0) refl
lines-line (c ∷ d ∷ w) h e = rw (h.0, lines-line (d ∷ w) h.1 refl) refl

load_lines-append :
    (a b : List Str) (env : Map Str) → load_lines (a ++ b) env ≡ load_lines b (load_lines a env)
unfolding load_lines
load_lines-append [] b env = refl
load_lines-append (l ∷ a) b env = load_lines-append a b (load_line l env)

abbrev quoted : Str → Str
quoted v = b'"' ∷ (v ++ b'"' ∷ [])

rtrim-quoted : (v : Str) → rtrim (v ++ b'"' ∷ []) ≡ v ++ b'"' ∷ []
unfolding rtrim is_space
rtrim-quoted [] = refl
rtrim-quoted (c ∷ v) = rw (rtrim-quoted v) (kept (is_space c) v)
  where
    kept :
        (b : Bool) (v : Str)
        → (if b && empty (v ++ b'"' ∷ []) then [] else c ∷ (v ++ b'"' ∷ [])) ≡ c ∷ (v ++ b'"' ∷ [])
    kept false v = refl
    kept true [] = refl
    kept true (d ∷ v) = refl

trim-quoted : (v : Str) → trim (quoted v) ≡ quoted v
unfolding trim ltrim rtrim is_space
trim-quoted v = rw (rtrim-quoted v) refl

back-append : (c d : ℕ) (v : Str) → back c (v ++ d ∷ []) ≡ d
unfolding back
back-append c d [] = refl
back-append c d (x ∷ v) = back-append x d v

take-length : (v w : Str) → take (length v) (v ++ w) ≡ v
take-length [] w = refl
take-length (c ∷ v) w = ap (λ s. c ∷ s) (take-length v w)

unquote-quoted : (v : Str) → unquote (quoted v) ≡ v
unfolding unquote enclosed
unquote-quoted v =
    ap
      (λ n.
        if leb 2 (suc n) && enclosed b'"' (v ++ b'"' ∷ [])
        then take (suc n - 2) (v ++ b'"' ∷ [])
        else quoted v)
      size
    ∙ rw (back-append b'"' b'"' v, long, less) (take-length v (b'"' ∷ []))
  where
    size : length (v ++ b'"' ∷ []) ≡ suc (length v)
    size = omega (arith, length-append v (b'"' ∷ []))

    long : leb 2 (suc (suc (length v))) ≡ true
    long = ground arith

    less : suc (suc (length v)) - 2 ≡ length v
    less = omega arith

c_str-whole : (s : Str) → Lacks 0 s → c_str s ≡ s
unfolding c_str
c_str-whole [] h = refl
c_str-whole (c ∷ s) h = rw (h.0, c_str-whole s h.1) refl

split_at-none : (c : ℕ) (s : Str) → Lacks c s → split_at c s ≡ none
unfolding split_at
split_at-none c [] h = refl
split_at-none c (d ∷ s) h = rw (h.0, split_at-none c s h.1) refl

-- The line `key="value"`.
abbrev pub written : Str → Str → Str
written key value = key ++ b'=' ∷ quoted value

-- A name that a line can carry.
pub record IsName (key : Str) : Type 0 where
  pub no_equals : Lacks b'=' key
  pub no_newline : Lacks newline key
  pub no_zero : Lacks 0 key
  pub named : empty key ≡ false
  pub trimmed : trim key ≡ key
  pub no_comment : Lacks b'#' (take 1 key)

setenv-IsName :
    (key value : Str) (env : Map Str) → IsName key → setenv key value env ≡ assign key value env
unfolding setenv
setenv-IsName key value env h = rw (split_at-none b'=' key h.no_equals, h.named, setenv) refl

load_line-written :
    (key value : Str) (env : Map Str)
    → IsName key
    → Lacks 0 value
    → load_line (written key value) env ≡ assign key value env
unfolding load_line
load_line-written [] value env h no_zero = cc h.named
load_line-written (c ∷ k) value env h no_zero =
    rw (h.no_comment.0, split_at-append b'=' (c ∷ k) (quoted value) h.no_equals)
      (ap (λ s. setenv s (c_str (unquote (trim (quoted value)))) env)
          (ap c_str h.trimmed ∙ c_str-whole (c ∷ k) h.no_zero)
        ∙ ap (λ s. setenv (c ∷ k) (c_str s) env)
            (ap unquote (trim-quoted value) ∙ unquote-quoted value)
        ∙ ap (λ s. setenv (c ∷ k) s env) (c_str-whole value no_zero)
        ∙ setenv-IsName (c ∷ k) value env h)

Lacks-append : (c : ℕ) (s t : Str) → Lacks c s → Lacks c t → Lacks c (s ++ t)
Lacks-append c s t h k = All-append (λ d. (d == c) ≡ false) s t h k

-- Whatever stands before it in the file and in the environment: a last line `key="value"`, with a
-- name that is not empty and has no `=`, newline, zero byte, white space at its ends or `#` in front,
-- and a value without newline and zero byte, makes `get` return that value, quotes, `=`, `#` and
-- white space in it included.
pub get-load_env_file :
    (before key value : Str) (env : Map Str)
    → IsName key
    → Lacks newline value
    → Lacks 0 value
    → get key (load_env_file (some (before ++ newline ∷ (written key value ++ newline ∷ []))) env)
      ≡ value
unfolding get load_env_file load_lines
get-load_env_file before key value env h one_line no_zero =
    let w = written key value in
    let (l, ls, cut, whole) = lines-append before (w ++ newline ∷ []) in
    let alone =
      lines-line w
        (Lacks-append newline key (b'=' ∷ quoted value) h.no_newline
          (refl, (refl, Lacks-append newline value (b'"' ∷ []) one_line (refl, tt))))
        (empty-written key) in
    let earlier = load_lines ls (load_line l env) in
    ap (λ ms. get key (load_lines ms env)) (whole ∙ ap (λ ms. l ∷ (ls ++ ms)) alone)
    ∙ ap (get key) (
        load_lines-append ls (w ∷ []) (load_line l env)
        ∙ load_line-written key value earlier h no_zero)
    ∙ ap (λ s. value_of (lookup s (assign key value earlier))) (c_str-whole key h.no_zero)
    ∙ ap (λ o. value_of o) (lookup-assign key value earlier)
  where
    value_of : Option Str → Str
    value_of o = elim o [ none ↦ [] | some value ↦ value ]

    empty-written : (k : Str) → empty (written k value) ≡ false
    empty-written [] = refl
    empty-written (c ∷ k) = refl
