-- ===== src/EnvLoader/Last.antt =====
-- The last assignment of a .env file counts: the two files EnvLoader.cpp.
use wizz_mania.Prelude.{
  ◌≡◌, refl, ap, ◌∙◌, Bool, true, false, List, [], ◌∷◌, ◌==◌, Option, none, some, if◌then◌else◌,
  Bool-cases, inl, inr,
}
use wizz_mania.Prelude.Text.{Str, empty, str_eq, str_eq_iff, split_at}
use wizz_mania.Prelude.Maps.{Map, lookup, assign, lookup-assign, lookup-assign_other}
use wizz_mania.EnvLoader.{trim, unquote, c_str, setenv, load_line, load_lines}

-- What a line says by itself: a name and its value.
pub assignment : Str → Option (Str × Str)
assignment [] = none
assignment (c ∷ s) = if c == b'#' then none else elim (split_at b'=' (c ∷ s)) [
  | none ↦ none
  | some (key, value) ↦ some (c_str (trim key), c_str (unquote (trim value)))
]

-- The value that the last line for a name gives it.
pub last_value : Str → List Str → Option Str
last_value key [] = none
last_value key (l ∷ ls) = elim (last_value key ls) [
  | some value ↦ some value
  | none ↦ elim (assignment l) [
    | none ↦ none
    | some (name, value) ↦ if str_eq name key then some value else none
  ]
]

lookup-setenv :
    (key name value : Str) (env : Map Str)
    → empty key ≡ false
    → split_at b'=' key ≡ none
    → lookup key (setenv name value env) ≡ (if str_eq name key then some value else lookup key env)
unfolding setenv assign
lookup-setenv key name value env named whole = elim (Bool-cases (str_eq name key)) [
  | inl same ↦ rw same (
      ap (λ n. lookup key (setenv n value env)) ((str_eq_iff name key).0 same)
      ∙ ap (lookup key) (rw (whole, named, setenv) refl)
      ∙ lookup-assign key value env)
  | inr other ↦ rw other (kept (split_at b'=' name) (empty name) other)
]
  where
    kept :
        (o : Option (Str × Str)) (b : Bool)
        → str_eq name key ≡ false
        → lookup key (elim o [ some parts ↦ env | none ↦ if b then env else assign name value env ])
          ≡ lookup key env
    kept (some parts) b other = refl
    kept none true other = refl
    kept none false other = lookup-assign_other name key value env other

load_line-assignment :
    (l : Str) (env : Map Str)
    → load_line l env
      ≡ elim (assignment l) [ none ↦ env | some (name, value) ↦ setenv name value env ]
unfolding load_line assignment
load_line-assignment [] env = refl
load_line-assignment (c ∷ s) env = elim (Bool-cases (c == b'#')) [
  | inl comment ↦ rw comment refl
  | inr text ↦ rw text (by_parts (split_at b'=' (c ∷ s)))
]
  where
    loaded : Str → Str → Map Str
    loaded key value = setenv (c_str (trim key)) (c_str (unquote (trim value))) env

    by_parts :
        (o : Option (Str × Str))
        → (elim o as (λ x. Map Str) [ none ↦ env | some (key, value) ↦ loaded key value ])
          ≡ elim (elim o as (λ x. Option (Str × Str)) [
            | none ↦ none
            | some (key, value) ↦ some (c_str (trim key), c_str (unquote (trim value)))
          ])
              as (λ x. Map Str) [ none ↦ env | some (name, value) ↦ setenv name value env ]
    by_parts none = refl
    by_parts (some (key, value)) = refl

-- What a line makes of the value of a name.
abbrev changed : Str → Option (Str × Str) → Option Str → Option Str
changed key none old = old
changed key (some (name, value)) old = if str_eq name key then some value else old

lookup-load_line :
    (key l : Str) (env : Map Str)
    → empty key ≡ false
    → split_at b'=' key ≡ none
    → lookup key (load_line l env) ≡ changed key (assignment l) (lookup key env)
lookup-load_line key l env named whole =
    ap (lookup key) (load_line-assignment l env) ∙ by_line (assignment l)
  where
    by_line :
        (o : Option (Str × Str))
        → lookup key (elim o [ none ↦ env | some (name, value) ↦ setenv name value env ])
          ≡ changed key o (lookup key env)
    by_line none = refl
    by_line (some (name, value)) = lookup-setenv key name value env named whole

-- After a file is loaded, a name (not empty and without `=`) has the value that the last line for it
-- gives, or the one that it had before where there is none.
pub lookup-load_lines :
    (key : Str) (ls : List Str) (env : Map Str)
    → empty key ≡ false
    → split_at b'=' key ≡ none
    → lookup key (load_lines ls env)
      ≡ elim (last_value key ls) [ some value ↦ some value | none ↦ lookup key env ]
unfolding load_lines last_value
lookup-load_lines key [] env named whole = refl
lookup-load_lines key (l ∷ ls) env named whole =
    lookup-load_lines key ls (load_line l env) named whole
    ∙ by_last (last_value key ls) (assignment l) (lookup-load_line key l env named whole)
  where
    from_line : Bool → Str → Option Str → Option Str
    from_line b value old = elim (if b then some value else none) as (λ x. Option Str) [
      | some value ↦ some value
      | none ↦ old
    ]

    same :
        (b : Bool) (value : Str) (old : Option Str)
        → (if b then some value else old) ≡ from_line b value old
    same true value old = refl
    same false value old = refl

    by_last :
        (o : Option Str) (a : Option (Str × Str))
        → lookup key (load_line l env) ≡ changed key a (lookup key env)
        → (elim o as (λ x. Option Str) [
          | some value ↦ some value
          | none ↦ lookup key (load_line l env)
        ])
          ≡ elim (elim o as (λ x. Option Str) [
            | some value ↦ some value
            | none ↦ elim a as (λ x. Option Str) [
              | none ↦ none
              | some (name, value) ↦ if str_eq name key then some value else none
            ]
          ])
              as (λ x. Option Str) [ some value ↦ some value | none ↦ lookup key env ]
    by_last (some value) a h = refl
    by_last none none h = h
    by_last none (some (name, value)) h = h ∙ same (str_eq name key) value (lookup key env)
