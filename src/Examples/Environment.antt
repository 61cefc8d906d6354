-- ===== src/Examples/Environment.antt =====
-- Concrete .env files: the two files EnvLoader.cpp.
use wizz_mania.Prelude.{◌≡◌, refl, [], ◌∷◌, ◌++◌, some, none}
use wizz_mania.Prelude.Text.{codes, split_at, is_space, str_eq}
use wizz_mania.Prelude.Maps.{lookup}
use wizz_mania.EnvLoader.{newline, trim, load_lines, load_env_file, get}
use wizz_mania.EnvLoader.Lines.{IsName, written, get-load_env_file}
use wizz_mania.EnvLoader.Last.{last_value, lookup-load_lines}

port-IsName : IsName (codes "PORT")
unfolding trim is_space
port-IsName = record {
  no_equals = (refl, (refl, (refl, (refl, tt))));
  no_newline = (refl, (refl, (refl, (refl, tt))));
  no_zero = (refl, (refl, (refl, (refl, tt))));
  named = refl;
  trimmed = refl;
  no_comment = (refl, tt);
}

get-load_env_file_example :
    get (codes "PORT") (
      load_env_file
        (some (codes "PORT=7" ++ newline ∷ (written (codes "PORT") (codes " =") ++ newline ∷ [])))
        [])
    ≡ codes " ="
get-load_env_file_example =
    get-load_env_file (codes "PORT=7") (codes "PORT") (codes " =") [] port-IsName (refl, (refl, tt))
      (refl, (refl, tt))

port_whole : split_at b'=' (codes "PORT") ≡ none
unfolding split_at
port_whole = refl

lookup-load_lines_example :
    lookup (codes "PORT") (load_lines (codes "PORT = 'a'" ∷ codes "#PORT=1" ∷ codes "X=2" ∷ []) [])
    ≡ elim (last_value (codes "PORT") (codes "PORT = 'a'" ∷ codes "#PORT=1" ∷ codes "X=2" ∷ [])) [
      | some value ↦ some value
      | none ↦ lookup (codes "PORT") []
    ]
lookup-load_lines_example =
    lookup-load_lines (codes "PORT") (codes "PORT = 'a'" ∷ codes "#PORT=1" ∷ codes "X=2" ∷ []) []
      refl port_whole

-- The quotes and the white space around a value are dropped.
quotes_dropped :
    lookup (codes "PORT") (load_lines (codes "PORT = 'a'" ∷ codes "#PORT=1" ∷ codes "X=2" ∷ []) [])
    ≡ some (codes "a")
unfolding load_lines lookup split_at is_space str_eq
quotes_dropped = refl
