-- ===== src/SocketPath.antt =====
-- clients/python/tay/socket_path.py. `os.path.abspath`, the decimal text of a number and the tests on
-- directories come from outside.
pub mod Laws
use tay.Prelude.{
  ℕ, Bool, true, false, not, ◌&&◌, ◌||◌, Option, none, some, List, [], ◌∷◌, ◌++◌, leb, ◌==◌,
  if◌then◌else◌,
}
use tay.Prelude.Outcome.{Outcome, ok, err, validation, ◌>>=◌}
use tay.Text.{Text, codes, is_empty, has_nul, utf8_size}
use tay.Number.{ℤ, pos, negsuc}

pub record Host : Type 0 where
  pub abspath : Text → Text
  pub decimal : ℕ → Text
  pub usable : Text → Bool
  pub exists : Text → Bool
  pub environment : Text → Option Text
  pub uid : ℤ

abbrev pub max_socket_path_bytes : ℕ
max_socket_path_bytes = 100

-- `os.path.isabs`
unfoldable pub is_absolute : Text → Bool
is_absolute [] = false
is_absolute (c ∷ t) = c == b'/'

abbrev pub fits_size : Option ℕ → Bool
fits_size none = false
fits_size (some n) = leb n max_socket_path_bytes

-- `_valid_path`
unfoldable pub valid_path : Text → Bool
unfolding is_absolute
valid_path path =
    not (is_empty path) && (is_absolute path && (not (has_nul path) && fits_size (utf8_size path)))

-- `os.path.join(parent, part)`, for a relative part
unfoldable pub join : Text → Text → Text
join [] part = part
join (c ∷ []) part = if c == b'/' then c ∷ part else c ∷ b'/' ∷ part
join (c ∷ d ∷ rest) part = c ∷ join (d ∷ rest) part

module _ (host : Host) where
  open host use {abspath, decimal, usable, exists, environment, uid}

  -- `_validated_path`
  unfoldable pub validated_path : Text → Outcome Text
  validated_path path =
      if valid_path path && valid_path (abspath path) then ok (abspath path) else err validation

  -- `_candidate(parent, directory, "tay.sock")`
  unfoldable pub candidate : Text → Text → Text
  candidate parent directory = abspath (join (join parent directory) (codes "tay.sock"))

  -- `f"tay-{user_id}"`
  unfoldable pub user_directory : ℕ → Text
  user_directory user = codes "tay-" ++ decimal user

  abbrev with_source : Outcome Text → Text → Outcome (Text × Text)
  with_source (ok path) source = ok (path, source)
  with_source (err e) source = err e

  unfoldable pub fallback : ℕ → Outcome (Text × Text)
  fallback user =
      if usable (codes "/tmp")
      then with_source (validated_path (candidate (codes "/tmp") (user_directory user)))
          (codes "fallback /tmp")
      else err validation

  -- The variable, if it names a usable directory whose candidate is a valid path.
  unfoldable pub from_variable : Option Text → Text → Option Text
  from_variable none directory = none
  from_variable (some parent) directory =
      if not (is_empty parent) && usable parent && valid_path (candidate parent directory)
      then some (candidate parent directory)
      else none

  unfoldable pub private_path : ℕ → Outcome (Text × Text)
  private_path user = elim (from_variable (environment (codes "XDG_RUNTIME_DIR")) (codes "tay")) [
    | some path ↦ ok (path, codes "XDG_RUNTIME_DIR")
    | none ↦ elim (from_variable (environment (codes "TMPDIR")) (user_directory user)) [
      | some path ↦ ok (path, codes "TMPDIR")
      | none ↦ fallback user
    ]
  ]

  unfoldable pub automatic : ℤ → Outcome (Text × Text)
  automatic user =
      if exists (codes "/run/tay")
      then ok (codes "/run/tay/tay.sock", codes "shared /run/tay")
      else elim user [ pos n ↦ private_path n | negsuc n ↦ err validation ]

  unfoldable pub configured : Option Text → Outcome (Text × Text)
  configured none = automatic uid
  configured (some path) =
      if is_empty path
      then automatic uid
      else with_source (validated_path path) (codes "TAY_SOCKET_PATH")

  unfoldable pub discover_socket_path : Option Text → Outcome (Text × Text)
  discover_socket_path (some explicit) = with_source (validated_path explicit) (codes "argument")
  discover_socket_path none = configured (environment (codes "TAY_SOCKET_PATH"))

  unfoldable pub resolve_socket_path : Option Text → Outcome Text
  resolve_socket_path explicit = do (path, source) ← discover_socket_path explicit; ok path
