-- ===== src/SocketPath/Laws.antt =====
-- Every path that discovery selects is valid, and the order in which it looks.
use tay.Prelude.{ℕ, ◌≡◌, refl, true, Option, none, some, arith, inl, inr, Bool-cases}
use tay.Prelude.Outcome.{ok}
use tay.Text.{Text, codes, utf8_size, has_nul}
use tay.Number.{ℤ, pos, negsuc}
use tay.SocketPath.{
  Host, valid_path, validated_path, candidate, with_source, fallback, from_variable, private_path,
  automatic, configured, discover_socket_path, user_directory,
}

module _ (host : Host) (path source : Text) where
  validated :
      (t s : Text)
      → with_source host (validated_path host t) s ≡ ok (path, source)
      → valid_path path ≡ true
  unfolding validated_path
  validated t s h = ground arith

  fallback-valid : (n : ℕ) → fallback host n ≡ ok (path, source) → valid_path path ≡ true
  unfolding fallback
  fallback-valid n h = ground (
    arith,
    validated (candidate host (codes "/tmp") (user_directory host n)) (codes "fallback /tmp"),
  )

  variable-valid :
      (o : Option Text) (d : Text) → from_variable host o d ≡ some path → valid_path path ≡ true
  unfolding from_variable
  variable-valid none d h = cc
  variable-valid (some parent) d h = ground arith

  private-valid : (n : ℕ) → private_path host n ≡ ok (path, source) → valid_path path ≡ true
  unfolding private_path
  private-valid n h = ground (
    arith,
    fallback-valid n,
    variable-valid (host.environment (codes "XDG_RUNTIME_DIR")) (codes "tay"),
    variable-valid (host.environment (codes "TMPDIR")) (user_directory host n),
  )

  automatic-valid : (z : ℤ) → automatic host z ≡ ok (path, source) → valid_path path ≡ true
  unfolding automatic
  automatic-valid (pos n) h = elim (Bool-cases (host.exists (codes "/run/tay"))) [
    | inl e ↦
        let p : path ≡ codes "/run/tay/tay.sock" = ground arith in
        rw p (unfold valid_path has_nul utf8_size in refl)
    | inr e ↦ private-valid n (ground arith)
  ]
  automatic-valid (negsuc n) h = elim (Bool-cases (host.exists (codes "/run/tay"))) [
    | inl e ↦
        let p : path ≡ codes "/run/tay/tay.sock" = ground arith in
        rw p (unfold valid_path has_nul utf8_size in refl)
    | inr e ↦ absurd (ground arith)
  ]

  configured-valid :
      (o : Option Text) → configured host o ≡ ok (path, source) → valid_path path ≡ true
  unfolding configured
  configured-valid none h = automatic-valid host.uid h
  configured-valid (some t) h =
      ground (arith, automatic-valid host.uid, validated t (codes "TAY_SOCKET_PATH"))

  -- Whatever the argument, the environment, the user id and the directories of the host, a path that
  -- discovery selects is absolute, holds no NUL and has a UTF-8 form of at most 100 bytes.
  pub discover_socket_path-valid :
      (explicit : Option Text)
      → discover_socket_path host explicit ≡ ok (path, source)
      → valid_path path ≡ true
  unfolding discover_socket_path
  discover_socket_path-valid (some t) h = validated t (codes "argument") h
  discover_socket_path-valid none h =
      configured-valid (host.environment (codes "TAY_SOCKET_PATH")) h
