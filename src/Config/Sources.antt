-- ===== src/Config/Sources.antt =====
-- Which source a setting comes from, and which frontends a list enables.
use github_oras_packages.Base.{
  ◌≡◌, refl, sym, ap, [], ◌∷◌, Bytes, ok, arith, ◌>>=◌, map_get, map_insert, map_get-insert,
}
use github_oras_packages.Config.{
  Settings, reject_unknown_environment_keys, setting, from_settings, from_maps,
}
use github_oras_packages.Config.Errors.{Addresses}

-- All entries of the environment written over those of the file.
abbrev pub overlay : Settings → Settings → Settings
overlay file_values [] = file_values
overlay file_values ((key, value) ∷ environment) =
    map_insert key value (overlay file_values environment)

-- A key of the overlay has the value of the environment, or that of the file.
map_get-overlay :
    (file_values environment : Settings) (key : Bytes)
    → map_get key (overlay file_values environment) ≡ setting file_values environment key
unfolding setting map_get
map_get-overlay file_values [] key = refl
map_get-overlay file_values ((k, v) ∷ environment) key = ground (
  arith,
  map_get-insert k key v (overlay file_values environment),
  map_get-overlay file_values environment key,
)

setting-overlay :
    (file_values environment : Settings) (key : Bytes)
    → setting (overlay file_values environment) [] key ≡ setting file_values environment key
unfolding setting map_get
setting-overlay file_values environment key = map_get-overlay file_values environment key

-- With only known keys in the environment, loading the file's settings and the environment is loading
-- one file in which every setting of the environment has replaced that of the file: the environment
-- wins for each key, and the file counts for all others.
pub from_maps-overlay :
    (addresses : Addresses) (file_values environment : Settings)
    → reject_unknown_environment_keys environment ≡ ok tt
    → from_maps addresses file_values environment
      ≡ from_maps addresses (overlay file_values environment) []
unfolding from_maps reject_unknown_environment_keys ◌>>=◌
from_maps-overlay addresses file_values environment known =
    rw known
      (ap (from_settings addresses) (λ i key. sym (setting-overlay file_values environment key) i))
