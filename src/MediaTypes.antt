-- ===== src/MediaTypes.antt =====
-- `media_type_for` of crates/github-oras-packages-proxy/src/publisher.rs.
use github_oras_packages.Base.{
  ◌||◌, map, Bytes, bytes, to_ascii_lowercase, ends_with, text_eq, if◌then◌else◌,
}

unfoldable pub media_type_for : Bytes → Bytes
unfolding ends_with text_eq
media_type_for title =
    let lower = map to_ascii_lowercase title in
    if ends_with (bytes ".html") lower || ends_with (bytes ".htm") lower
    then bytes "text/html"
    else if ends_with (bytes ".json") lower
    then bytes "application/json"
    else if ends_with (bytes ".xml") lower
    then bytes "application/xml"
    else if ends_with (bytes ".txt") lower || ends_with (bytes ".list") lower
    then bytes "text/plain; charset=utf-8"
    else if ends_with (bytes ".rpm") lower
    then bytes "application/vnd.rpm"
    else if ends_with (bytes ".deb") lower
    then bytes "application/vnd.debian.binary-package"
    else if ends_with (bytes ".zst") lower
    then bytes "application/zstd"
    else if ends_with (bytes ".gz") lower
    then bytes "application/gzip"
    else bytes "application/octet-stream"
