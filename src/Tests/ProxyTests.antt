-- ===== src/Tests/ProxyTests.antt =====
-- Tests of the gateway.
use github_oras_packages.Base.{◌≡◌, ◌↔◌, true, false, some, Bytes, bytes, ◌++◌, is_empty}
use github_oras_packages.Gateway.{blob_upload}
use github_oras_packages.Proxy.Query.{
  has_bad_query_byte, IsQueryFor, valid_distribution_query, valid_distribution_query_iff,
}

abbrev acme : Bytes
acme = bytes "acme/rpms"

abbrev finish : Bytes
finish = bytes "_state=abc&digest=sha256:" ++ github_oras_packages.Tests.Registry.zeros

valid_distribution_query_iff_example :
    (valid_distribution_query (blob_upload acme (bytes "s")) (bytes "PUT") (some finish) acme
      ≡ true)
    ↔ ((is_empty finish ≡ false)
        × ((has_bad_query_byte finish ≡ false)
            × IsQueryFor (blob_upload acme (bytes "s")) (bytes "PUT") acme finish))
valid_distribution_query_iff_example =
    valid_distribution_query_iff (blob_upload acme (bytes "s")) (bytes "PUT") finish acme
