-- ===== src/Routing/Errors.antt =====
-- `RouteError` of crates/github-oras-packages-proxy/src/routing.rs.
use github_oras_packages.Base.{Bytes, bytes}

pub data RouteError : Type 0 where
  unsupported_method invalid_route invalid_repository_locator invalid_repository : RouteError
  unsupported_protocol disabled_protocol invalid_protocol_path : RouteError

unfoldable pub route_error_code : RouteError → Bytes
route_error_code unsupported_method = bytes "unsupported_method"
route_error_code invalid_route = bytes "invalid_route"
route_error_code invalid_repository_locator = bytes "invalid_repository_locator"
route_error_code invalid_repository = bytes "invalid_repository"
route_error_code unsupported_protocol = bytes "unsupported_protocol"
route_error_code disabled_protocol = bytes "disabled_protocol"
route_error_code invalid_protocol_path = bytes "invalid_protocol_path"
