-- ===== src/Proxy/Contacts.antt =====
-- What the gateway sends upstream.
use github_oras_packages.Base.{◌≡◌, ◌⊎◌, Option, Bytes}
use github_oras_packages.Gateway.{DistributionTarget}
use github_oras_packages.Inbound.Errors.{InboundLimits}
use github_oras_packages.Libraries.{Libraries}
use github_oras_packages.Oci.Client.{OciClient, OciRequest, World}
use github_oras_packages.Oci.Fetch.{Documents}
use github_oras_packages.Oci.Forward.{Incoming, forwarded_request}
use github_oras_packages.Proxy.Reads.{IsReadOf}
use github_oras_packages.Proxy.Admitted.{IsAdmittedFor, IsWriteTo}

module _ (lib : Libraries) (docs : Documents) (world : World) (client : OciClient) where
  -- What may be sent for a request: a read, or the request itself, admitted, as a write of its target.
  abbrev pub IsForwardOf : Incoming → Bytes → InboundLimits → OciRequest → Type 0
  IsForwardOf request repository limits r =
      (target : DistributionTarget) × ((suffix : Bytes) × ((authorization : Option Bytes)
          × (IsAdmittedFor request repository limits target
              × (IsWriteTo target request.head.method suffix
                  × (r
                      ≡ forwarded_request lib world client suffix request repository
                          authorization)))))

  abbrev pub IsSentFor : Incoming → Bytes → InboundLimits → OciRequest → Type 0
  IsSentFor request repository limits r =
      IsReadOf lib docs world client repository r ⊎ IsForwardOf request repository limits r

  module _ (request : Incoming) (repository : Bytes) (limits : InboundLimits) where
    abbrev P : OciRequest → Type 0
    P = IsSentFor request repository limits
