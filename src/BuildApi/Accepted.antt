-- ===== src/BuildApi/Accepted.antt =====
-- What a client of `createBuild` of internal/buildapi/server.go may rely on after the status 202.
use automotive_dev_operator.Base.{String, ◌≡◌, Result, ok, err}
use automotive_dev_operator.Text.Chars.{◌is◌}
use automotive_dev_operator.BuildApi.Types.{BuildRequest, Request, Response}
use automotive_dev_operator.BuildApi.Client.{ApiClient, resolve_requester}
use automotive_dev_operator.BuildApi.Server.{Views, IsApi}
use automotive_dev_operator.BuildApi.Stored.{IsStored, IsExpiry}
use automotive_dev_operator.BuildApi.Promises.{When, Promises}

module _ (C : ApiClient) (V : Views C.World) (L : IsApi C V) where
  open C use {World}

  -- The name that the token review gave for the request at some time.
  abbrev pub IsRequester : Request → String → Type 0
  IsRequester request by = (v : World) × ((resolve_requester C request v).0 ≡ ok by)

  -- All is stored in one namespace, for one requester.
  abbrev pub IsAccepted : Request → BuildRequest → World → Type 0
  IsAccepted request q w =
      (ns : String) × (by : String) × (IsRequester request by
        × IsStored V ns q by (IsExpiry C V L ns) w)

  -- The same at the end of the whole handler, whatever the namespace.
  abbrev Keeps202 : Request → BuildRequest → Result Response → World → Type 0
  Keeps202 request q (err e) w = Unit {0}
  Keeps202 request q (ok r) w = When (r.status is 202) (IsAccepted request q w)

  abbrev AfterRequester : Request → Result String → World → Type 0
  AfterRequester request (ok by) w = IsRequester request by
  AfterRequester request (err e) w = Unit {0}
