-- ===== src/Backend/Devices/Cached.antt =====
-- What the server answers of a deleted device.
use telemetryhub.Common.{string_eq}
use telemetryhub.Js.Map.{get as entry_at}
use telemetryhub.Backend.ReadingsCache.{get}
