-- ===== src/Backend/Routes.antt =====
-- `setupRoutes` of backend/internal/server/server.go, less the routes that no page of the frontend uses:
-- health, swagger, brokers. A pattern is cut at its parameters, as "/devices/:id/fields" is into
-- "/devices/", :id and "/fields"; it stands below "/api/v1".
use telemetryhub.Common.{String, List, [], ◌∷◌}
use telemetryhub.Api.Requests.{Method, read, post, put, delete}

pub data Piece : Type 0 where
  fixed : String → Piece
  param : Piece

-- Which middleware a route has: none, JWTAuth, or RequireRole("admin") after it.
pub data Access : Type 0 where
  public authorized admin : Access

-- The handlers.
pub data Endpoint : Type 0 where
  login register_public logout me change_password : Endpoint
  list_devices get_device get_device_fields get_readings : Endpoint
  update_device delete_device delete_device_field : Endpoint
  create_rename list_renames update_rename delete_rename : Endpoint
  batch_update_group_config batch_update_sub_group_config : Endpoint
  list_device_groups create_device_group update_device_group delete_device_group : Endpoint
  reorder_device_groups set_device_group export : Endpoint

pub record Route : Type 0 where
  pub method : Method
  pub pattern : List Piece
  pub access : Access

abbrev route_of : Method → List Piece → Access → Route
route_of m p a = record { method = m; pattern = p; access = a }

abbrev device : List Piece → List Piece
device p = fixed "/devices/" ∷ param ∷ p

unfoldable pub route : Endpoint → Route
route login = route_of post (fixed "/auth/login" ∷ []) public
route register_public = route_of post (fixed "/auth/register" ∷ []) public
route logout = route_of post (fixed "/auth/logout" ∷ []) authorized
route me = route_of read (fixed "/auth/me" ∷ []) authorized
route change_password = route_of post (fixed "/auth/change-password" ∷ []) authorized
route list_devices = route_of read (fixed "/devices" ∷ []) authorized
route get_device = route_of read (device []) authorized
route get_device_fields = route_of read (device (fixed "/fields" ∷ [])) authorized
route get_readings = route_of read (device (fixed "/readings" ∷ [])) authorized
route update_device = route_of put (device []) admin
route delete_device = route_of delete (device []) admin
route delete_device_field = route_of delete (device (fixed "/fields/" ∷ param ∷ [])) admin
route create_rename = route_of post (device (fixed "/renames" ∷ [])) admin
route list_renames = route_of read (device (fixed "/renames" ∷ [])) admin
route update_rename = route_of put (device (fixed "/renames/" ∷ param ∷ [])) admin
route delete_rename = route_of delete (device (fixed "/renames/" ∷ param ∷ [])) admin
route batch_update_group_config = route_of post (device (fixed "/renames/group-config" ∷ [])) admin
route batch_update_sub_group_config =
    route_of post (device (fixed "/renames/subgroup-config" ∷ [])) admin
route list_device_groups = route_of read (fixed "/device-groups" ∷ []) authorized
route create_device_group = route_of post (fixed "/device-groups" ∷ []) admin
route update_device_group = route_of put (fixed "/device-groups/" ∷ param ∷ []) admin
route delete_device_group = route_of delete (fixed "/device-groups/" ∷ param ∷ []) admin
route reorder_device_groups = route_of put (fixed "/device-groups/reorder" ∷ []) admin
route set_device_group = route_of put (device (fixed "/group" ∷ [])) admin
route export = route_of read (device (fixed "/export" ∷ [])) admin

-- A pattern with arguments in place of its parameters, as the pieces of a path. A
-- parameter without an argument ends it.
unfoldable pub fill : List Piece → List String → List String
fill [] args = []
fill (fixed s ∷ p) args = s ∷ fill p args
fill (param ∷ p) [] = []
fill (param ∷ p) (a ∷ args) = a ∷ fill p args
