-- ===== src/Settings/GroupsTab/Server/Removal.antt =====
-- What becomes of the deletion of a group at the server.
use telemetryhub.Common.{List, string_eq}
