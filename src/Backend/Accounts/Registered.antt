-- ===== src/Backend/Accounts/Registered.antt =====
-- Who registers with the form of frontend/src/app/register/page.tsx can log in.
use telemetryhub.Common.{string_eq, nat_eq}
