-- ===== src/Security/Seed/Access.antt =====
-- A login as the seeded administrator.
use edo_adapter_enterprise.Security.Seed.{Tables}
