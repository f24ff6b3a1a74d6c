-- ===== src/Db.antt =====
-- internal/repository/db: what it does to the text of a query.
pub mod Rebind
