-- ===== src/Web/Pages.antt =====
-- That a portal's pages are those of its own host and its own users: apps/web/src/middleware.ts and
-- apps/web/src/lib/portal.ts.
