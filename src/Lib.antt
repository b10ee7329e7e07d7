-- ===== src/Lib.antt =====
-- Face-Cam: attendance by face for many organizations. This library models the core of its API
-- (apps/api/src) and of the rules shared with the web application (packages/shared/src).
--
-- A request passes the guards, which put the caller's identity into the request's store; the
-- services then read and write tables through a client that filters by the tenant of that store.
--
-- - Slug.antt: portal addresses, packages/shared/src/slug.ts.
-- - Enums.antt, Session.antt, Rows.antt: the enumerations, session types and database rows.
-- - Context.antt: the request's store, apps/api/src/common/context/request-context.ts. A call is
--   a function of the store and of a state; it returns a result or an error and both anew.
-- - Guards.antt: the three global guards, apps/api/src/common/guards.
-- - Scope.antt: the tenant filter, apps/api/src/prisma/tenant-scope.ts.
-- - Store.antt: the interface of a table, with the documented behaviour of Prisma as laws;
--   Store/Keyed.antt has a table that meets them.
-- - Auth.antt: signing in and out, apps/api/src/auth/auth.service.ts.
-- - Templates.antt: the seeded fields, packages/shared/src/templates.ts.
-- - Tenants.antt: organizations, apps/api/src/tenants/tenants.service.ts.
-- - Face.antt: face data, apps/api/src/face/face-data.service.ts.
-- - Enrolment.antt: enrolling a face, apps/api/src/face/enrolment.service.ts.
-- - Fields.antt: the fields of an organization,
--   apps/api/src/members/field-definitions.service.ts.
-- - Members.antt: members, apps/api/src/members/members.service.ts. Child files:
--   the codes, the abstract roll, consents and the listing.
-- - Paging.antt: the pages of the lists of members and of organizations.
-- - Csv.antt: the export of members, apps/api/src/members/members.controller.ts, and its reading by
--   apps/web/src/app/t/[slug]/members/import/import-wizard.tsx.
-- - ImportPage.antt: the rest of that page but for its rendering.
-- - Token.antt: the lifetimes of tokens, apps/api/src/auth/token.service.ts.
-- - Compreface.antt: the client of the face engine, apps/api/src/face/compreface.client.ts.
-- - Encryption.antt: stored secrets, apps/api/src/common/crypto/encryption.service.ts.
-- - Storage.antt: stored objects and links to them, apps/api/src/storage.
-- - Import.antt: the import of members, apps/api/src/members/member-import.service.ts.
-- - FieldSchema.antt: the schemas of member payloads, packages/shared/src/field-schema.ts, on the
--   interface of zod in FieldSchema/Schemas.antt.
-- - ErrorFilter.antt: error responses, apps/api/src/common/filters/all-exceptions.filter.ts.
-- - Web.antt: the web application's client of the API, apps/web/src/lib/api.ts. Web/Refresh.antt has
--   calls that are in flight at once, as a step function on pages; Web/Portal.antt the middleware
--   and the loaders of a portal's pages, apps/web/src/middleware.ts and session.ts, tenant.ts and
--   portal.ts of apps/web/src/lib; Web/Form.antt and Web/Groups.antt the form of a member,
--   apps/web/src/components/members.
-- - Auth/Cookies.antt: the routes of signing in, apps/api/src/auth/auth.controller.ts.
-- - Routes.antt: the routes of the controllers under apps/api/src and who may use them.
-- - Health.antt: the health report, apps/api/src/health.
-- - Antispoof.antt: the scoring of spoofed images, apps/api/src/face/antispoof.client.ts.
-- - Audit.antt: the audit trail, apps/api/src/common/interceptors/audit.interceptor.ts.
--
-- Each file's functions bear the names of the source's, in snake case. Prisma, argon2, JWT, the
-- Unicode tables, ciphers, the network and files are parameters, and so are the face engine and
-- the image store in the services that use them. Ids and times are numbers;
-- the time of a call is an argument, and so is the time at which a token is signed or read. A sort
-- by the database may order rows that tie anew in each request. Loops recurse on their lists, but
-- for the search of a free slug, whose fuel is the bound of fifty attempts of the source itself, and
-- the removal of a prefix from a bucket, whose fuel is a pass for each stored key and one more.
--
-- Not modelled: logging, the texts of the services' error messages, the dispatch of HTTP requests,
-- the other schemas of zod, configuration, the storage drivers but for the above, and the rendering
-- of the web application.
pub mod Antispoof
pub mod Audit
pub mod Auth
pub mod Compreface
pub mod Context
pub mod Csv
pub mod Encryption
pub mod Enrolment
pub mod Enums
pub mod ErrorFilter
pub mod Face
pub mod FieldSchema
pub mod Fields
pub mod Guards
pub mod Health
pub mod Import
pub mod ImportPage
pub mod Members
pub mod Paging
pub mod Prelude
pub mod Routes
pub mod Rows
pub mod Scope
pub mod Session
pub mod Slug
pub mod Storage
pub mod Store
pub mod Templates
pub mod Tenants
pub mod Token
pub mod Web
