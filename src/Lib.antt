-- ===== src/Lib.antt =====
-- Verification of the permission center: the policy engine under internal/policy and the business
-- services under internal/biz, the login under internal/auth, and the configuration, modelled as
-- functions, with theorems about them.
--
-- The program. A policy grants or denies roles the use of API endpoints of a service resource,
-- under a condition. internal/policy/validate checks the condition tree, internal/policy/compile
-- makes the canonical snapshot of a policy, and internal/policy/eval decides a request against the
-- published snapshots. internal/biz holds the services: roles, menus and grants (permission.go),
-- policies and decisions (policy.go), API endpoints and their import (api_endpoint.go), service
-- resources (service_resource.go), and the audit fields (audit.go). The services read and write
-- through repositories, which are interfaces. internal/auth logs browsers in at an identity
-- provider, keeps their session in an encrypted cookie (session.go), and lets requests in by
-- session or bearer token (auth.go). internal/config reads the configuration that the programs
-- start with.
--
-- The files. Common has what all share: Boolean tests and lists over the native numbers
-- (Common/Tests, Common/Lists), and results with the errors of internal/biz/errors.go and panics
-- (Common/Results). Text has what the code uses of package strings: TrimSpace, ToUpper, HasPrefix,
-- Contains and counts. Policy/Value and Policy/Model are internal/policy/model/policy.go, with the
-- JSON values; Policy/Validate is validate.go, Policy/Compile is compile.go, Policy/Eval is
-- eval.go; below each are its laws and tests. Biz/Call is a call on a store, Biz/Call/Attempt what
-- a guarded write does, with a rule for each way to build one. Biz/Audit, Biz/Resource (Catalog),
-- Biz/Permission (Roles, Menus, Grants, Tree), Biz/Endpoint (Import) and Biz/Policy (Draft,
-- Publish, Decide) are the services, one definition per operation, in the order of the code's
-- guards and calls. Biz/Swagger is the reading of a Swagger document (swagger.go),
-- Biz/Swagger/Fetch the search for it, and Biz/Swagger/Whole the import with both. Config is
-- internal/config/config.go. Auth/Session is session.go; of auth.go, Auth/Service has the types,
-- Auth/Flow Login and Callback, Auth/Bearer the bearer tokens and their introspection,
-- Auth/Identity Me, Middleware and Logout, Auth/Routing the routing between the public authority
-- and the backchannel, and Auth/Startup New. Server is what is modelled of the handlers of
-- internal/server/http: the mapping of errors, the decision endpoints, the actor of a request, and
-- AuthMe.
--
-- How the code is rendered. A call of a service or a repository is a function from a store to a
-- result and a store; the repositories are records of such calls over any store, and the theorems
-- suppose of them at most that their reads do not write. A pointer is an Option, and the
-- dereference of nil is the result `panic`. A uuid.UUID is a number, 0 for uuid.Nil; a typed string
-- is an enumeration with a constructor for any other text; a text is a sequence of code points,
-- measured in bytes or in code points as the code does. `table` stands for unicode.ToUpper beyond
-- ASCII, `uuid_string` for uuid.UUID.String, `checksum` for the SHA-256 digest of a snapshot's
-- JSON; times and new identifiers are arguments. In the login, the clock is one instant for each
-- request, in nanoseconds, and the random bytes, the AEAD with the encodings of the cookie, and
-- what the provider answers are arguments; the exchange of a code is given the response as it is when
-- it is made, since what it answers may depend on what went before. The theorems suppose of the AEAD
-- and the encodings that they take apart what they put together. A slice is a list; where the code
-- sorts one that is shared, as compile.Snapshot does with the endpoints of the policy that Publish
-- stores, the model passes the sorted list on. An error keeps its sentinel and its text up to the first
-- interpolated value.
--
-- Bounds. Every function is structurally recursive. The validator's limits of eight levels and 64
-- nodes, the limit of a cookie of 3800 bytes and the ten minutes of a login flow are those of the
-- code, and so are the four levels of a search for a Swagger document, which are its fuel: where
-- they are used up, the code returns the error that the model does. A time.Duration wraps around at
-- 64 bits.
--
-- Not modelled: SQL, the other HTTP handlers and the decoding of their bodies, logging and the
-- wiring of the programs, which are input and output; regular expressions, path.Clean,
-- encoding/json, yaml.v3, net/url, the cryptography and the OIDC and OAuth2 libraries. The services
-- are run by one call at a time, as each theorem speaks of one call, or of one after another.
mod Common
pub mod Text
pub mod Policy
pub mod Biz
pub mod Config
pub mod Auth
pub mod Server
