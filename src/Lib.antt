-- ===== src/Lib.antt =====
-- The backend of the vethealth site, a content service for veterinary articles (NestJS on
-- TypeORM): its authentication, its access control, posts, search and the calls of AI providers,
-- as functions and theorems about them.
--
-- Texts are lists of UTF-16 code units (Base.Strings), and white space is that of JavaScript
-- (Base.Spaces). A table is an instance of the interface Repository, which states what the
-- program relies on of TypeORM's findOne, save, create and softDelete: which row is found, and
-- how the rows change. Repository.Memory fills it with a list, Repository.Tombstones with a list
-- of marked rows, and Repository.Rows has the lemmas that the services share. Deleted rows are
-- those that softDelete hides. Parameters stand for everything that is not the repository's own:
-- scrypt, JwtService, ms, slugify, the SDK of the AI providers, JSON.parse and the database's
-- reading of a condition.
--
-- The parts, with the files that model them:
-- - Password: src/utils/password-hash.ts. Stored hashes with salt, and the comparison with a
--   dummy hash that a login makes for users who may not log in.
-- - Users: src/modules/users/users.service.ts and entities/user.entity.ts, with
--   src/roles/roles.enum.ts and src/statuses/user-statuses.enum.ts. The hook that hashes a
--   password on each write is part of create and update.
-- - Auth: src/modules/auth/auth.service.ts. Its state is the record Db of the tables of users,
--   sessions and confirmation tokens and of the mails sent (Auth.Monad); a request is an action
--   on it, which ends with a result or an exception. There is no transaction in the program, so
--   what was written before an exception stays. Auth.Sessions and Auth.Confirms model
--   src/modules/session and src/modules/confirm. Time, random values and whether mail goes out
--   are the fields of Env, one for each request. Auth.History has the requests of
--   auth.controller.ts and the databases that a sequence of them leads to. The requests of other
--   controllers that write users are not among them, and no write fails: a registration is taken
--   to have an email that its validator found free.
-- - Access: the guards of src/modules/auth/guards, src/modules/users/guards,
--   src/modules/topics/guards and src/modules/posts/guards. The result of canActivate is a
--   Verdict. Access.Routes has the handlers of all controllers with their decorators, which are
--   arguments of the global guards. Access.Serialization has the groups that
--   src/modules/auth/interceptors/roles-serializer.interceptor.ts asks class-transformer for at
--   the handlers that name it, and the decorators of the fields of a user.
-- - Posts: src/modules/posts/posts.service.ts and entities/post.entity.ts. A list is modelled by
--   the condition that it is asked for with, and Posts.Visibility says what the database makes
--   of each field of it. Posts.Requests has the request that changes a post:
--   dto/interceptors/children.interceptor.ts, which runs before validation, the pipe for the
--   images and the service.
-- - Lists: what src/modules/topics, categories, pages and users share when they list rows: the
--   options of findAndCount, an interface that states what TypeORM documents of it, and the page
--   that is made of its answer.
-- - Topics, Categories, Pages and Users.Listing: src/modules/topics/topics.service.ts,
--   categories/categories.service.ts, pages/pages.service.ts and the list of
--   users/users.service.ts, with the handlers that read (topics.controller.ts,
--   categories.controller.ts, pages.controller.ts).
-- - Ai: src/modules/ai/ai.service.ts, ai-model.registry.ts and forward-retry-after.ts. A run of
--   a task threads a world through the calls of the SDK. The loop runs on fuel, which is the two
--   attempts of the code. Thrown objects lie on a heap, so that causes may form a cycle; the
--   search for a cancellation runs on the levels that the code's own limit leaves.
-- - Context: src/utils/seo-content-context.ts and src/utils/content-text.ts (Context.Pages).
--   Documents of the editor are JSON values; the excerpts are modelled at the default of 12000
--   characters.
-- - Seo: src/modules/seo/seo.service.ts: update over the rows of metadata and of the materials
--   (the parent), findEntries (Seo.Entries), and generate with buildSource (Seo.Sources). Of
--   src/modules/ai/tasks/seo-metadata.task.ts: the prompt and the keys of the schema
--   (Seo.Prompts) and the review (Seo.Review), whose warnings are constructors in place of
--   texts.
-- - Validators: is-exist.validator.ts and is-not-exist.validator.ts of src/utils/validators,
--   over an interface for findOne on one column; a check and the write after it are two steps,
--   between which nothing else writes. is-valid-includes.validator.ts is behind
--   src/utils/transformers/include-transform.ts.
-- - Search: src/modules/search/search.service.ts.
-- - Files: src/modules/files/utils/sniff-image-type.ts, src/modules/files/files.service.ts
--   (Files.Service), the address of a loaded file (Files.Paths: entities/file.entity.ts), and
--   the addresses that the storages of src/modules/files/storage give under the configuration of
--   src/config/file.config.ts (Files.Storages).
-- - Scripts: scripts/fix-r2-content-types.js (Scripts.ContentTypes), over a bucket whose
--   objects, types and copies are an interface, and scripts/migrate-db-refs-to-r2.js: the keys
--   of stored files (Scripts.References), the references inside texts (Scripts.Rewrites) and the
--   run over the tables (Scripts.Migration). Scripts.Copies is
--   scripts/migrate-uploads-to-r2-node.js over a folder that is a tree, and Scripts.Environment
--   what this script and migrate-db-refs-to-r2.js make of an environment file;
--   fix-r2-content-types.js reads such a file in another way, which is not modelled.
--
-- How they meet: Auth writes users through Users and reads hashes through Password; Access loads
-- users through Users; Posts takes the caller of Access; Search reads posts and takes their
-- visible text from Context.Lexical.
--
-- Not modelled: the decorators of the DTOs, the mail templates, the rest of the configuration,
-- migrations and seeds, the read-only inspection of references, the command lines of the
-- scripts, and what is only logged.
pub mod Base
pub mod Password
pub mod Repository
pub mod Users
pub mod Auth
pub mod Access
pub mod Posts
pub mod Lists
pub mod Topics
pub mod Categories
pub mod Pages
pub mod Ai
pub mod Context
pub mod Search
pub mod Files
pub mod Seo
pub mod Scripts
pub mod Validators
