-- ===== src/Lib.antt =====
-- A model of the Rust bindings for Daml: reading Daml-LF archives (daml-lf), the values of a ledger
-- and their protobuf form (daml-grpc), collections of packages (daml-util), and code
-- generation (daml-codegen).
--
-- How the parts interact. A dar file is a zip archive of a manifest and dalf archives; an archive
-- holds a payload, which holds a package. A collection of packages, fetched from a ledger, is decoded
-- through the same payloads and made into archives and dar files. Values go to the ledger and come
-- back as protobuf values.
--
-- Lf: daml-lf/src.
--   Lf.Version, Lf.Error: version.rs, error.rs.
--   Lf.Proto: the protobuf messages of a package, as far as they are used.
--   Lf.Payload: payload.rs. `DamlLfArchivePayload::from_bytes` is `payload_from_bytes`.
--   Lf.Archive: archive.rs. `from_bytes_named` returns an option: none is a panic.
--   Lf.Manifest: manifest.rs. `parse` is split into the reading of each key; `render` (Render)
--     gives the bytes of the text, with its lines wrapped as in Wrap and the chunks read as
--     `from_utf8_lossy` does (Lossy). Folded is how YAML reads a wrapped line.
--   Lf.DarFile, Lf.Dar: dar.rs, on an opened zip archive.
--   Lf.Convert: convert/package_payload.rs, module_payload.rs, archive_payload.rs and interned.rs;
--     Lf.Convert.Names: the names of type constructors in convert/type_payload.rs; Lf.Convert.Kinds:
--     the kinds of convert/typevar_payload.rs; Lf.Convert.Types: `convert_type`.
--   Lf.Convert.Data: the declarations of a module, of convert/field_payload.rs, template_payload.rs,
--     interface_payload.rs, exception_payload.rs and convert.rs (`build_data_type`, `build_template`).
--   Lf.Convert.Modules: convert.rs from `build_module_tree` to `apply_dar` and `apply_dalf`. A change
--     through `&mut` is a function from the old tree to the new one; `insert_module` is `build_leaf`,
--     which may fail, followed by `install`. Lf.Convert.Modules.Flat is the abstract view of the
--     tree, a table from paths to modules.
--   Lf.Element: element, as it is without the feature `full`. Data types and their identity (Data),
--     the tree of modules (Module), archives and the lookups in them (Archive), `validate` (Validate).
-- Grpc: daml-grpc/src.
--   Grpc.Error, Grpc.Identifier, Grpc.Time: data/error.rs, data/identifier.rs, util.rs.
--   Grpc.Proto: the protobuf values of the Ledger API.
--   Grpc.Value: data/value. `DamlValue` with its order (Order), conversions (Convert), accessors
--     (Access), records and their builder (Record), and typed data (Serialize).
--   Grpc.Command: data/command, and data/commands.rs (Submission). `of_…` is the `From` or `TryFrom` to
--     the message, `to_…` the one from it. The messages are in Grpc.Command.Proto; the reader of a whole
--     submission in Submission.Laws stands for the participant, it is not code of the repository.
--   Grpc.Offset, Grpc.Event: data/offset.rs, data/event. Grpc.Update: data/transaction.rs and update.rs,
--     with data/reassignment.rs, topology.rs and completion.rs in its children.
--   Grpc.User: data/party.rs and data/user.rs. Grpc.State: data/state.rs.
-- Util.Packages: daml-util/src/package.rs. The search of `reachable_from`, and Util.Packages.IntoDar
--   with `into_dar` and the other operations of `DamlPackages`.
-- Codegen: daml-codegen/src.
--   Codegen.Names: renderer/renderer_utils.rs. Codegen.Types: renderer/renderable.rs, type_renderer.rs
--   and field_renderer.rs. Codegen.Modules: generator/module_matcher.rs, renderer/module_renderer.rs
--   and generator/separate.rs, which decide on the modules that the combined and the separate mode
--   render. They read the elements that Lf.Convert.Modules makes.
-- Base: lists, texts, results, maps and integers that the parts share. Tests: runs.
--
-- Parameters are the code that is not in the repository: bigdecimal and chrono (Grpc.External), the
-- protobuf decoders of prost (Lf.Payload.Prost), yaml-rust2 (Lf.Manifest.YamlRust), zip (Lf.Dar.Zip)
-- and uuid (a function from numbers to names), the cases of names of heck (Codegen.Types.Casing) and
-- the tests of regular expressions. The walk of the visitor over a decoded package is a
-- parameter too (Util.Packages.Walk): the list of the references that it meets, or an error.
--
-- Fuel. The loop of `reachable_from` runs on `rounds`, one more than the number of references in all
-- packages of the map; each package is expanded once, so that more ids are never queued.
--
-- `convert_type` and `convert_kind` follow the references of a table to a depth. Where each entry of
-- the tables refers to entries before it, the lengths of the tables and two more are enough. The work
-- lists of `validate` run on the number of modules of the archive and the size of each type.
--
-- Integers are exact; i32 wraps where the source casts, and `checked_add` and `try_from` are bounded.
-- Texts are lists of code points; the wrapping of lines and the place of a hash in the name of an
-- archive are counted in UTF-8 bytes.
--
-- Not modelled: what the feature `full` adds to daml-lf, expressions and values (convert/expr_payload.rs
-- and defvalue_payload.rs, element/daml_expr.rs and daml_defvalue.rs), the services and other messages
-- of the ledger (daml-grpc/src/service, daml-grpc/src/data), the Rust source that is printed
-- for a data type (daml-codegen/src/renderer/data_renderer), macros (daml-derive, daml-macro), and
-- reading and writing of files and sockets.
pub mod Base
pub mod Codegen
pub mod Lf
pub mod Grpc
pub mod Util
pub mod Tests
