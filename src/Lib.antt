-- ===== src/Lib.antt =====
-- First-Helios: the read side of menus and its price history, the resolution of records to subjects
-- and the changes of subjects, the closure of venues, the areas of the price index, and the opaque
-- tokens of the API.
--
-- The program keeps immutable menu pages, each an accepted interpretation (JSON-LD, DOM, PDF or
-- model) of a source record, and answers which content and which price holds for one target of one
-- subject, now or as it was known at an earlier cutoff. Identity says which subject a record stands
-- for; Provenance gives the keys that break ties; Gold aggregates the selected prices by area;
-- Discovery surveys the venues; the API names targets and page boundaries by tokens.
--
-- Files, and the code they are about:
--   Menu/Model        the committed rows (packages/helios_core/domains/menu/models.py)
--   Menu/Heads        `_stream_heads`, `_subject_heads`, `_all_heads_withdrawn`
--   Menu/Graph        `_Node`, `_PageGraph`, `_graph`, and `menu.node` of alembic/versions
--   Menu/Paths        `_native_path`, `_canonical_native_path`, `_target_node`, `_depends_on_base`,
--                     `_path_applicability_ids` with `menu.node_path`, `_effective_context`
--   Menu/Context      the intersection of restrictions, `_matches_context`, `_contains_instant`
--   Menu/Rank         `_orderable`, `_business_key`, `_rank_key`
--   Menu/Session      `_base_valid`, `_pin_valid`, `_operating_ok`, `_live_scope`, `_current_gate`
--   Menu/Content      `_content_candidates`, `_resolve_content`, `_select_content`
--   Menu/Price        `_price_contenders`, `_price_result`, `_select_local_price`
--   Menu/Organization `_org_claim`, `_organization_claims`, `_head_claimable`
--   Menu/Select       `select_price`
--                     (all of packages/helios_core/domains/menu/selection.py)
--   Menu/History      `_claimed_contexts` (packages/helios_core/domains/menu/history.py);
--                     History/Trail: `price_history`, `_owns_heads`
--   Identity/Scope    `current_resolved_scopes` (packages/helios_core/identity/contracts.py)
--   Identity/Resolution  rows, checks and triggers (packages/helios_core/identity/models.py,
--                     commands.py, alembic/versions/3f8b2c1d9a74); Commands: `_record_resolution` and
--                     its callers; Projection: `rebuild_identity_projections`, its part on
--                     resolutions; History, Steps and Transitions: theorems
--   Identity/Lineage  `_current_lineage_successor_ids` (packages/helios_core/identity/commands.py)
--   Identity/Observe  `_read_resolution_plan`; Observe/Attempt: `_resolve_observation_once`,
--                     `resolve_source_record_observation` (the same file)
--   Identity/Change   `record_subject_change` (the same file) with the trigger function
--                     `apply_subject_change` (alembic/versions/3f8b2c1d9a74)
--   Gold/Boundary     `Boundary.contains`; Gold/BoundaryText: `parse_boundary`; Gold/Grid:
--                     `grid_cell` (packages/helios_core/gold/price_index.py)
--   Discovery/Closure `_closure_window` and the loop body of `_close_missing`
--                     (apps/discovery/lifecycle.py)
--   Api/Json          the values of a payload; Api/Codec: what all tokens share
--   Api/ItemId        `encode_item_id`, `decode_item_id` (apps/api/item_ids.py)
--   Api/Cursor        the cursors (apps/api/pagination.py)
--   Base              shared lists, options, orders, texts, integers and their lemmas
-- The modules below a component hold its theorems; the modules named Examples hold the tests.
--
-- Correspondence. A database session is a record of tables. The reads of the menu do not write, so
-- no state is passed on; a resolution command is a function to a new database or an error. Instants
-- are numbers of microseconds, confidences of 10^-4 (10^-5 on an Identity decision), coordinates
-- integers of micro-degrees, texts lists of code points. A Python dict is an association list in
-- insertion order. What Identity answers for a scope and the canonical key of a record version are
-- functions of the session, arbitrary in every theorem.
--
-- Parameters. What Identity asks of Provenance when a record is observed again is the interface
-- Bronze; its law KeepsIdentity says that persisting an observation writes no table of Identity.
-- JSON, base64, UTF-8, datetimes and the text of an integer are the records Codec, Clock and Digits;
-- the laws Inverts and ReadsBack say, of one value, that what is written is read back.
--
-- Fuel. The walks over parent and base links have one unit for each node row and one more. The
-- database refuses an aggregate with a cyclic path, which the theorems on walks take as a height
-- that falls along the links. The walk of `menu.node_path` goes no further from a node that it has
-- visited, so a path has at most one row more than there are nodes. The recursive query over
-- lineage has one round for each row: a round that is not the last finds the successor of a row
-- that had not been found, so no round is missing.
--
-- Not modelled: locks (a command is one step; an attempt to resolve an observation is two reads with
-- any commits of others between them), the SQL behind Identity's scope check and readiness policy
-- (the policy is a parameter), Subject upserts, Provenance, menu writes, SQL aggregation, network
-- and rendering code, and display columns that no decision reads.
pub mod Api
pub mod Base
pub mod Discovery
pub mod Identity
pub mod Menu
pub mod Gold
