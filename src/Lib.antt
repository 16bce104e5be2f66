-- ===== src/Lib.antt =====
-- The core logic of fabric8-wit, the work item tracker: the code that decides what is stored, what is
-- answered and what is refused, less its database, its HTTP framework and its network clients.
--
-- The parts, and the code that each models:
--
--   Prelude    names of the libraries passed on, Boolean tests on numbers, lists with membership and
--              SELECT, integers with Go's division, and texts as lists of bytes with what the
--              program uses of Go's package strings.
--   Paging     controller/paging.go. compute_paging_limits is computePagingLimits; set_paging_links
--              is setPagingLinks, with a link as a record of path, range and query. Paging/Bounds,
--              Paging/Starts and Paging/Links hold the theorems.
--   Errors     errors/errors.go: the error types as one data type, with constructors, texts and tests.
--              github.com/pkg/errors and goa are the parameter ErrorPackages, whose laws say that an
--              error of the program is its own cause and that errors.New keeps its text.
--   Jsonapi    jsonapi/jsonapi_utility.go and jsonapi/error_handler.go: an error becomes a document
--              and a status. Jsonapi/MemberName is FormatMemberName.
--   Field      workitem/field_definition.go, simple_type.go, enum_type.go and list_type.go, with the
--              contents of rendering/markup_content.go and codebase/codebase.go. Field/Value is an
--              interface{} as the program meets one, and Outcome what a call comes back with: a
--              value, an error or a panic. Field/Simple, Field/Enum and Field/ListOf are the three
--              field types, Field/Definition the definition that a work item type gives a field.
--              Floats, ids, times and URLs are those of the parameter Platform.
--   Link       workitem/link. Link is link.go, Link/Types is topology.go and type.go, Link/Ancestors
--              is the recursive query of GetAncestors, and Link/Repository the checks and the changes
--              of link_repository.go, on a store of four tables. Create validates through the query,
--              and Delete and DeleteRelatedLinks mark rows; Link/Repository/Topology and
--              Link/Repository/Kept are about the invariant of the store, Link/Repository/Cycles is
--              about DetectCycle, and Link/Repository/Gone about what the deletions leave.
--   Path       path/path.go: paths of areas and iterations, and their ltree form. The package uuid is
--              the parameter UuidPackage.
--   Answer     what a repository answers: a result, the class of an error, or a panic.
--   WorkItem   workitem/workitem_repository.go: Reorder, Create, Save and Delete, with the queries and
--              conversions that they call. WorkItem has the table of the work items and the queries on
--              it, WorkItem/Reorder, WorkItem/Create and WorkItem/Save the operations, and
--              WorkItem/Change is ChangeWorkItemType, which Save calls. WorkItem/Neighbours is about
--              FindSecondItem, WorkItem/Placement about Reorder beside a target, WorkItem/Ends about
--              the top, WorkItem/Newest about Create, WorkItem/Save/Conflict about two writers,
--              WorkItem/Save/Fields and WorkItem/Change/Typed about the fields, and
--              WorkItem/Save/Removed about Delete. The float64 orders are the parameter Orders, whose
--              laws say that they are ordered; fmt.Sprint and the texts of related rows, which a
--              change of type shows, are the parameters sprint and relational.
--   Iteration  iteration/iteration.go and iteration/state.go, the table of the iterations and the
--              repository on it; Iteration/Update is what CreateChild and Update of
--              controller/iteration.go do with the table once the user is authorized. Iteration/Reached
--              has the requests as a step relation. Iteration/Started, Iteration/Kept,
--              Iteration/Created and Iteration/Deleted are about its invariant, Iteration/Turns about
--              CanStart after a closing, and Iteration/Subtree about what moves with an iteration.
--   Criteria   criteria: the expressions of a query as one data type, with IteratePostOrder, which
--              Criteria/PostOrder is about.
--   Joins      workitem/table_join.go and the joins of workitem/expression_compiler.go.
--              Joins/Activation is ActivateRequiredJoins, Joins/Ordering GetOrderdActivatedJoins and
--              Joins/Defaults DefaultTableJoins.
--   Compiler   workitem/expression_compiler.go: an expression becomes an SQL clause with its
--              parameters, through the table joins. Compiler/Accept visits an expression;
--              Compiler/Placeholders is about the question marks of a clause.
--   Search     search/search_repository.go: Search/Parsing is parseMap, from JSON to a tree of
--              queries, and Search itself generateExpression, from the tree to an expression.
--              Search/Meaning gives both a meaning on an item, and Search/Filled is about errors.
--   Examples   the theorems at concrete inputs, with the parameters as concrete functions.
--
-- The parts meet where the code does: Jsonapi answers the errors of Errors, Link and WorkItem report
-- the classes of those errors, Field/Definition calls the three field types, and WorkItem converts its
-- fields by Field/Definition. Path shares the results of Field, and Iteration its ids of a path.
-- Search makes the expressions of Criteria, which Compiler turns into a clause with the joins of Joins.
--
-- Numbers. An id (a UUID) is a natural number, and the nil UUID is 0. Go's int is an unbounded integer:
-- the parsing of an offset refuses what 64 bits do not hold, and sums beyond that bound, which wrap
-- around in Go, are left out. A time is an integer of nanoseconds. A Go string is the list of its
-- bytes.
--
-- Loops. They recurse on their list, but for three on fuel. The rounds of the recursive query in
-- Link/Ancestors get one round more than there are links, which is enough, since a row that climbs on
-- has visited links that differ. The activation of required joins and the visit of their order get one
-- step more than there are joins, which is enough, since each nested call marks another join;
-- Joins/Activation/Closed and Joins/Ordering/Visits are about that.
--
-- Not modelled: failures of the database, which roll the transaction back, and its locks, which let
-- one writer at a time change the links of a space or a work item; logging and metrics; the SQL that
-- the full-text search and the listings of work items run; the controllers otherwise, which glue
-- generated HTTP code to the parts above; the clients of Kubernetes, of remote trackers and of other
-- services; areas, labels, spaces, space templates and the rules that run on a change; and the
-- repositories whose code is queries with no rule of their own.
pub mod Prelude
pub mod Paging
pub mod Errors
pub mod Joins
pub mod Criteria
pub mod Compiler
pub mod Search
pub mod Jsonapi
pub mod Field
pub mod Answer
pub mod Link
pub mod WorkItem
pub mod Path
pub mod Iteration
pub mod Examples
