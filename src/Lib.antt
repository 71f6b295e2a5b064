-- ===== src/Lib.antt =====
-- NewZ decides what may be said of a claim from the edges that bind it to evidence. This library
-- models the deterministic core of that decision: the frozen vocabulary of the domain
-- (newz/domain), the policy that reads it (newz/policy), the claim graph (newz/graph), and what
-- stands around it: the reading of sources (newz/acquisition), the check of quotations
-- (newz/parse), the budget and the ledger of operations (newz/control), the tasks of a claim
-- (newz/research), the deployment modes (newz/pilot), the assessment over the store
-- (newz/evidence), and what becomes of an assessment: the dependencies of a card (newz/present),
-- its appraisal, its clearance and its publication (newz/publish).
--
-- How the parts interact. A claim gathers edges; an edge binds an assertion of a source, with its
-- quoted spans, to the claim under a relation and names the basis it rests on. The rules judge a
-- cell of role, claim kind, assertion kind and relation; the matrix holds the verdict of every
-- cell; admission asks the matrix and six more predicates of one edge; independence groups the
-- bases of the admitted edges; the assessment reads the groups, the effective risk and the status
-- of the required evidence lanes, and gives the state of the claim. Before any of that, a read is
-- reserved in the ledger of operations under the budget of its day and its lane, leased by a
-- worker, fetched under the policy on URLs and the rules of the host, and parsed into segments, in
-- which each quoted span is verified; what a model proposes of them is validated, and an edge is
-- recorded with the result of its admission. What follows an assessment: a card is a revision of
-- what is said of a claim, with the rows it depends on. An appraisal reads it in four dimensions
-- and leaves the rest to a person; a clearance of the exact revision asks the appraisal, the store,
-- and whether the assessment still follows from the evidence; a publication serves what was cleared
-- on a surface; a correction or a retraction opens a revocation, which is confirmed by reading the
-- surface back, or halts the class of the card when its window has passed.
--
-- Which file models which part:
--   Prelude, Prelude/*        Boolean tests, text, comprehensions, sorts and dicts, with their lemmas.
--   Domain/Evidence, Work, Operations, Admission   newz/domain/enums.py, enumeration by enumeration.
--   Domain/Int, Domain/Records                     newz/domain/records.py, record by record.
--   Domain/Version                                 newz/version.py.
--   Policy/Rules, Cells, Matrix    newz/policy/rules.py (`decide`, `RULES`, `ROLE_CAPABILITY`) and
--     matrix.py (`all_cells`, `CapabilityMatrix.lookup`, `permits`).
--   Policy/Risk                    newz/policy/risk.py (`rank`, `maximum`, `classify`, `revise`).
--   Policy/Independence            newz/policy/independence.py: `justification_holds`, and the
--     union-find of `count_independent_bases` with its path halving. Its children
--     are about the forest, the partition, its chains, the groups and the count.
--   Policy/Lanes, LaneStatus       newz/policy/lanes.py `required`, and `lane_statuses`.
--   Policy/Admission, Promotion    newz/policy/promotion.py: `evaluate_edge`, `assess`.
--   Policy/Reassessment            newz/policy/reassessment.py.
--   Graph/Merge                    newz/graph/merge.py: `merge`, `split`.
--   Pilot/Modes                    newz/pilot/modes.py: `transition`, `enter_lockdown`.
--   Research/Tasks                 newz/research/tasks.py: `transition_task`, `discovery_brake`.
--   Research/Generation            newz/research/tasks.py: `generate_tasks`.
--   Control/Budget, Ledger, Scheduler, Retry   newz/control/budget.py, the tables that scheduler.py
--     reads, `reserve`, `claim`, `reclaimable`, `finish`, and retry.py. The children of Scheduler
--     are about the capacity, the rows, the leases, the steps of several writers, what
--     these leave of an operation, and repeats.
--   Parse/Registry, Spans          newz/parse/registry.py `parse`; spans.py `verify_span`, `locate`.
--   Extract/Proposal               newz/extract/proposal.py `validate`.
--   Evidence/Edges                 newz/evidence/edges.py: `admit_edge`, `withdraw_edge`, `load_edges`.
--   Evidence/Assess                newz/evidence/assess.py: `assess_claim`, `reassessment_owed`,
--     `stale_claims`; its children are about what an assessment leaves and when it is owed again.
--   Control/Adversarial            newz/control/adversarial.py: the reviews of R2 source classes.
--   Present/Cards, Dependencies    the rows of newz/present/cards.py that the rest reads, and
--     newz/present/dependencies.py.
--   Publish/Surface                newz/publish/surface.py, `LocalSurface`.
--   Publish/Tables                 the tables of newz/store/schema.py that newz/publish reads.
--   Publish/Appraisal              newz/publish/appraisal.py; Appraisal/Judged is about verdicts.
--   Publish/Clearance              newz/publish/clearance.py; Clearance/Laws is about the refusals,
--     Clearance/Grants and Refuses about what is granted and what is not.
--   Publish/Publication            newz/publish/publication.py; its children are about what each
--     operation keeps (Kept, Publishes, Revokes), the steps (Steps, Cleared, Shown, Contents,
--     Served) and revocations (Opened, Revoked, Corrected, Overdue).
--   Acquisition/UrlPolicy, Robots  newz/acquisition/urlpolicy.py and robots.py.
--   Acquisition/Body, Answers, Fetcher, Fetcher/Hops   newz/acquisition/fetcher.py: `_read_body`,
--     the values, `robots_for` and the making of a result, and the loop of `fetch`.
--   */Examples                     runs of each part on small concrete inputs.
--
-- How the code is rendered. A frozen dataclass is a record, a StrEnum a data type with its values
-- as text, a tuple a list, a dict the list of its entries, `X | None` an Option. A raise is `none`
-- or a constructor of a result type. Strings are compared by code points, as Python does. The
-- `while` loop of `find` runs on fuel, one more than the number of ids: a parent stands below its
-- child in the order of the ids, so a path to the root is shorter than that. The loop of `fetch`
-- runs for `max_redirects + 2` hops, as its `range` does. A table of the store is the list of its
-- rows, and a transaction is one function of the store. Writers that run at the same time are a
-- sequence of such functions, where the commit of a reservation may stand apart from its checks.
-- The files of the surface are two dicts, of pages and of tombstones, and the index; a moment is a
-- number of seconds, and a row holds it as text.
--
-- What is a parameter: `would_exceed` of newz/control/concentration.py, which compares
-- floating-point shares; `urlsplit`, `urljoin`, `ip_address`, regular expressions, `zlib`, hashes
-- and the case of a letter, from the standard library; parsers; the transport, as a function of a
-- state of the network; `content_hash` of a card and the sample bucket of a revision (`digest`,
-- `bucket`), which are hashes; `repr` of a text; and `local_id`, `stamp`, `from_ledger` and the
-- clock of newz/domain/ids.py and newz/clock.py.
--
-- Not modelled: the store's SQL beyond the tables read here, sockets, the parsers themselves, the
-- model gateway, the building and the rendering of cards, the reader, reports and export,
-- conversation, attention and reckoning, process isolation, and the JSON prints of records, which
-- are I/O, third-party code or parts that are not reached yet. Wall-clock times that no operation
-- reads, and hashes other than the one that names the content of a card, are left out of the rows
-- that hold them.
pub mod Prelude
pub mod Domain
pub mod Policy
pub mod Acquisition
pub mod Control
pub mod Evidence
pub mod Extract
pub mod Graph
pub mod Parse
pub mod Pilot
pub mod Present
pub mod Publish
pub mod Research
