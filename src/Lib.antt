-- ===== src/Lib.antt =====
-- smARTmatch matches artworks that were lost to Nazi persecution with artworks offered at auctions.
-- Scrapers fill a database; a pipeline of four stages (image blocking, image matching, metadata
-- extraction, metadata matching) finds candidates by their images and compares the metadata; a
-- scheduler runs the pipeline in cycles, and a telemetry daemon reports on the installation.
--
-- The parts modelled, and the files of the repository that they stand for:
--   Dating      matching_pipeline/metadata_normalization/dating_normalization: the mentions of a
--               dating (schema.py) and their resolution into an interval of years (resolver.py);
--               Dating/Overlap the dating similarity of matching_pipeline/metadata_matching.
--   Rankings    matching_pipeline/shared/artifacts/rankings.py: the rankings that image blocking
--               leaves for image matching, as image matching reads them. Stream holds the generators
--               _iter_ranking_rows and _iter_rankings, Load the batches.
--   ImageMatching
--               matching_pipeline/image_matching/result_rows.py: the accepted image matches become
--               one row for each pair of artworks. Writes holds the function as a whole.
--   Interval    scripts/run_interval.py: the loop of _run_scheduler, its job and its lock.
--   Batches     scrapers/scheduler.py: the loop that submits batches of scrapers.
--   Matching    .../main_matcher/metadata_matcher.py: the score of a pair of artworks; Batches is
--               process_one_auction and the commits of match_metadata.
--   Health      shared/service_health.py: HealthReporter; Probe is read_health_status.
--   Artists     .../similarity_functions/artist/count_confidence.py: the names of a field; Index is
--               the index of document frequencies.
--   Similarity  .../similarity_functions: the similarities of artists and dimensions, and the
--               artists' confidence; Titles is the title folder, Hierarchies the confidence
--               and similarity of materials and techniques, and Filled the interface of Matching
--               with these functions.
--   Cleanup     scrapers/image_cleanup/cleanup.py, the removal of image files that belong to no
--               match: Io has the system calls and their failures, Quarantine and Recovery a
--               file's way into the quarantine, back and out of it, Inventory the plan, and Run
--               a run with --apply. Steps and Rules carry the proofs. `cleanup` may be ended
--               before any of its calls, by a schedule of events.
--   Hierarchy   .../similarity_functions/technique_and_material: load_hierarchy.py;
--               Distance and Similarity are matching_function.py.
--   Pipeline    scripts/run_pipeline_scheduler.py: _run_cycle, _run_step and the round of
--               run_scheduler; Cadence is _next_trigger_after.
--   Telemetry   telemetry/daemon.py: the loop of run_telemetry_daemon, round by round. Workspace holds
--               the budgets of telemetry/sync_budget.py.
-- Prelude passes on the names that the modules share.
--
-- How the code corresponds. A mutable object is a record that an operation takes and returns. An
-- exception is an `err`, or the `raised` of a generator, which is the list of what it yields before
-- it ends. What the code reads of its surroundings (a clock, the outcome of a process, a setting)
-- is an argument. A dict is an association list, or a function where the code only looks up.
-- Log lines, health messages and identifiers of processes are left out.
--
-- Bounds and fuel. Years are integers without bound, as Python's. The climb to the root of a
-- hierarchy is given as many steps as the hierarchy has names and two more: each step but the last
-- visits a name for the first time. A trigger's advance takes its fuel as an argument, and what
-- fuel is enough is shown; in whole ticks it is one more than the clock has. The digits of n are
-- counted with n divisions. A schedule of events is of any length; a run without failures takes
-- ten calls to stage a file.
--
-- Not modelled: neural networks, language models and their prompts, regular expressions over free
-- text, HTTP, SQL and the database models, the web pages, process groups under /proc, and floats,
-- which are a type with the operations used (Rankings, Matching, Similarity), the integer of their
-- bits (ImageMatching), a pair of numbers (Hierarchy), a clock's sum and comparison
-- (Pipeline/Cadence) or a whole number of ticks (Interval, Batches, Health).
-- Of the image cleanup: the order in which a disk makes changes durable, the quarantine's directory
-- itself, symbolic links on the way to a file, and the lock file, which keeps other writers away.
pub mod Artists
pub mod Batches
pub mod Cleanup
pub mod Dating
pub mod Health
pub mod Hierarchy
pub mod ImageMatching
pub mod Interval
pub mod Matching
pub mod Pipeline
pub mod Prelude
pub mod Rankings
pub mod Similarity
pub mod Telemetry
