-- ===== src/Lib.antt =====
-- kernelbuild-buildkit: a BuildKit frontend that builds Linux kernels, and the runner that it starts.
--
-- A build is a Spec. It begins with the defaults, takes the entries of a Kernelfile, then the options
-- of the invocation (cmd/kbuild-frontend/main.go), is validated (spec.go), and becomes a graph of two
-- vertices (llb.go). The second vertex runs cmd/kbuild-step/main.go on a persistent mount: the runner
-- reads its environment and its secrets, brings the mount to the wanted source tree, makes .config,
-- checks it against the expectations, and compiles.
--
-- The files:
--   Common      the helpers: text as bytes (Text), results (Errors), lists, tests on native numbers
--   Regex       the anchored expressions of spec.go, matched by derivatives
--   Spec        spec.go: the record and its defaults (Spec), the tarball's name and the defaults
--               (Source), the expressions (Patterns), Timestamp of step.go (Timestamp), Validate
--               (Validate), and what it promises (Accepted)
--   Kernelfile  ParseKernelfile of step.go: the parser, what the file means (Meaning), its order (Lines)
--   Frontend    cmd/kbuild-frontend/main.go: applyOpts, archForPlatform, and build (Build)
--   Graph       llb.go: KernelLLB, its vertices (Vertices) and scripts (Scripts), the cache key (Key)
--               and what enters it (Inputs), the environment of the runner (Contract)
--   Solve       gateway.go: GatewaySolve, up to the graph that it solves (Checked), and
--               checkContextDir (Local)
--   Seed        SeedCfg of llb.go and loadSeedCfg, checkSeedPush of cmd/kbuild-step/main.go
--   Targets     resolveTargets and modulesEnabled of cmd/kbuild-step/main.go
--   Step        the runner's work on the mount: the mount (Mount), runs with their trail of mounts (Run,
--               Rules), the world around it (World), acquireSource (Source), download (Download),
--               the client of the download with its guards (Fetch), prepareTree (Tree), configure
--               (Configure), validateExpectations (Expect), and run itself (Sweep, Report, Build)
--   Extract     untarFiltered of cmd/kbuild-step/main.go and cmd/kbuild-step/untarpool.go: the calls of
--               os.Root (Disk), stripComponents (Names), the reader and its pool of writers (Pool)
--   Pack        the archives of packModules (Anonymous) and seedPush (Seed) of cmd/kbuild-step/main.go
--   Kconfigs    bundleKconfigs of cmd/kbuild-step/expect.go: what it collects (Listing), and its order
--               (Order)
--   Patch       patchFiles and applyPatches of cmd/kbuild-step/main.go: what a patch means (Meaning),
--               the series (Series), what it never touches (Untouched)
--   Client      ParseCacheEntry, with encoding/csv (Csv), S3CacheURL and VertexLabel of client.go
--   Tests       runs at concrete inputs
--
-- How the state is modelled. The mount is a list of its top-level entries in the order of their names.
-- A function of the runner takes the mount and gives its result, the mount that it leaves, and the
-- trail of the mounts in between, one for each single change, so that the trail has every mount that
-- a runner killed midway leaves. A write of an entry is one change. What stands below a top-level
-- entry is not modelled. run itself keeps a log: the changes of the mount, and each thing that it
-- compiles, writes to /out or pushes, with the mount that it is made from. Its loop over the artifacts,
-- a Go map, goes in the order of the plan.
--
-- The extraction stands apart, over a file system that is a parameter, one function for each call of
-- os.Root. The pool is a state with the reader, the channels and the disk; a schedule is a list of
-- turns, of the reader for one entry and of a worker for one job, and a turn that has to wait changes
-- nothing. A job is written in one turn: the calls of two writes do not interleave.
--
-- The patches stand apart as well, over the files by their path, with text and mode, and a test for
-- the directories. An error leaves the files as they are then. The archives and the bundle of the
-- Kconfig files are functions of the entries below a directory, in the order of their names.
--
-- Parameters. What the repository does not hold is a parameter: SHA-256, rand.Text(), platforms.Parse,
-- the JSON decoder, make, and what the gateway and the servers answer. What an extraction and the
-- patches write, and what the pull of a seed brings, are parameters of the world as well; a
-- hypothesis says that the archives bring no stamp of their own and that a whole seed has a Makefile.
-- Of a download the world has the outcome, which Step.Download models by itself, over the answers to
-- its requests; Step.Fetch models how the client comes to such an answer.
--
-- Fuel and bounds. The download is recursive on the attempts that are left, five as in the source,
-- and a fetch on five requests, more than which CheckRedirect does not let through. The loops
-- over text are recursive on the text, or on its length where a round takes at least a byte. Machine
-- integers occur in Timestamp and in parseRetryAfter, whose ParseInt has its range written out. The
-- pool of writers needs no fuel: its turns are counted.
--
-- Not modelled: the transport to the daemon and the driver (client.go, cmd/kbuildctl), the
-- decompression and the compression, the S3 client, and the printed output.
pub mod Common
pub mod Regex
pub mod Spec
pub mod Kernelfile
pub mod Seed
pub mod Targets
pub mod Extract
pub mod Client
pub mod Kconfigs
pub mod Pack
pub mod Patch
pub mod Frontend
pub mod Graph
pub mod Solve
pub mod Step
pub mod Tests
