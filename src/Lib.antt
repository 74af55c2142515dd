-- ===== src/Lib.antt =====
-- A model of rightsizer (github.com/MarcoColomb0/rightsizer), the appliance that watches vCenters for
-- some days and reports how their virtual machines can be sized.
--
-- An administrator logs in to a console, over SSH or on the appliance's screen. Each vCenter is a source
-- of the engine: it logs in with credentials from the vault, polls, folds what it reads into
-- histograms, saves its state after every poll, and ends with a report, which a small HTTPS server
-- shares by a link that expires. The parts that are modelled, and where (paths from the repository's
-- root):
--
--   Version     internal/version/version.go: the order of releases, and how they are read.
--   Atomicfile  internal/atomicfile/atomicfile.go: how a file is replaced. A disk has the present
--               entry and the one that a power loss leaves; each call of the operating system is one
--               function on it, with its failure.
--   Vault       internal/vault/vault.go: the vault's key, its secrets and its file. Argon2id,
--               XChaCha20-Poly1305 and JSON are the parameter `Crypto`, with the laws `IsSound`;
--               Vault/Toy.antt is an instance of both. `seal` writes by Atomicfile.
--   Engine      internal/engine/engine.go and internal/engine/source.go. Data: the state of a source
--               and of the engine. Source: `begin`, `resume`, `extend`, `reopen`, `run`, `stop`,
--               `finalize`, `save`. Loop: `fail`, `refreshInventory`, `poll`, `loop`. Manager: `New`
--               and `Add`. Sessions: `Resume`, `Extend`, `reconnect`, `Finish`, `Remove`, `Unlock`,
--               on the vault of Vault.
--   Sshd        internal/sshd/sshd.go: who may log in, one after the other (Throttle) and at the same
--               time (Overlap), and how many consoles are open.
--   Floats      what internal/analysis uses of float64, as a parameter; Floats/Decimal.antt is an
--               instance to run the models with.
--   Stats       internal/analysis/stats.go: the histograms of percentages, the averages, the slots of
--               demand, and what one VM's series adds to them.
--   Io          internal/analysis/io.go: the histograms of rates and, in Load, what samples and flushes
--               make of a datastore's load. Logarithms are the parameter `Logs`.
--   Sizing      internal/analysis/sizing_nodes.go and sizing.go: the new nodes that a cluster can have,
--               and the recommended one.
--   Recommend   internal/analysis/recommend.go, exclude.go and merge.go. Data: the types. Rules and
--               Shape: the rules of `rightsize`, `storageFindings`, `placementFindings`,
--               `orphanFindings`. Exclusions: which findings an exclusion covers. Cluster: `sizeCluster`
--               and `topModel`. Order: `SortFindings`. Analyze: one definition for each step of
--               `Analyze` (Steps) and the whole of it (Whole). Merge: the report of several vCenters.
--               Balance and Outcome, Kept, Rightsizing, Hosts, Ranking and Combined have the proofs.
--   Peaks       internal/analysis/peaks.go: `correlate`, with its union-find (Forest, Union, Groups)
--               and `pearson` (Correlate).
--   Exclusions  internal/engine/exclusions.go: the exclusions in memory and in their file, which is
--               written by Atomicfile. Those of one vCenter are what Recommend applies.
--   Parameters  internal/engine/sizing.go and sizing.go of internal/analysis: the parameters of a sizing,
--               their validation, and how they are saved and loaded by Atomicfile.
--   Accuracy    internal/analysis/accuracy.go: how much averages hide, and an earlier peak of a cluster
--               (Peak).
--   Guard       internal/vc/guard.go: which calls of vCenter leave the process.
--   Report      internal/report/server.go: the shares and their links.
--
-- Shared: Prelude (booleans, lists, signed integers, `Outcome` for Go's value and error), Text
-- (strings as lists of code points, with what the program uses of `strings` and `strconv`), Map
-- (Go's maps with text keys, as association lists).
--
-- How it is modelled. A method that holds a mutex is one step on its state. Calls of the engine and
-- of the vault that work without it, or let go of it in between, run one after the other here
-- (`Unlock`, `ChangePassword`, `Add`); the two steps of an SSH login are apart. `stop` takes the
-- wait for the collection loops as over, which end with their context or with the analysis. Clock
-- readings, random bytes, answers of vCenter and of the operating system are arguments: a theorem
-- holds for all of them. A Go pair of a value and an error is an `Outcome`. An instant is a number
-- of nanoseconds, without the bounds of int64; versions keep theirs, and `Atoi`'s. A goroutine is
-- the context that ends it, and `stop` has no result when it would wait for ever.
--
-- Loops over lists and maps are structural recursions. The collection loop runs as many passes as
-- its argument lists, since its end depends on the clock: Engine.Pause says how many are enough to
-- stop it after refused logins. The number of nodes is searched up to 64, as the code does. `find`
-- of Peaks has one unit of fuel more than there are pairs to unite: no chain of parents is longer
-- than the number of unions, since each makes the tallest tree at most one higher. `add_demand` of
-- Stats has two units more than the sample spans half hours, of which it touches at most one more.
-- Nothing else has a bound that the code lacks. Totals and sizes are natural numbers without the
-- bounds of int64, where the code has no test of them; uint16, uint32 and uint64 counters wrap
-- around or saturate as the code writes it.
--
-- path.Match and the Unicode tables of strings.ToLower and strings.EqualFold are the parameter
-- `Matching`, the JSON encodings of exclusions and of sizing parameters the parameters `Codec`.
-- Go's sort is taken as stable where the code asks for a stable one, where the names that it sorts
-- by differ, for the points of Io and for the bursty VMs of Accuracy.
--
-- Not modelled. Of internal/analysis: AddHosts, `instances` and `DownsampleIO` (io.go), the sizing
-- of storage, MergeSizing, the heat map and the points of the charts; the engine's `World` has the
-- results of the analysis as a parameter. The building of a sizing, `Publish`, the import of
-- vCenter's history and the scans for orphaned disks are left out of the engine. The rest of
-- internal/vc (calls of vCenter), internal/ipc and internal/console (a socket between the console
-- and the service), internal/tui (screens), internal/appliance (the operating system),
-- internal/backup, internal/demo (made-up data), the PDF of internal/report and the commands under
-- cmd are not modelled: they are input and output, or translate between libraries that are not part
-- of the repository.
pub mod Prelude
pub mod Text
pub mod Map
pub mod Version
pub mod Atomicfile
pub mod Vault
pub mod Engine
pub mod Sshd
pub mod Report
pub mod Floats
pub mod Sizing
pub mod Stats
pub mod Io
pub mod Recommend
pub mod Exclusions
pub mod Parameters
pub mod Accuracy
pub mod Peaks
pub mod Guard
