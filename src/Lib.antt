-- ===== src/Lib.antt =====
-- The registration of workstreams (src/workstream_registration) and the dispatch of jobs to agents
-- (src/workstream_dispatch), modelled and proved.
--
-- A workspace is registered by a marker, the file .workstream/manifest.json. The program inspects
-- a workspace, drafts a marker, asks for a confirmation of the draft, writes the marker under a
-- lock with create-only semantics, reads it back and links it in a projection. It also resolves
-- invalid markers and removes markers, each with a confirmation. Every byte that it reads from a
-- file goes through a raw guard and a schema, and every result has bounded diagnostics.
--
-- An instruction for a registered workspace is drafted, guarded and confirmed. The dispatch writes
-- its job record, starts an agent by the command line tool paseo, and binds the job to the agent
-- in a local store. An answer on the activity derives the states of the jobs from the records, the
-- listed agents and the store, and the change of each workspace from git and a baseline.
--
-- The files:
--   Base, Json, Vocabulary, Lifecycle   shared helpers, decoded documents, the closed vocabularies
--   Errors, Runtime, Effects            exceptions; what the source takes from Python and from
--                                       jsonschema (parameters); calls of the operating system
--   Diagnostics      diagnostics.py: bounding, normalisation, serialisation
--   RawGuard         raw_guard.py: the stages before the schema validation
--   Validation       validation.py: the version and the schema
--   Filesystem       filesystem.py: identities and the target handle; its children have the lock
--                    metadata, the write loop, the lock and the marker primitives
--   Registration     registration.py: its records and result builders; its children have the
--                    inspection, the draft, the projection hook, register and resolve_invalid
--   Unregister       unregister.py: the envelope and the conditional deletion
--   Projection       projection.py: the table, its statements, update and remove; its children
--                    have the transaction of rebuild (Replacing), rebuild and the queries (Rebuild)
--   Dispatch.Intent  intent.py: the guard of instructions, the draft and the confirmation
--   Dispatch.Records, Dispatch.Notes    records.py: the job records and the outcome notes
--   Dispatch.Adapter, Dispatch.Posture  paseo_adapter.py: the command lines and their output
--   Dispatch.Git     git_adapter.py: the state of a workspace
--   Dispatch.Store   store.py: the bindings and the baselines
--   Dispatch.Ordering  dispatch.py: the record, then the agent, then the binding
--   Dispatch.States, Dispatch.Baselines, Dispatch.Activity  activity.py: the states of the jobs,
--     the change signals, and the answer
--   Dispatch.Chain   chain.py: the chains of jobs and the follow-ons that are proposed
--   Trace            what a run may do to the files, read off its events
--   Tests            a concrete environment, and each theorem on concrete inputs
-- The child modules of a component have the proofs about it, named for what they prove. A function
-- of the source keeps its name, without a leading underscore; a stage of a function that branches
-- on the answer of a call is a definition of its own.
--
-- The operating system is a record of answers, each an arbitrary function of the calls so far, so
-- the theorems hold whatever other processes do between two calls. A run is the list of its calls
-- with their answers, and the flag of the one confirmation. An exception of the source is a value.
--
-- A table of SQLite is a list of rows that is passed explicitly, and a function that changes it
-- gives it back also where it raises, if the table outlives the exception.
--
-- Fuel: the write loop has a round for each byte and one for the end, since a round that writes
-- nothing raises; the scan for controls has a round for each part of the document; a chain has a
-- round for each record and one for the end. The rounds of the wait for the lock are given by the
-- environment; a wait that uses them up ends in the exception `unfinished`, which the source does
-- not have.
--
-- Not modelled: the command lines, the conformance runners, the process check of Windows, the
-- loading of the schemas, the setting and reading of access lists, and the search for the node
-- entry of paseo. Not in the model: file modes, symbolic links but for the answers of `resolve` and
-- of the look for reparse points, the directory and the time limit of a subprocess, bytes of a file
-- beyond what a bounded read returns, lone surrogates in a text that is encoded, and RecursionError
-- and OverflowError but for the RecursionError of the output of `paseo run`. A time is a number of
-- units that are not fixed: the lease of 60 and the wait of 2 seconds are 60 and 2 units.
pub mod Base
pub mod Json
pub mod Vocabulary
pub mod Runtime
pub mod Diagnostics
pub mod Errors
pub mod RawGuard
pub mod Effects
pub mod Filesystem
pub mod Trace
pub mod Lifecycle
pub mod Registration
pub mod Unregister
pub mod Validation
pub mod Tests
pub mod Projection
pub mod Dispatch
