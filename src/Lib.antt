-- ===== src/Lib.antt =====
-- Sumpter extracts records from XML, JSON and NDJSON documents by recipes. This library models
-- some of its core in Go and proves what makes it correct. Each section of code below is
-- independent of the others unless it says otherwise; a file's own comment says how its
-- definitions correspond to the code.
--
-- Base holds what the models share: Boolean tests, lists over the native numbers, int64 with its
-- wrap-around (Base/Int), and lemmas on an element taken out of a list (Base/Members).
--
-- Budget is internal/uriio/staging_budget.go, the run-global cap on staged cloud payload.
-- Budget.antt has the methods of StagingBudget, each as one step, since the body of a method
-- runs under its mutex; Admit is its size checks and the rounds of its loop. Budget/System is
-- the goroutines that call them: a call of Admit that waits, sleeps in cond.Wait and is woken by
-- a broadcast, and whose context may end. Caps, Wakeup, Blocked and Overflow are the proofs.
-- StagingStats and StagedBytesExceedAdmit (a file's size on disk) are not modelled.
--
-- Parallel is internal/extract/parallel: a scheduler hands out the records of an index, workers
-- extract them in any order, an aggregator puts the results back in order, and the orchestrator
-- gives them to the caller or to a sink. Parallel/Scheduler is the goroutine of
-- scheduleWorkStreaming, round by round, with the places where its context may be found done as
-- an input. Parallel/Aggregator is Add and Collect over an association list; the loop of Add
-- runs on fuel, the number of buffered results plus one, and each round deletes one.
-- Parallel/Orchestrator is the loops of Extract and ExtractToSink over the ordered results.
-- Parallel/Pipeline is these at work together, as a step relation. Parallel/Scheduler/Legacy is
-- scheduleWorkLegacy. The extraction of a record by a worker, logging and the statistics' totals
-- are not modelled; a record's data is a type parameter and a sink is a function parameter.
--
-- Dsl is the expression language of internal/validation/dsl, on byte strings. Dsl.antt has the
-- syntax tree, Dsl/Text what the code uses of Go's strings and strconv, Dsl/Scan the scans of
-- parser.go that respect quotes and parentheses, Dsl/Calls function calls and their arguments,
-- Dsl/Parser ParseExpression, Dsl/Filter ParseFilter, Dsl/Advanced the test of accumulator.go
-- for which of the two parses a filter, and Dsl/References the walk of references.go over an
-- expression. Dsl/Value, Dsl/Runes, Dsl/Functions and Dsl/Evaluator are evaluator.go: the
-- values, the string functions on runes, the functions of a call and EvaluateExpression and
-- EvaluateFilter; the arithmetic of float64 is an interface, Float64. Dsl/Evaluator/Typing has
-- the kinds of expressions, which the source does not, and Dsl/Evaluator/Sound their proof.
-- Dsl/Accumulator is accumulator.go, with the loop of runtime.go over a document's records.
-- Dsl/Validation is the rules of runtime.go and the decision to fail of types.go, and
-- Dsl/Validation/Balances its aggregations and its reconciliations. Arrays, and with them
-- group_by and array_path, are not modelled, nor are the messages and the report.
-- ParseExpression calls itself; the model ties its body on fuel, one more than the string's
-- length. A float64 is of a type parameter with strconv.ParseFloat as a function parameter, and
-- error messages are left out.
--
-- RefTable is internal/reftable: RefTable.antt has the registry of loaded tables and its two
-- queries, RefTable/Load the loaders, from what encoding/csv, bufio.Scanner and encoding/json
-- give, and RefTable/Capped the reader that limits the bytes. TextMap is Go's maps from strings.
-- Dsl/Evaluator/Registry takes the registry as the lookup of an evaluation. Where a table's
-- source is found, its identity and its hash are not modelled.
--
-- ValueProfile is internal/valueprofile: ValueProfile.antt has config.go, ValueProfile/Collector
-- the states of the fields, ValueProfile/Collector/Merging and Inputs the transactions of the
-- collector, ValueProfile/Snapshot the guard and what a profile shows. ValueProfile/Counts
-- relates a map of values to the list of them; the proofs follow a collector through any list of
-- calls. It takes the values and the floats of Dsl/Value.
--
-- Streaming is internal/extract/streaming, the scanner that finds the records of an XML
-- document: Streaming.antt is scanner.go over the tokens of encoding/xml's decoder, each with
-- its bytes, Streaming/Selector selector.go and Streaming/Ascii ascii.go. Streaming/Forest is a
-- document as a tree, with the records that the scanner should find; Inside, Between, Records,
-- Sizes and Sticky are the proofs. The decoder matches the tags of a document; its encoder is a
-- parameter. Other encodings and the count of the bytes read are not modelled.
--
-- Json is internal/docnode/json, the scanner that finds the records of a JSON document:
-- Json.antt has the tokens of encoding/json's decoder, each with its bytes and how far the
-- decoder has read, and the operations of walker.go that the scanner uses; Json/Scanner is
-- scanner.go and Json/Capture its buffer of the input's bytes. The loop of next recurs on the
-- tokens. Json/Document is a document as a tree, with the records that the scanner should find.
-- Json/Scanner/Rounds, Entered, Inner, Nested, Yields, Between, Picked, Outermost and Records
-- are the proof. It takes the record of Streaming, which is that of internal/docnode. Json/Walk
-- is walk with the handler that only validates, and Json/Lines is ndjson.go, the scanner of one
-- record to a line; its lines and the decoder on a line are parameters. The handlers that build
-- a tree, the check of UTF-8 and the offsets in errors are not modelled. The functions of the
-- walk call one another on fuel, twice the number of tokens and 2, and of two calls one reads a
-- token.
--
-- Transforms is internal/extract/transforms/string_transforms.go on values of valid UTF-8:
-- trimming, and the masking of sensitive strings, whose outcome is a value, an error, a panic or
-- a slice past the runes, which the capacity of a slice decides. It uses Dsl/Text for
-- strings.TrimSpace and Dsl/Runes for the conversions to runes and back. Changes of case,
-- replacement and the registry of transforms are not modelled.
pub mod Base
pub mod Budget
pub mod Parallel
pub mod Dsl
pub mod Streaming
pub mod Json
pub mod TextMap
pub mod RefTable
pub mod Transforms
pub mod ValueProfile
